-- ===== src/Booking/Safety/Defs.antt =====
-- The specification of booking: which items reserve their object, and what must hold of the tables.
use coreops_platform.Base.{ℕ, ◌≡◌, ◌≢◌, Bool, true, false, ◌&&◌, List, All, Pairwise, Elem, is_some}
use coreops_platform.Booking.Model.{BookableObject, Item, Order, Store}
use coreops_platform.Booking.Timezone.{intervals_overlap}
use coreops_platform.Booking.Repository.{is_blocking_status, is_active_item, is_held, joined}

-- An item beside its order reserves its object, lapsed or not.
abbrev pub reserves : Order × Item → Bool
reserves (o, i) = is_blocking_status o.status && is_active_item i.status

-- Two reservations of one object have no instant in common.
abbrev pub Compatible : Order × Item → Order × Item → Type 0
Compatible a b =
    reserves a ≡ true
    → reserves b ≡ true
    → a.1.bookable_object_id ≡ b.1.bookable_object_id
    → intervals_overlap a.1.check_in_at a.1.check_out_at b.1.check_in_at b.1.check_out_at ≡ false

abbrev pub NoDoubleBooking : List Order → Type 0
NoDoubleBooking orders = Pairwise Compatible (joined orders)

-- The object of an item is one of the tenant and the territory of its order.
abbrev pub IsPlaced : List BookableObject → Order × Item → Type 0
IsPlaced objects (o, i) =
    (x : BookableObject)
    → Elem x objects
    → x.id ≡ i.bookable_object_id
    → (x.tenant_id ≡ o.tenant_id) × (x.territory_id ≡ o.territory_id)

-- A held order has an expiry.
abbrev pub HoldExpires : Order → Type 0
HoldExpires o = is_held o.status ≡ true → is_some o.hold_expires_at ≡ true

abbrev pub HasId : ℕ → Order → Type 0
HasId k o = o.id ≡ k

abbrev pub DistinctIds : Order → Order → Type 0
DistinctIds a b = a.id ≢ b.id

abbrev pub DistinctObjects : BookableObject → BookableObject → Type 0
DistinctObjects a b = a.id ≢ b.id

-- Consistent tables: no object is booked twice, and the identifiers are primary keys.
pub record IsConsistent (s : Store) : Type 0 where
  pub no_double : NoDoubleBooking s.orders
  pub hold_expires : All HoldExpires s.orders
  pub placed : All (IsPlaced s.objects) (joined s.orders)
  pub unique_ids : Pairwise DistinctIds s.orders
  pub unique_objects : Pairwise DistinctObjects s.objects
