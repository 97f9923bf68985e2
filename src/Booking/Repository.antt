-- ===== src/Booking/Repository.antt =====
-- backend/app/modules/booking/repository.py: the queries of booking over the tables. A query returns
-- the rows in the table's order; identifiers are primary keys.
use coreops_platform.Base.{
  ℕ, ◌+◌, Bool, true, false, not, ◌&&◌, Option, none, some, List, [], ◌∷◌, ◌++◌, Result, ok, err,
  ◌==◌, ltb, leb, find?, filter, length, update_where, if◌then◌else◌,
}
use coreops_platform.Booking.Model.{
  TerritoryStatus, ObjectStatus, OrderStatus, draft, held, pending_payment, paid, confirmed,
  cancelled, expired, ItemStatus, Territory, BookableObject, Item, Order, OrderNumber, generated,
  Party, Store, BookingError, value_error,
}

-- `status in BLOCKING_ORDER_STATUSES`
abbrev pub is_blocking_status : OrderStatus → Bool
is_blocking_status draft = false
is_blocking_status held = true
is_blocking_status pending_payment = true
is_blocking_status paid = true
is_blocking_status confirmed = true
is_blocking_status cancelled = false
is_blocking_status expired = false

abbrev pub is_held : OrderStatus → Bool
is_held held = true
is_held _ = false

abbrev pub is_active_item : ItemStatus → Bool
is_active_item ItemStatus.active = true
is_active_item ItemStatus.cancelled = false

-- A hold with no expiry blocks nothing.
abbrev pub hold_is_live : Option ℕ → ℕ → Bool
hold_is_live none now = false
hold_is_live (some e) now = ltb now e

abbrev pub blocks : OrderStatus → Option ℕ → ℕ → Bool
blocks cancelled e now = false
blocks expired e now = false
blocks draft e now = false
blocks held e now = hold_is_live e now
blocks pending_payment e now = is_blocking_status pending_payment
blocks paid e now = is_blocking_status paid
blocks confirmed e now = is_blocking_status confirmed

unfoldable pub is_order_blocking : Order → ℕ → Bool
is_order_blocking o now = blocks o.status o.hold_expires_at now

unfoldable pub get_territory : Store → ℕ → ℕ → Option Territory
get_territory s tenant_id territory_id =
    find? (λ t. t.tenant_id == tenant_id && t.id == territory_id) s.territories

abbrev pub id_in : ℕ → List ℕ → Bool
id_in x [] = false
id_in x (y ∷ ys) = let rest = id_in x ys in if x == y then true else rest

unfoldable pub list_objects_for_territory : Store → ℕ → ℕ → List ℕ → List BookableObject
list_objects_for_territory s tenant_id territory_id object_ids =
    filter
      (λ o. o.tenant_id == tenant_id && o.territory_id == territory_id && id_in o.id object_ids)
      s.objects

unfoldable pub get_party : Store → ℕ → ℕ → Option Party
get_party s tenant_id party_id = find? (λ p. p.tenant_id == tenant_id && p.id == party_id) s.parties

-- Each item beside its order.
abbrev pub with_order : Order → List Item → List (Order × Item)
with_order o [] = []
with_order o (i ∷ is) = (o, i) ∷ with_order o is

-- `BookingItem` joined with `BookingOrder`.
abbrev pub joined : List Order → List (Order × Item)
joined [] = []
joined (o ∷ os) = with_order o o.items ++ joined os

abbrev pub is_excluded : Option ℕ → ℕ → Bool
is_excluded none id = false
is_excluded (some x) id = id == x

-- The `where` clause of `find_overlapping_items`.
abbrev pub is_candidate : ℕ → ℕ → ℕ → Option ℕ → Order × Item → Bool
is_candidate object_id check_in_at check_out_at exclude_order_id (o, i) =
    i.bookable_object_id == object_id
    && is_active_item i.status
    && is_blocking_status o.status
    && ltb i.check_in_at check_out_at
    && ltb check_in_at i.check_out_at
    && not (is_excluded exclude_order_id o.id)

unfoldable pub find_overlapping_items : Store → ℕ → ℕ → ℕ → ℕ → Option ℕ → List (Order × Item)
unfolding is_order_blocking
find_overlapping_items s object_id check_in_at check_out_at now exclude_order_id =
    filter (λ row. is_order_blocking row.0 now)
      (filter (is_candidate object_id check_in_at check_out_at exclude_order_id) (joined s.orders))

abbrev pub has_lapsed : Option ℕ → ℕ → Bool
has_lapsed none now = false
has_lapsed (some e) now = leb e now

abbrev pub in_territory : Option ℕ → ℕ → Bool
in_territory none id = true
in_territory (some t) id = id == t

abbrev pub is_stale : ℕ → ℕ → Option ℕ → Order → Bool
is_stale tenant_id now territory_id o =
    o.tenant_id == tenant_id
    && is_held o.status
    && has_lapsed o.hold_expires_at now
    && in_territory territory_id o.territory_id

unfoldable pub find_stale_held_orders : Store → ℕ → ℕ → Option ℕ → List Order
find_stale_held_orders s tenant_id now territory_id =
    filter (is_stale tenant_id now territory_id) s.orders

unfoldable pub get_order : Store → ℕ → ℕ → Option Order
get_order s tenant_id order_id = find? (λ o. o.tenant_id == tenant_id && o.id == order_id) s.orders

-- A change of a loaded row, written back by its primary key.
unfoldable pub save_order : Order → Store → Store
save_order o s = record s { orders = update_where (λ x. x.id == o.id) (λ _. o) s.orders }

unfoldable pub lock_bookable_objects : Store → List ℕ → Result BookingError (List BookableObject)
lock_bookable_objects s [] = ok []
lock_bookable_objects s (x ∷ xs) =
    let ids = x ∷ xs in
    let locked = filter (λ (o : BookableObject). id_in o.id ids) s.objects in
    if length locked == length ids then ok locked else err value_error

unfoldable pub next_order_number : Store → ℕ → ℕ → OrderNumber
next_order_number s tenant_id year =
    generated year (length (filter (λ (o : Order). o.tenant_id == tenant_id) s.orders) + 1)

abbrev pub territory_is_bookable : Territory → Bool
territory_is_bookable t = elim t.status [ TerritoryStatus.active ↦ true | _ ↦ false ]

abbrev pub object_is_bookable : BookableObject → Bool
object_is_bookable o = elim o.status [ ObjectStatus.active ↦ true | _ ↦ false ]
