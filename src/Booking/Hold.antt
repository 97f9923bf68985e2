-- ===== src/Booking/Hold.antt =====
-- backend/app/modules/booking/service/hold.py: a hold is an order with an expiry, placed after the
-- stale holds of its territory have been expired.
use coreops_platform.Base.{
  ℕ, suc, ◌+◌, ◌*◌, not, Option, none, some, String, List, [], ◌∷◌, ◌++◌, Result, ok, err, ◌>>=◌,
  ◌>>◌, raise_if, or_raise, ◌==◌, ltb, str_eq, length, is_empty, if◌then◌else◌,
}
use coreops_platform.Base.Int.{ℤ, pos, ◌+ℤ◌, ◌*ℕ◌}
use coreops_platform.Base.Dict.{Dict, lookup, from_rows}
use coreops_platform.Platform.{not_found}
use coreops_platform.Platform.Guard.{assert_enabled}
use coreops_platform.Platform.Entitlements.{assert_feature}
use coreops_platform.Booking.Model.{
  OrderStatus, ItemStatus, Territory, BookableObject, Item, Order, OrderNumber, given, Store,
  StayRequest, HoldCart, StayInterval, empty_cart, territory_not_found, objects_not_found,
  BookingError, core, validation_error, key_error, ZoneRules,
}
use coreops_platform.Booking.Repository.{
  get_territory, get_party, find_stale_held_orders, lock_bookable_objects, next_order_number,
}
use coreops_platform.Booking.Orders.{expire}
use coreops_platform.Booking.Availability.{
  lift, object_ids_of, objects_by_id, assert_cart_available,
}

-- What a call takes from its surroundings: the year of today, and the identifiers that the rows it
-- writes are given.
pub record Context : Type 0 where
  pub year : ℕ
  pub order_id : ℕ
  pub item_id : ℕ → ℕ

-- `sorted({...})`
abbrev pub insert_sorted : ℕ → List ℕ → List ℕ
insert_sorted x [] = x ∷ []
insert_sorted x (y ∷ ys) =
    let rest = insert_sorted x ys in
    if x == y then y ∷ ys else if ltb x y then x ∷ y ∷ ys else y ∷ rest

unfoldable pub sorted_set : List ℕ → List ℕ
sorted_set [] = []
sorted_set (x ∷ xs) = insert_sorted x (sorted_set xs)

-- `timedelta(minutes=1)`
abbrev pub minute : ℕ
minute = 60000000

unfoldable pub expire_each : ℕ → ℕ → List Order → Store → Result BookingError (List ℕ × Store)
expire_each tenant_id now [] s = ok ([], s)
expire_each tenant_id now (o ∷ os) s = do
  expired ← expire s tenant_id o.id now
  rest ← expire_each tenant_id now os expired.1
  ok (o.id ∷ rest.0, rest.1)

unfoldable pub expire_stale_holds : ℕ → Store → Option ℕ → ℕ → Result BookingError (List ℕ × Store)
expire_stale_holds tenant_id s territory_id now = do
  lift (assert_enabled s.platform tenant_id "booking")
  expire_each tenant_id now (find_stale_held_orders s tenant_id now territory_id) s

-- `cart.order_number or self.repo.next_order_number(...)`
abbrev pub order_number_of : Option String → OrderNumber → OrderNumber
order_number_of none next = next
order_number_of (some n) next = if str_eq n "" then next else given n

unfoldable pub new_item : ℕ → ℕ → BookableObject → StayInterval → Item
new_item id tenant_id o v = record {
  id = id;
  tenant_id = tenant_id;
  bookable_object_id = o.id;
  check_in_date = v.check_in_date;
  check_out_date = v.check_out_date;
  check_in_at = v.check_in_at;
  check_out_at = v.check_out_at;
  nights = v.nights;
  unit_price = o.base_price;
  line_total = o.base_price *ℕ v.nights;
  owner_id = o.owner_id;
  status = ItemStatus.active;
}

-- The items of the order, one for each stay, and the subtotal so far.
unfoldable pub build_items :
    (ℕ → ℕ)
    → ℕ
    → ℕ
    → Dict StayInterval
    → Dict BookableObject
    → List StayRequest
    → ℤ
    → Result BookingError (List Item × ℤ)
build_items ids n tenant_id intervals objects [] subtotal = ok ([], subtotal)
build_items ids n tenant_id intervals objects (stay ∷ stays) subtotal = do
  v ← or_raise (lookup stay.bookable_object_id intervals) key_error
  o ← or_raise (lookup stay.bookable_object_id objects) key_error
  rest ←
      build_items ids (suc n) tenant_id intervals objects stays
        (subtotal +ℤ o.base_price *ℕ v.nights)
  ok (new_item (ids n) tenant_id o v ∷ rest.0, rest.1)

-- The items that the loop has added when it ends, or when a key is missing.
unfoldable pub added_items :
    (ℕ → ℕ) → ℕ → ℕ → Dict StayInterval → Dict BookableObject → List StayRequest → List Item
added_items ids n tenant_id intervals objects [] = []
added_items ids n tenant_id intervals objects (stay ∷ stays) =
    let rest = added_items ids (suc n) tenant_id intervals objects stays in
    elim (lookup stay.bookable_object_id intervals) [
      | none ↦ []
      | some v ↦ elim (lookup stay.bookable_object_id objects) [
        | none ↦ []
        | some o ↦ new_item (ids n) tenant_id o v ∷ rest
      ]
    ]

-- The order with some items and a subtotal.
abbrev pub new_order : Context → ℕ → Store → HoldCart → Territory → ℕ → List Item → ℤ → Order
new_order c tenant_id s cart t now items subtotal = record {
  id = c.order_id;
  tenant_id = tenant_id;
  territory_id = t.id;
  order_number = order_number_of cart.order_number (next_order_number s tenant_id c.year);
  guest_party_id = cart.guest_party_id;
  status = OrderStatus.held;
  hold_expires_at = some (now + t.hold_duration_minutes * minute);
  currency = t.currency;
  subtotal = subtotal;
  source = cart.source;
  confirmed_at = none;
  cancelled_at = none;
  items = items;
}

abbrev pub add_order : Order → Store → Store
add_order o s = record s { orders = s.orders ++ o ∷ [] }

-- The order or the exception, and the tables as the session has them, committed or not: the order is
-- flushed before its items are added, and its subtotal is set after the loop.
unfoldable pub persist_hold_order :
    Context
    → ℕ
    → Store
    → HoldCart
    → Territory
    → Dict BookableObject
    → List StayInterval
    → ℕ
    → Result BookingError Order × Store
unfolding build_items added_items
persist_hold_order c tenant_id s cart t objects intervals now =
    let by_object = from_rows (λ (v : StayInterval). v.bookable_object_id) [] intervals in
    let order = new_order c tenant_id s cart t now in
    elim (build_items c.item_id 0 tenant_id by_object objects cart.items (pos 0)) [
      | err e ↦ (
        err e,
        add_order (order (added_items c.item_id 0 tenant_id by_object objects cart.items) (pos 0))
            s,
      )
      | ok built ↦ (ok (order built.0 built.1), add_order (order built.0 built.1) s)
    ]

module _ (zone : ZoneRules) (tenant_id : ℕ) where
  -- `create_hold` up to the commit of the expired holds.
  unfoldable pub sweep : Store → HoldCart → ℕ → Result BookingError Store
  sweep s cart now = do
    lift (assert_enabled s.platform tenant_id "booking")
    lift (assert_feature s.platform tenant_id "booking.orders.create")
    raise_if (is_empty cart.items) (validation_error (empty_cart ∷ []))
    swept ← expire_stale_holds tenant_id s (some cart.territory_id) now
    ok swept.1

  -- What is read and checked before the order is written.
  unfoldable pub check_hold :
      Store
      → HoldCart
      → ℕ
      → Result BookingError (Territory × Dict BookableObject × List StayInterval)
  check_hold s cart now = do
    t ←
        or_raise (get_territory s tenant_id cart.territory_id)
          (validation_error (territory_not_found cart.territory_id ∷ []))
    guest ← or_raise (get_party s tenant_id cart.guest_party_id) (core not_found)
    let object_ids = sorted_set (object_ids_of cart.items)
    let objects = objects_by_id s tenant_id cart.territory_id object_ids
    raise_if (not (length objects == length object_ids)) (validation_error (objects_not_found ∷ []))
    locked ← lock_bookable_objects s object_ids
    intervals ←
        assert_cart_available zone tenant_id s
          (record { territory_id = cart.territory_id; items = cart.items }) none now
    ok (t, objects, intervals)

  -- The rest of `create_hold`, up to its commit or its rollback.
  unfoldable pub place_hold : Context → Store → HoldCart → ℕ → Result BookingError Order × Store
  unfolding check_hold persist_hold_order
  place_hold c s cart now = elim (check_hold s cart now) [
    | err e ↦ (err e, s)
    | ok (t, objects, intervals) ↦ persist_hold_order c tenant_id s cart t objects intervals now
  ]

  -- The commit of the tables of the session, or the rollback to those committed last, which are the
  -- tables as the expired holds left them.
  unfoldable pub commit_hold :
      Store → Result BookingError Order × Store → Result BookingError Order × Store
  commit_hold committed (err e, session) = (err e, committed)
  commit_hold committed (ok o, session) = (ok o, session)

  -- The order or the exception, and the tables as the call leaves them.
  unfoldable pub create_hold : Context → Store → HoldCart → ℕ → Result BookingError Order × Store
  unfolding sweep place_hold commit_hold
  create_hold c s cart now = elim (sweep s cart now) [
    | err e ↦ (err e, s)
    | ok swept ↦ commit_hold swept (place_hold c swept cart now)
  ]
