-- ===== src/Booking/Scenario.antt =====
-- A tenant with one territory of two cabins, and the first hold on them: the data of the tests of
-- backend/app/modules/booking.
use coreops_platform.Base.{
  ℕ, ◌+◌, ◌*◌, ◌≡◌, refl, ap, subst, true, none, some, List, [], ◌∷◌, arith, Pairwise, Result, ok,
}
use coreops_platform.Base.Int.{pos, ◌+ℤ◌, ◌*ℕ◌}
use coreops_platform.Platform.{Platform, enabled, internal}
use coreops_platform.Platform.{SubscriptionStatus}
use coreops_platform.Platform.Guard.{assert_enabled}
use coreops_platform.Platform.Entitlements.{assert_feature}
use coreops_platform.Booking.Model.{
  TerritoryStatus, ObjectStatus, PricingUnit, held, OrderSource, ItemStatus, Territory,
  BookableObject, Item, Order, Store, StayRequest, HoldCart, BookingError, ZoneRules, generated,
}
use coreops_platform.Booking.Timezone.{build_item_interval}
use coreops_platform.Booking.Repository.{
  is_order_blocking, get_territory, get_party, list_objects_for_territory, find_overlapping_items,
  find_stale_held_orders, get_order, save_order, lock_bookable_objects, next_order_number,
}
use coreops_platform.Booking.Orders.{
  is_allowed, get_order_or_404, validate_transition, cancel_item, apply_transition, transition,
  clear_hold, submit_for_payment, cancel, expire,
}
use coreops_platform.Booking.Availability.{
  objects_by_id, add_interval, check_interval, check_stay_request, check_stays, check_cart,
  intervals_or_raise, assert_cart_available,
}
use coreops_platform.Booking.Hold.{
  Context, minute, sorted_set, expire_each, expire_stale_holds, new_item, build_items, added_items,
  persist_hold_order, check_hold, sweep, place_hold, commit_hold, create_hold,
}
use coreops_platform.Booking.Safety.{IsConsistent}
use coreops_platform.Booking.Safety.PlaceHold.{DistinctStays}
use coreops_platform.Booking.Safety.CreateHold.{create_hold-IsConsistent}

-- All that a run of `create_hold` computes through.
unfoldable pub run_steps : Unit {0}
unfolding assert_enabled assert_feature ◌+ℤ◌ ◌*ℕ◌ build_item_interval is_order_blocking
    get_territory get_party list_objects_for_territory find_overlapping_items find_stale_held_orders
    get_order save_order lock_bookable_objects next_order_number is_allowed get_order_or_404
    validate_transition cancel_item apply_transition transition clear_hold submit_for_payment cancel
    expire objects_by_id add_interval check_interval check_stay_request check_stays check_cart
    intervals_or_raise assert_cart_available sorted_set expire_each expire_stale_holds new_item
    build_items added_items persist_hold_order check_hold sweep place_hold commit_hold create_hold
run_steps = tt

-- A zone in which a day has 1000 ticks.
abbrev pub plain_zone : ZoneRules
plain_zone = record {
  is_known = λ name. true;
  instant = λ name day clock. some (day * 1000 + clock);
}

abbrev pub platform : Platform
platform = record {
  definitions = [];
  modules =
      record {
        tenant_id = 1;
        module_code = "booking";
        status = enabled;
        mode = internal;
        external_provider_code = none;
      }
      ∷ [];
  subscriptions = record { tenant_id = 1; plan_id = 5; status = SubscriptionStatus.active } ∷ [];
  features = record { id = 8; code = "booking.orders.create"; module_code = some "booking" } ∷ [];
  plan_features = record { plan_id = 5; feature_id = 8 } ∷ [];
  usage_limits = [];
  usage_events = [];
}

abbrev pub lake : Territory
lake = record {
  id = 10;
  tenant_id = 1;
  timezone = "UTC";
  currency = "KZT";
  default_check_in_time = 14;
  default_check_out_time = 12;
  hold_duration_minutes = 30;
  min_stay_nights = 1;
  status = TerritoryStatus.active;
}

abbrev pub cabin : ℕ → BookableObject
cabin n = record {
  id = n;
  tenant_id = 1;
  territory_id = 10;
  owner_id = 3;
  code = "cabin";
  base_price = pos 500;
  pricing_unit = PricingUnit.per_night;
  check_in_time = none;
  check_out_time = none;
  status = ObjectStatus.active;
}

abbrev pub empty_store : Store
empty_store = record {
  platform = platform;
  parties = record { id = 77; tenant_id = 1 } ∷ [];
  territories = lake ∷ [];
  objects = cabin 20 ∷ cabin 21 ∷ [];
  orders = [];
}

abbrev pub request : ℕ → ℕ → ℕ → StayRequest
request object_id check_in check_out = record {
  bookable_object_id = object_id;
  check_in_date = check_in;
  check_out_date = check_out;
}

abbrev pub cart_of : List StayRequest → HoldCart
cart_of items = record {
  territory_id = 10;
  guest_party_id = 77;
  source = OrderSource.admin;
  items = items;
  order_number = none;
}

abbrev pub context : ℕ → Context
context id = record { year = 2026; order_id = id; item_id = λ n. n }

abbrev pub two_cabins : HoldCart
two_cabins = cart_of (request 20 5 7 ∷ request 21 5 6 ∷ [])

abbrev pub first_call : Result BookingError Order × Store
first_call = create_hold plain_zone 1 (context 100) empty_store two_cabins 9

-- The store with the first order, as a value.
abbrev pub item : ℕ → ℕ → ℕ → ℕ → ItemStatus → Item
item id object_id nights total status = record {
  id = id;
  tenant_id = 1;
  bookable_object_id = object_id;
  check_in_date = 5;
  check_out_date = 5 + nights;
  check_in_at = 5014;
  check_out_at = (5 + nights) * 1000 + 12;
  nights = nights;
  unit_price = pos 500;
  line_total = pos total;
  owner_id = 3;
  status = status;
}

abbrev pub first_order : Order
first_order = record {
  id = 100;
  tenant_id = 1;
  territory_id = 10;
  order_number = generated 2026 1;
  guest_party_id = 77;
  status = held;
  hold_expires_at = some (9 + 30 * minute);
  currency = "KZT";
  subtotal = pos 1500;
  source = OrderSource.admin;
  confirmed_at = none;
  cancelled_at = none;
  items = item 0 20 2 1000 ItemStatus.active ∷ item 1 21 1 500 ItemStatus.active ∷ [];
}

abbrev pub one_order : Store
one_order = record empty_store { orders = first_order ∷ [] }

pub first_call_lem : first_call ≡ (ok first_order, one_order)
unfolding run_steps
first_call_lem = refl

pub empty_store-IsConsistent : IsConsistent empty_store
empty_store-IsConsistent = record {
  no_double = tt;
  hold_expires = tt;
  placed = tt;
  unique_ids = tt;
  unique_objects = ((omega arith, tt), (tt, tt));
}

pub two_cabins_distinct : Pairwise DistinctStays two_cabins.items
two_cabins_distinct = ((omega arith, tt), (tt, tt))

pub one_order-IsConsistent : IsConsistent one_order
one_order-IsConsistent =
    subst IsConsistent (ap (λ (p : Result BookingError Order × Store). p.1) first_call_lem) (
      create_hold-IsConsistent plain_zone (context 100) 1 empty_store two_cabins 9
        empty_store-IsConsistent tt two_cabins_distinct)
