-- ===== src/Booking/Tests.antt =====
-- Runs of the booking services, and the theorems at those runs.
use coreops_platform.Base.{
  map, ℕ, ◌+◌, ◌*◌, ◌≤◌, ◌<◌, ◌≡◌, ◌↔◌, refl, ap, true, false, none, some, List, [], ◌∷◌, arith,
  All, Pairwise, Elem, Result, ok, err, inl, length, filter,
}
use coreops_platform.Platform.Guard.{assert_enabled}
use coreops_platform.Booking.Model.{
  OrderStatus, held, pending_payment, paid, cancelled, expired, ItemStatus, Item, Order, Store,
  Conflict, AvailabilityCart, HoldCart, StayInterval, BookingError, status_transition, key_error,
}
use coreops_platform.Booking.Timezone.{intervals_overlap, build_item_interval}
use coreops_platform.Booking.Repository.{
  is_order_blocking, find_stale_held_orders, is_active_item, is_stale, joined,
}
use coreops_platform.Booking.Orders.{transition, submit_for_payment, cancel}
use coreops_platform.Booking.Availability.{assert_cart_available}
use coreops_platform.Booking.Hold.{
  minute, expire_stale_holds, persist_hold_order, commit_hold, create_hold,
}
use coreops_platform.Booking.Intervals.{
  intervals_overlap_iff, IsIntervalOf, build_item_interval_sound,
}
use coreops_platform.Booking.CartCheck.{
  IsAvailable, assert_cart_available_sound, assert_cart_available_complete,
}
use coreops_platform.Booking.Lifecycle.{
  begin, transit, lifecycle_bounded, final_refuses, cancel_releases, submit_blocks,
  lapsed_stays_lapsed,
}
use coreops_platform.Booking.Safety.{IsConsistent}
use coreops_platform.Booking.Safety.Sweep.{expire_stale_holds_clean}
use coreops_platform.Booking.Safety.SweepTotal.{ids_of, expire_stale_holds_total}
use coreops_platform.Booking.Safety.PlaceHold.{DistinctStays}
use coreops_platform.Booking.Safety.CreateHold.{IsHoldFor, create_hold-IsConsistent}
use coreops_platform.Booking.Safety.Reach.{Reach, here, next, hold, occupies, Reach-at_most_one}
use coreops_platform.Booking.Safety.DoubleStay.{create_hold_double_books, create_hold_returns}
use coreops_platform.Booking.Scenario.{
  run_steps, plain_zone, lake, cabin, empty_store, request, cart_of, context, two_cabins,
  first_call, item, first_order, one_order, first_call_lem, empty_store-IsConsistent,
  two_cabins_distinct, one_order-IsConsistent,
}

create_hold-IsConsistent_example : IsConsistent first_call.1
create_hold-IsConsistent_example =
    create_hold-IsConsistent plain_zone (context 100) 1 empty_store two_cabins 9
      empty_store-IsConsistent tt two_cabins_distinct

one_order_reached : Reach plain_zone empty_store first_call.1
one_order_reached = next here (hold (context 100) 1 9 two_cabins tt two_cabins_distinct)

Reach-at_most_one_example : length (filter (occupies 20 6000) (joined first_call.1.orders)) ≤ 1
Reach-at_most_one_example =
    Reach-at_most_one plain_zone empty_store first_call.1 empty_store-IsConsistent one_order_reached
      20 6000

create_hold_returns_example :
    (ids : List ℕ) × (t : Store) × (expire_stale_holds 1 empty_store (some 10) 9 ≡ ok (ids, t))
    × IsHoldFor plain_zone (context 100) 1 t two_cabins 9 (first_order, first_call.1)
create_hold_returns_example =
    create_hold_returns plain_zone (context 100) 1 empty_store two_cabins 9 first_order
      (ap (λ (p : Result BookingError Order × Store). p.0) first_call_lem)

create_hold_double_books_example : Pairwise DistinctStays two_cabins.items
create_hold_double_books_example =
    create_hold_double_books plain_zone (context 100) 1 empty_store two_cabins 9 first_order
      (ap (λ (p : Result BookingError Order × Store). p.0) first_call_lem)
      (create_hold-IsConsistent plain_zone (context 100) 1 empty_store two_cabins 9
        empty_store-IsConsistent tt two_cabins_distinct).no_double

-- The days of the two stays of the cabin are apart, and both are booked for the later ones.
abbrev cabin_twice : HoldCart
cabin_twice = cart_of (request 20 5 6 ∷ request 20 8 9 ∷ [])

abbrev stays_of : Result BookingError Order → List (ℕ × ℕ)
stays_of (err e) = []
stays_of (ok o) = dates o.items
  where
    dates : List Item → List (ℕ × ℕ)
    dates [] = []
    dates (i ∷ is) = (i.check_in_date, i.check_out_date) ∷ dates is

cabin_twice_lem :
    stays_of (create_hold plain_zone 1 (context 100) empty_store cabin_twice 9).0
    ≡ (8, 9) ∷ (8, 9) ∷ []
unfolding run_steps
cabin_twice_lem = refl

-- The cabin is taken until noon of day 7.
abbrev taken : HoldCart
taken = cart_of (request 20 6 8 ∷ [])

abbrev the_conflict : Conflict
the_conflict = record {
  bookable_object_id = 20;
  requested_check_in_at = 6014;
  requested_check_out_at = 8012;
  conflicting_item_id = 0;
  conflicting_order_id = 100;
  conflicting_order_status = held;
}

-- The session has the order flushed when a key of the cart is missing; the commit drops it.
flushed_lem :
    map
      (λ (o : Order). o.id)
      (persist_hold_order (context 101) 1 one_order taken lake [] [] 9).1.orders
    ≡ 100 ∷ 101 ∷ []
unfolding run_steps
flushed_lem = refl

dropped_lem :
    commit_hold plain_zone 1 one_order
      (persist_hold_order (context 101) 1 one_order taken lake [] [] 9)
    ≡ (err key_error, one_order)
unfolding run_steps
dropped_lem = refl

abbrev later : ℕ
later = 10 + 30 * minute

expire_stale_holds_total_example :
    (t : Store) × (expire_stale_holds 1 one_order (some 10) later
      ≡ ok (ids_of 1 later (find_stale_held_orders one_order 1 later (some 10)), t))
unfolding assert_enabled
expire_stale_holds_total_example =
    expire_stale_holds_total 1 later one_order (some 10) one_order-IsConsistent refl

abbrev swept_order : Order
swept_order = record first_order { status = expired; hold_expires_at = none }

sweep_lem :
    expire_stale_holds 1 one_order (some 10) later
    ≡ ok (100 ∷ [], record one_order { orders = swept_order ∷ [] })
unfolding run_steps
sweep_lem = refl

expire_stale_holds_clean_example : is_stale 1 later (some 10) swept_order ≡ false
expire_stale_holds_clean_example =
    expire_stale_holds_clean 1 later one_order (some 10)
      (100 ∷ [], record one_order { orders = swept_order ∷ [] }) sweep_lem swept_order (inl refl)

abbrev free_cart : AvailabilityCart
free_cart = record { territory_id = 10; items = request 20 7 9 ∷ [] }

abbrev free_stay : StayInterval
free_stay = record {
  bookable_object_id = 20;
  check_in_date = 7;
  check_out_date = 9;
  check_in_at = 7014;
  check_out_at = 9012;
  nights = 2;
}

free_lem : assert_cart_available plain_zone 1 one_order free_cart none 9 ≡ ok (free_stay ∷ [])
unfolding run_steps
free_lem = refl

assert_cart_available_sound_example :
    IsAvailable plain_zone 1 one_order free_cart none 9 (free_stay ∷ [])
assert_cart_available_sound_example =
    assert_cart_available_sound plain_zone 1 one_order free_cart none 9 (free_stay ∷ []) free_lem

assert_cart_available_complete_example :
    assert_cart_available plain_zone 1 one_order free_cart none 9 ≡ ok (free_stay ∷ [])
unfolding assert_enabled
assert_cart_available_complete_example =
    assert_cart_available_complete plain_zone 1 one_order free_cart none 9 (free_stay ∷ []) refl
      assert_cart_available_sound_example

build_lem : build_item_interval plain_zone lake (cabin 20) 7 9 ≡ ok free_stay
unfolding run_steps
build_lem = refl

build_item_interval_sound_example : IsIntervalOf plain_zone lake (cabin 20) 7 9 free_stay
build_item_interval_sound_example =
    build_item_interval_sound plain_zone lake (cabin 20) 7 9 free_stay build_lem

intervals_overlap_iff_example :
    (intervals_overlap 3 8 5 9 ≡ true) ↔ ((x : ℕ) × (3 ≤ x) × (x < 8) × (5 ≤ x) × (x < 9))
intervals_overlap_iff_example = intervals_overlap_iff 3 8 5 9 (omega arith) (omega arith)

abbrev with_status : OrderStatus → Order × Store
with_status status = (
  record first_order { status = status },
  record one_order { orders = record first_order { status = status } ∷ [] },
)

submitted_lem : transition one_order 1 100 pending_payment 9 ≡ ok (with_status pending_payment)
unfolding run_steps
submitted_lem = refl

paid_lem : transition (with_status pending_payment).1 1 100 paid 9 ≡ ok (with_status paid)
unfolding run_steps
paid_lem = refl

lifecycle_bounded_example : 2 ≤ 4
lifecycle_bounded_example = lifecycle_bounded 1 100 2 one_order (with_status paid).1 (
    transit paid 9 (with_status paid)
      (transit pending_payment 9 (with_status pending_payment) begin submitted_lem) paid_lem)

-- `transition` holds a draft order without looking at its objects: two orders occupy one object.
abbrev with_draft : Store
with_draft = record one_order {
  orders = first_order ∷ record first_order { id = 101; status = OrderStatus.draft } ∷ [];
}

held_draft_lem :
    transition with_draft 1 101 held 9
    ≡ ok (
      record first_order { id = 101 },
      record one_order { orders = first_order ∷ record first_order { id = 101 } ∷ [] },
    )
unfolding run_steps
held_draft_lem = refl

occupied_lem :
    (length (filter (occupies 20 6000) (joined with_draft.orders)) ≡ 1)
    × (length
          (filter (occupies 20 6000) (joined (first_order ∷ record first_order { id = 101 } ∷ [])))
        ≡ 2)
unfolding run_steps
occupied_lem = (refl, refl)

final_refuses_example :
    transition (record one_order { orders = swept_order ∷ [] }) 1 100 paid 9
    ≡ err (status_transition expired paid)
unfolding run_steps
final_refuses_example =
    final_refuses (record one_order { orders = swept_order ∷ [] }) 1 100 9 swept_order paid refl
      refl

abbrev cancelled_order : Order
cancelled_order = record first_order {
  status = cancelled;
  cancelled_at = some 15;
  items = item 0 20 2 1000 ItemStatus.cancelled ∷ item 1 21 1 500 ItemStatus.cancelled ∷ [];
}

cancel_lem :
    cancel one_order 1 100 15
    ≡ ok (cancelled_order, record one_order { orders = cancelled_order ∷ [] })
unfolding run_steps
cancel_lem = refl

cancel_releases_example :
    Elem cancelled_order (cancelled_order ∷ [])
    × All (λ (i : Item). is_active_item i.status ≡ false) cancelled_order.items
    × ((at : ℕ) → is_order_blocking cancelled_order at ≡ false)
cancel_releases_example =
    cancel_releases one_order 1 100 15
      (cancelled_order, record one_order { orders = cancelled_order ∷ [] }) one_order-IsConsistent
      cancel_lem

abbrev submitted_order : Order
submitted_order = record first_order { status = pending_payment; hold_expires_at = none }

submit_lem :
    submit_for_payment one_order 1 100 later
    ≡ ok (submitted_order, record one_order { orders = submitted_order ∷ [] })
unfolding run_steps
submit_lem = refl

submit_blocks_example :
    (submitted_order.hold_expires_at ≡ none)
    × ((at : ℕ) → is_order_blocking submitted_order at ≡ true)
submit_blocks_example =
    submit_blocks one_order 1 100 later
      (submitted_order, record one_order { orders = submitted_order ∷ [] }) submit_lem

lapsed_stays_lapsed_example : is_order_blocking first_order (later + 5) ≡ false
unfolding is_order_blocking
lapsed_stays_lapsed_example = lapsed_stays_lapsed first_order later (later + 5) (omega arith) refl
