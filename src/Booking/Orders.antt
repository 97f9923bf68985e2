-- ===== src/Booking/Orders.antt =====
-- backend/app/modules/booking/service/order.py: the statuses of an order and the transitions between
-- them.
use coreops_platform.Base.{
  ℕ, Bool, true, false, not, none, some, map, Result, ok, ◌>>=◌, ◌>>◌, raise_if, or_raise,
  if◌then◌else◌,
}
use coreops_platform.Platform.{not_found}
use coreops_platform.Booking.Model.{
  OrderStatus, draft, held, pending_payment, paid, confirmed, cancelled, expired, ItemStatus, Item,
  Order, Store, BookingError, core, status_transition,
}
use coreops_platform.Booking.Repository.{is_active_item, get_order, save_order}

-- `target in ALLOWED_TRANSITIONS.get(current, frozenset())`
unfoldable pub is_allowed : OrderStatus → OrderStatus → Bool
is_allowed draft held = true
is_allowed held pending_payment = true
is_allowed held cancelled = true
is_allowed held expired = true
is_allowed pending_payment paid = true
is_allowed pending_payment cancelled = true
is_allowed paid confirmed = true
is_allowed _ _ = false

unfoldable pub get_order_or_404 : Store → ℕ → ℕ → Result BookingError Order
get_order_or_404 s tenant_id order_id = or_raise (get_order s tenant_id order_id) (core not_found)

unfoldable pub validate_transition : OrderStatus → OrderStatus → Result BookingError (Unit {0})
validate_transition current target =
    raise_if (not (is_allowed current target)) (status_transition current target)

unfoldable pub cancel_item : Item → Item
cancel_item i = if is_active_item i.status then record i { status = ItemStatus.cancelled } else i

unfoldable pub apply_transition : OrderStatus → ℕ → Order → Order
apply_transition cancelled now o = record o {
  cancelled_at = some now;
  items = map cancel_item o.items;
  status = cancelled;
}
apply_transition confirmed now o = record o { confirmed_at = some now; status = confirmed }
apply_transition target now o = record o { status = target }

-- The order as it is after the transition, and the tables.
unfoldable pub transition : Store → ℕ → ℕ → OrderStatus → ℕ → Result BookingError (Order × Store)
transition s tenant_id order_id target now = do
  o ← get_order_or_404 s tenant_id order_id
  validate_transition o.status target
  ok (apply_transition target now o, save_order (apply_transition target now o) s)

unfoldable pub clear_hold : Order × Store → Result BookingError (Order × Store)
clear_hold (o, s) =
    ok (record o { hold_expires_at = none }, save_order (record o { hold_expires_at = none }) s)

unfoldable pub submit_for_payment : Store → ℕ → ℕ → ℕ → Result BookingError (Order × Store)
submit_for_payment s tenant_id order_id now =
    transition s tenant_id order_id pending_payment now >>= clear_hold

unfoldable pub mark_paid : Store → ℕ → ℕ → ℕ → Result BookingError (Order × Store)
mark_paid s tenant_id order_id now = transition s tenant_id order_id paid now

unfoldable pub confirm : Store → ℕ → ℕ → ℕ → Result BookingError (Order × Store)
confirm s tenant_id order_id now = transition s tenant_id order_id confirmed now

unfoldable pub cancel : Store → ℕ → ℕ → ℕ → Result BookingError (Order × Store)
cancel s tenant_id order_id now = transition s tenant_id order_id cancelled now

unfoldable pub expire : Store → ℕ → ℕ → ℕ → Result BookingError (Order × Store)
expire s tenant_id order_id now = transition s tenant_id order_id expired now >>= clear_hold
