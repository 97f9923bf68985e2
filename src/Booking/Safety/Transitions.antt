-- ===== src/Booking/Safety/Transitions.antt =====
-- What the transitions of backend/app/modules/booking/service/order.py do to the reservations.
use coreops_platform.Base.{
  ℕ, ◌≡◌, refl, Bool, true, false, none, List, [], ◌∷◌, map, arith, Pointwise,
}
use coreops_platform.Booking.Model.{
  OrderStatus, draft, held, pending_payment, paid, confirmed, cancelled, expired, Item, Order,
}
use coreops_platform.Booking.Repository.{is_blocking_status, is_held, with_order}
use coreops_platform.Booking.Orders.{is_allowed, cancel_item, apply_transition}
use coreops_platform.Booking.Safety.Weaker.{WeakerRow, Weaker}

-- The statuses that the services move an order to.
abbrev pub is_target : OrderStatus → Bool
is_target draft = false
is_target held = false
is_target _ = true

-- The same items under an order of a status that blocks no more.
same_items :
    (a b : Order) (is : List Item)
    → b.tenant_id ≡ a.tenant_id
    → b.territory_id ≡ a.territory_id
    → (is_blocking_status b.status ≡ true → is_blocking_status a.status ≡ true)
    → Pointwise WeakerRow (with_order a is) (with_order b is)
same_items a b [] t r s = tt
same_items a b (i ∷ is) t r s = (
  record {
    same_object = refl;
    same_in = refl;
    same_out = refl;
    same_tenant = t;
    same_territory = r;
    no_new = ground arith;
  },
  same_items a b is t r s,
)

cancelled_items :
    (a b : Order) (is : List Item)
    → b.tenant_id ≡ a.tenant_id
    → b.territory_id ≡ a.territory_id
    → is_blocking_status b.status ≡ false
    → Pointwise WeakerRow (with_order a is) (with_order b (map cancel_item is))
unfolding cancel_item
cancelled_items a b [] t r s = tt
cancelled_items a b (i ∷ is) t r s = (
  record {
    same_object = ground arith;
    same_in = ground arith;
    same_out = ground arith;
    same_tenant = t;
    same_territory = r;
    no_new = ground arith;
  },
  cancelled_items a b is t r s,
)

pub apply_transition-Weaker :
    (target : OrderStatus) (now : ℕ) (o : Order)
    → is_allowed o.status target ≡ true
    → is_target target ≡ true
    → Weaker o (apply_transition target now o)
unfolding is_allowed apply_transition
apply_transition-Weaker draft now o h t = cc
apply_transition-Weaker held now o h t = cc
apply_transition-Weaker pending_payment now o h t = record {
  same_id = refl;
  keeps_expiry = λ e k. cc;
  rows = same_items o _ o.items refl refl (λ k. ground arith);
}
apply_transition-Weaker paid now o h t = record {
  same_id = refl;
  keeps_expiry = λ e k. cc;
  rows = same_items o _ o.items refl refl (λ k. ground arith);
}
apply_transition-Weaker confirmed now o h t = record {
  same_id = refl;
  keeps_expiry = λ e k. cc;
  rows = same_items o _ o.items refl refl (λ k. ground arith);
}
apply_transition-Weaker cancelled now o h t = record {
  same_id = refl;
  keeps_expiry = λ e k. cc;
  rows = cancelled_items o _ o.items refl refl refl;
}
apply_transition-Weaker expired now o h t = record {
  same_id = refl;
  keeps_expiry = λ e k. cc;
  rows = same_items o _ o.items refl refl (λ k. cc);
}

pub clear_hold-Weaker :
    (o : Order) → is_held o.status ≡ false → Weaker o (record o { hold_expires_at = none })
clear_hold-Weaker o h = record {
  same_id = refl;
  keeps_expiry = λ e k. cc;
  rows = same_items o _ o.items refl refl (λ k. k);
}
