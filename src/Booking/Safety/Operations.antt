-- ===== src/Booking/Safety/Operations.antt =====
-- Each operation of backend/app/modules/booking/service/order.py keeps the tables consistent.
use coreops_platform.Base.{
  ℕ, ◌≡◌, refl, sym, subst, ◌∙◌, ap, true, false, not, ◌&&◌, none, some, List, [], ◌∷◌, arith,
  Pointwise, Pointwise-trans, Pointwise-refl, Elem, ◌==◌, find?-eq-some, ok, ◌>>=◌, >>=-eq-ok,
  raise_if-eq-ok, or_raise-eq-ok, inl, inr, ==_iff, update_where,
}
use coreops_platform.Booking.Model.{
  OrderStatus, pending_payment, paid, confirmed, cancelled, expired, Order, Store,
}
use coreops_platform.Booking.Repository.{is_held, get_order, save_order}
use coreops_platform.Booking.Orders.{
  is_allowed, get_order_or_404, validate_transition, apply_transition, transition, clear_hold,
  submit_for_payment, mark_paid, confirm, cancel, expire,
}
use coreops_platform.Booking.Safety.Defs.{IsConsistent}
use coreops_platform.Booking.Safety.Weaker.{
  Weaker, Weaker-refl, Weaker-trans, Weaker-IsConsistent, save_order-Weaker,
}
use coreops_platform.Booking.Safety.Transitions.{
  is_target, apply_transition-Weaker, clear_hold-Weaker,
}

-- The tables after an operation that takes no new reservation.
pub record Weakened (s t : Store) : Type 0 where
  pub objects_kept : t.objects ≡ s.objects
  pub orders_weaker : Pointwise Weaker s.orders t.orders

pub Weakened-IsConsistent : (s t : Store) → Weakened s t → IsConsistent s → IsConsistent t
Weakened-IsConsistent s t w = Weaker-IsConsistent s t w.objects_kept w.orders_weaker

pub Weakened-refl : (s : Store) → Weakened s s
Weakened-refl s = record {
  objects_kept = refl;
  orders_weaker = Pointwise-refl Weaker Weaker-refl s.orders;
}

pub Weakened-trans : (s t u : Store) → Weakened s t → Weakened t u → Weakened s u
Weakened-trans s t u h k = record {
  objects_kept = k.objects_kept ∙ h.objects_kept;
  orders_weaker =
      Pointwise-trans Weaker Weaker-trans s.orders t.orders u.orders h.orders_weaker
        k.orders_weaker;
}

pub save_order-Weakened :
    (a b : Order) (s : Store)
    → IsConsistent s
    → Elem a s.orders
    → Weaker a b
    → Weakened s (save_order b s)
unfolding save_order
save_order-Weakened a b s c m w = record {
  objects_kept = refl;
  orders_weaker = save_order-Weaker a b s c.unique_ids m w;
}

-- The row written back stands in the table.
Elem-update_row :
    (a b : Order) (xs : List Order)
    → Elem a xs
    → b.id ≡ a.id
    → Elem b (update_where (λ x. x.id == b.id) (λ _. b) xs)
Elem-update_row a b [] m e = absurd m
Elem-update_row a b (x ∷ xs) (inl p) e =
    let q : x.id ≡ b.id = ap (λ (o : Order). o.id) (sym p) ∙ sym e in
    rw ((==_iff x.id b.id).1 q) (inl refl)
Elem-update_row a b (x ∷ xs) (inr m) e = inr (Elem-update_row a b xs m e)

pub Elem-save_order :
    (a b : Order) (s : Store) → Elem a s.orders → b.id ≡ a.id → Elem b (save_order b s).orders
unfolding save_order
Elem-save_order a b s m e = Elem-update_row a b s.orders m e

-- What a successful transition found and did.
pub record Moved (s : Store) (tenant_id order_id : ℕ) (target : OrderStatus) (now : ℕ)
    (result : Order × Store) : Type 0 where
  pub before : Order
  pub in_table : Elem before s.orders
  pub tenant_matches : before.tenant_id ≡ tenant_id
  pub id_matches : before.id ≡ order_id
  pub allowed : is_allowed before.status target ≡ true
  pub order_is : result.0 ≡ apply_transition target now before
  pub store_is : result.1 ≡ save_order (apply_transition target now before) s

get_order-eq-some :
    (s : Store) (tenant_id order_id : ℕ) (o : Order)
    → get_order s tenant_id order_id ≡ some o
    → Elem o s.orders × (o.tenant_id ≡ tenant_id) × (o.id ≡ order_id)
unfolding get_order
get_order-eq-some s tenant_id order_id o h =
    let f =
      find?-eq-some (λ (x : Order). x.tenant_id == tenant_id && x.id == order_id) s.orders o h in
    (f.1, ground (arith, f.0), ground (arith, f.0))

pub transition-Moved :
    (s : Store) (tenant_id order_id : ℕ) (target : OrderStatus) (now : ℕ) (r : Order × Store)
    → transition s tenant_id order_id target now ≡ ok r
    → Moved s tenant_id order_id target now r
unfolding transition get_order_or_404 validate_transition
transition-Moved s tenant_id order_id target now r h =
    let (o, found, rest) = >>=-eq-ok (get_order_or_404 s tenant_id order_id) _ h in
    let (u, valid, done) = >>=-eq-ok (validate_transition o.status target) _ rest in
    let row = get_order-eq-some s tenant_id order_id o (or_raise-eq-ok _ _ found) in
    record {
      before = o;
      in_table = row.0;
      tenant_matches = row.1;
      id_matches = row.2;
      allowed = ground (arith, raise_if-eq-ok (not (is_allowed o.status target)) _ valid);
      order_is = ground (arith, done);
      store_is = ground (arith, done);
    }

module _ (s : Store) (tenant_id order_id now : ℕ) (c : IsConsistent s) where
  Moved-Weakened :
      (target : OrderStatus) (r : Order × Store)
      → is_target target ≡ true
      → Moved s tenant_id order_id target now r
      → Weakened s r.1
  Moved-Weakened target r t m = rw m.store_is (
      save_order-Weakened m.before (apply_transition target now m.before) s c m.in_table
        (apply_transition-Weaker target now m.before m.allowed t))

  pub transition-Weakened :
      (target : OrderStatus) (r : Order × Store)
      → is_target target ≡ true
      → transition s tenant_id order_id target now ≡ ok r
      → Weakened s r.1
  transition-Weakened target r t h =
      Moved-Weakened target r t (transition-Moved s tenant_id order_id target now r h)

  -- The order that a transition returns stands in the tables, in the target status.
  pub transition-Elem :
      (target : OrderStatus) (r : Order × Store)
      → is_target target ≡ true
      → transition s tenant_id order_id target now ≡ ok r
      → Elem r.0 r.1.orders
  transition-Elem target r t h =
      let m = transition-Moved s tenant_id order_id target now r h in
      let w = apply_transition-Weaker target now m.before m.allowed t in
      rw (m.store_is, m.order_is)
        (Elem-save_order m.before (apply_transition target now m.before) s m.in_table w.same_id)

  -- Clearing the expiry afterwards takes nothing either.
  pub cleared-Weakened :
      (target : OrderStatus) (r : Order × Store)
      → is_target target ≡ true
      → ((o : Order) → (apply_transition target now o).status ≡ target)
      → (transition s tenant_id order_id target now >>= clear_hold) ≡ ok r
      → Weakened s r.1
  unfolding clear_hold
  cleared-Weakened target r t st h =
      let (p, moved, done) = >>=-eq-ok (transition s tenant_id order_id target now) clear_hold h in
      let m = transition-Moved s tenant_id order_id target now p moved in
      let w = transition-Weakened target p t moved in
      let status : p.0.status ≡ target = ap (λ (o : Order). o.status) m.order_is ∙ st m.before in
      let not_held : is_held p.0.status ≡ false = rw status (ground arith) in
      let last : save_order (record (p.0) { hold_expires_at = none }) p.1 ≡ r.1 =
        ground (arith, done) in
      subst (Weakened s) last (
        Weakened-trans s p.1 (save_order (record (p.0) { hold_expires_at = none }) p.1) w (
          save_order-Weakened p.0 (record (p.0) { hold_expires_at = none }) p.1
            (Weakened-IsConsistent s p.1 w c) (transition-Elem target p t moved)
            (clear_hold-Weaker p.0 not_held)))

  pub submit_for_payment-Weakened :
      (r : Order × Store) → submit_for_payment s tenant_id order_id now ≡ ok r → Weakened s r.1
  unfolding submit_for_payment apply_transition
  submit_for_payment-Weakened r h = cleared-Weakened pending_payment r refl (λ o. refl) h

  pub expire-Weakened :
      (r : Order × Store) → expire s tenant_id order_id now ≡ ok r → Weakened s r.1
  unfolding expire apply_transition
  expire-Weakened r h = cleared-Weakened expired r refl (λ o. refl) h

  pub mark_paid-Weakened :
      (r : Order × Store) → mark_paid s tenant_id order_id now ≡ ok r → Weakened s r.1
  unfolding mark_paid
  mark_paid-Weakened r h = transition-Weakened paid r refl h

  pub confirm-Weakened :
      (r : Order × Store) → confirm s tenant_id order_id now ≡ ok r → Weakened s r.1
  unfolding confirm
  confirm-Weakened r h = transition-Weakened confirmed r refl h

  pub cancel-Weakened :
      (r : Order × Store) → cancel s tenant_id order_id now ≡ ok r → Weakened s r.1
  unfolding cancel
  cancel-Weakened r h = transition-Weakened cancelled r refl h
