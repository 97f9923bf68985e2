-- ===== src/Booking/Lifecycle.antt =====
-- The life of an order in backend/app/modules/booking/service/order.py: it only moves forward, a
-- cancelled one gives its objects up, and a lapsed hold does not come back.
use coreops_platform.Base.{
  ℕ, zero, suc, ◌≤◌, ◌<◌, ◌≡◌, refl, sym, ap, subst, ◌∙◌, Bool, true, false, not, ◌&&◌, Option,
  none, some, List, [], ◌∷◌, map, arith, All, Elem, ok, err, >>=-eq-ok, or_raise-eq-ok,
  raise_if-eq-ok, ok_inj, find?, find?-eq-some, update_where, ◌==◌, Bool-cases, ◌⊎◌, inl, inr,
}
use coreops_platform.Booking.Model.{
  OrderStatus, draft, held, pending_payment, paid, confirmed, cancelled, expired, Item, Order,
  Store, status_transition,
}
use coreops_platform.Booking.Repository.{is_active_item, is_order_blocking, get_order, save_order}
use coreops_platform.Booking.Orders.{
  is_allowed, get_order_or_404, validate_transition, cancel_item, apply_transition, transition,
  clear_hold, submit_for_payment, cancel,
}
use coreops_platform.Booking.Safety.{IsConsistent}
use coreops_platform.Booking.Safety.Operations.{transition-Moved, transition-Elem}

-- How far an order has come.
abbrev pub stage : OrderStatus → ℕ
stage draft = 0
stage held = 1
stage pending_payment = 2
stage paid = 3
stage confirmed = 4
stage cancelled = 4
stage expired = 4

stage-lt : (a b : OrderStatus) → is_allowed a b ≡ true → stage a < stage b
unfolding is_allowed
stage-lt a b h = ground arith

stage-le : (a : OrderStatus) → stage a ≤ 4
stage-le draft = omega arith
stage-le _ = omega arith

abbrev pub status_of_row : Option Order → Option OrderStatus
status_of_row none = none
status_of_row (some o) = some o.status

-- The status of the stored order, if there is one.
abbrev pub status_at : Store → ℕ → ℕ → Option OrderStatus
status_at s tenant_id order_id = status_of_row (get_order s tenant_id order_id)

-- A history of one order with a number of calls of `transition` that returned, between which the
-- tables change in any way that leaves the status of the order.
pub data History (tenant_id order_id : ℕ) : ℕ → Store → Store → Type 0 where
  begin : {s : Store} → History tenant_id order_id zero s s
  change :
      {n : ℕ} {s t u : Store}
      → History tenant_id order_id n s t
      → status_at u tenant_id order_id ≡ status_at t tenant_id order_id
      → History tenant_id order_id n s u
  transit :
      {n : ℕ} {s t : Store} (target : OrderStatus) (now : ℕ) (r : Order × Store)
      → History tenant_id order_id n s t
      → transition t tenant_id order_id target now ≡ ok r
      → History tenant_id order_id (suc n) s r.1

find_written :
    (tenant_id order_id : ℕ) (o : Order) (rows : List Order) {before : Order}
    → o.tenant_id ≡ tenant_id
    → o.id ≡ order_id
    → find? (λ (x : Order). x.tenant_id == tenant_id && x.id == order_id) rows ≡ some before
    → find?
        (λ (x : Order). x.tenant_id == tenant_id && x.id == order_id)
        (update_where (λ (x : Order). x.id == o.id) (λ _. o) rows)
      ≡ some o
find_written tenant_id order_id o [] t i h = cc
find_written tenant_id order_id o (x ∷ rows) t i h = elim (Bool-cases (x.id == o.id)) [
  | inl y ↦
      let own : (o.tenant_id == tenant_id && o.id == order_id) ≡ true = ground arith in
      rw (y, own) refl
  | inr n ↦
      let off : (x.tenant_id == tenant_id && x.id == order_id) ≡ false = ground arith in
      rw (n, off) (find_written tenant_id order_id o rows t i (rw off at h))
]

apply_transition-status :
    (target : OrderStatus) (now : ℕ) (o : Order)
    → ((apply_transition target now o).status ≡ target)
      × ((apply_transition target now o).id ≡ o.id)
      × ((apply_transition target now o).tenant_id ≡ o.tenant_id)
unfolding apply_transition
apply_transition-status draft now o = (refl, refl, refl)
apply_transition-status held now o = (refl, refl, refl)
apply_transition-status pending_payment now o = (refl, refl, refl)
apply_transition-status paid now o = (refl, refl, refl)
apply_transition-status confirmed now o = (refl, refl, refl)
apply_transition-status cancelled now o = (refl, refl, refl)
apply_transition-status expired now o = (refl, refl, refl)

-- A transition that returned found the order in a status from which the target is allowed, and
-- leaves it in the target.
transition_moves :
    (s : Store) (tenant_id order_id now : ℕ) (target : OrderStatus) (r : Order × Store)
    → transition s tenant_id order_id target now ≡ ok r
    → (a : OrderStatus) × (status_at s tenant_id order_id ≡ some a)
      × (is_allowed a target ≡ true)
      × (status_at r.1 tenant_id order_id ≡ some target)
unfolding transition get_order_or_404 validate_transition get_order save_order
transition_moves s tenant_id order_id now target r h =
    let (o, found, h1) = >>=-eq-ok (get_order_or_404 s tenant_id order_id) _ h in
    let (u, valid, done) = >>=-eq-ok (validate_transition o.status target) _ h1 in
    let row = or_raise-eq-ok (get_order s tenant_id order_id) _ found in
    let (f, m) =
      find?-eq-some (λ (x : Order). x.tenant_id == tenant_id && x.id == order_id) s.orders o row in
    let moved = apply_transition target now o in
    let (status, same_id, same_tenant) = apply_transition-status target now o in
    let written =
      find_written tenant_id order_id moved s.orders (ground (arith, same_tenant))
        (ground (arith, same_id)) row in
    (
      o.status,
      ap status_of_row row,
      ground (arith, raise_if-eq-ok (not (is_allowed o.status target)) _ valid),
      subst (λ (q : Order × Store). status_at q.1 tenant_id order_id ≡ some target) (ok_inj done)
          (ap status_of_row written ∙ ap some status),
    )

History-stage :
    {tenant_id order_id n : ℕ} {s t : Store}
    → History tenant_id order_id n s t
    → (n ≡ 0) ⊎ ((a : OrderStatus) × (status_at t tenant_id order_id ≡ some a) × (n ≤ stage a))
History-stage begin = inl refl
History-stage (change p e) = elim (History-stage p) [
  | inl z ↦ inl z
  | inr (a, s, l) ↦ inr (a, e ∙ s, l)
]
History-stage {tenant_id} {order_id} (transit {t = t} target now r p h) =
    let (a, before, allowed, after) = transition_moves t tenant_id order_id now target r h in
    let lt = stage-lt a target allowed in
    elim (History-stage p) [
      | inl z ↦ inr (target, after, omega (arith, z, lt))
      | inr (b, s, l) ↦
          let same : some b ≡ some a = sym s ∙ before in
          let e : b ≡ a = cc in inr (target, after, omega (arith, l, ap stage e, lt))
    ]

-- No stored order goes through more than four transitions, whatever is asked of it and whatever
-- happens to the tables between them, if only the transitions change its status.
pub lifecycle_bounded :
    (tenant_id order_id n : ℕ) (s t : Store) → History tenant_id order_id n s t → n ≤ 4
lifecycle_bounded tenant_id order_id n s t p = elim (History-stage p) [
  | inl z ↦ omega (arith, z)
  | inr (a, e, l) ↦ omega (arith, l, stage-le a)
]

abbrev pub is_final : OrderStatus → Bool
is_final confirmed = true
is_final cancelled = true
is_final expired = true
is_final _ = false

final-not_allowed : (a b : OrderStatus) → is_final a ≡ true → is_allowed a b ≡ false
unfolding is_allowed
final-not_allowed a b f = ground arith

-- An order that is confirmed, cancelled or expired takes no transition: each call raises the
-- transition error, naming both statuses.
pub final_refuses :
    (s : Store) (tenant_id order_id now : ℕ) (o : Order) (target : OrderStatus)
    → get_order s tenant_id order_id ≡ some o
    → is_final o.status ≡ true
    → transition s tenant_id order_id target now ≡ err (status_transition o.status target)
unfolding transition get_order_or_404 validate_transition
final_refuses s tenant_id order_id now o target h f =
    rw h (rw (final-not_allowed o.status target f) refl)

items_cancelled :
    (is : List Item) → All (λ (i : Item). is_active_item i.status ≡ false) (map cancel_item is)
unfolding cancel_item
items_cancelled [] = tt
items_cancelled (i ∷ is) = (ground arith, items_cancelled is)

-- A cancelled order stands in the tables with every item cancelled, and blocks at no instant.
pub cancel_releases :
    (s : Store) (tenant_id order_id now : ℕ) (r : Order × Store)
    → IsConsistent s
    → cancel s tenant_id order_id now ≡ ok r
    → Elem r.0 r.1.orders
      × All (λ (i : Item). is_active_item i.status ≡ false) r.0.items
      × ((later : ℕ) → is_order_blocking r.0 later ≡ false)
unfolding cancel apply_transition is_order_blocking
cancel_releases s tenant_id order_id now r c h =
    let m = transition-Moved s tenant_id order_id cancelled now r h in
    let items : r.0.items ≡ map cancel_item m.before.items =
      ap (λ (o : Order). o.items) m.order_is in
    let status : r.0.status ≡ cancelled = ap (λ (o : Order). o.status) m.order_is in
    (
      transition-Elem s tenant_id order_id now c cancelled r refl h,
      rw items (items_cancelled m.before.items),
      λ later. rw status refl,
    )

-- An order that is submitted for payment blocks at every instant, however long ago its hold lapsed.
pub submit_blocks :
    (s : Store) (tenant_id order_id now : ℕ) (r : Order × Store)
    → submit_for_payment s tenant_id order_id now ≡ ok r
    → (r.0.hold_expires_at ≡ none) × ((later : ℕ) → is_order_blocking r.0 later ≡ true)
unfolding submit_for_payment clear_hold apply_transition is_order_blocking
submit_blocks s tenant_id order_id now r h =
    let (p, moved, done) =
      >>=-eq-ok (transition s tenant_id order_id pending_payment now) clear_hold h in
    let m = transition-Moved s tenant_id order_id pending_payment now p moved in
    let status : r.0.status ≡ pending_payment = ground (arith, done, m.order_is) in
    (ground (arith, done), λ later. rw status refl)

-- An order that does not block at an instant blocks at no later one, unless it is changed.
pub lapsed_stays_lapsed :
    (o : Order) (now later : ℕ)
    → now ≤ later
    → is_order_blocking o now ≡ false
    → is_order_blocking o later ≡ false
unfolding is_order_blocking
lapsed_stays_lapsed o now later h b = ground arith
