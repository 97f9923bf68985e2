-- ===== src/Booking/Safety/Sweep.antt =====
-- The lazy expiry of backend/app/modules/booking/service/hold.py: after it no stale hold is left, and
-- it never fails.
use coreops_platform.Base.{
  ℕ, ◌≡◌, ◌≢◌, refl, sym, subst, ◌∙◌, ap, true, false, Option, none, List, [], ◌∷◌, arith, Elem,
  Elem-filter, Elem-update_where, ◌==◌, ==_iff, ok, >>=-eq-ok, ◌⊎◌, inl, inr, Bool-cases,
}
use coreops_platform.Platform.Guard.{assert_enabled}
use coreops_platform.Booking.Model.{expired, Order, Store}
use coreops_platform.Booking.Repository.{is_held, is_stale, find_stale_held_orders, save_order}
use coreops_platform.Booking.Orders.{apply_transition, transition, clear_hold, expire}
use coreops_platform.Booking.Availability.{lift}
use coreops_platform.Booking.Hold.{expire_each, expire_stale_holds}
use coreops_platform.Booking.Safety.Defs.{IsConsistent}
use coreops_platform.Booking.Safety.Operations.{
  transition-Moved, Weakened, Weakened-trans, Weakened-IsConsistent, Weakened-refl, expire-Weakened,
}

-- A row after a write is the row written, or an old row of another identifier.
Elem-saved :
    (x b : Order) (s : Store)
    → Elem x (save_order b s).orders
    → (x ≡ b) ⊎ (Elem x s.orders × (x.id ≢ b.id))
unfolding save_order
Elem-saved x b s m = elim (Elem-update_where (λ y. y.id == b.id) (λ _. b) x s.orders m) [
  | inl (y, my, ty, e) ↦ inl e
  | inr (mx, n) ↦ inr (mx, λ e. ground (arith, (==_iff x.id b.id).1 e))
]

-- After an order has expired, a row that is held is an old one of another identifier.
expire_held :
    (s : Store) (tenant_id order_id now : ℕ) (r : Order × Store) (x : Order)
    → expire s tenant_id order_id now ≡ ok r
    → Elem x r.1.orders
    → is_held x.status ≡ true
    → Elem x s.orders × (x.id ≢ order_id)
unfolding expire clear_hold apply_transition
expire_held s tenant_id order_id now r x h mx hx =
    let (p, moved, done) = >>=-eq-ok (transition s tenant_id order_id expired now) clear_hold h in
    let m = transition-Moved s tenant_id order_id expired now p moved in
    let b = apply_transition expired now m.before in
    let b' = record b { hold_expires_at = none } in
    let e : r.1 ≡ save_order b' (save_order b s) = ground (arith, done, m.order_is, m.store_is) in
    elim (Elem-saved x b' (save_order b s) (subst (λ (t : Store). Elem x t.orders) e mx)) [
      | inl q ↦ absurd (ground (arith, ap (λ (o : Order). o.status) q))
      | inr (k, n) ↦ elim (Elem-saved x b s k) [
        | inl q ↦ absurd (ground (arith, ap (λ (o : Order). o.status) q))
        | inr (k', n') ↦ (k', λ i. n' (i ∙ sym m.id_matches))
      ]
    ]

pub expire_each-Weakened :
    (tenant_id now : ℕ) (os : List Order) (s : Store) (r : List ℕ × Store)
    → IsConsistent s
    → expire_each tenant_id now os s ≡ ok r
    → Weakened s r.1
unfolding expire_each
expire_each-Weakened tenant_id now [] s r c h =
    subst (Weakened s) (ground (arith, h)) (Weakened-refl s)
expire_each-Weakened tenant_id now (o ∷ os) s r c h =
    let (p, first, more) = >>=-eq-ok (expire s tenant_id o.id now) _ h in
    let (q, rest, done) = >>=-eq-ok (expire_each tenant_id now os p.1) _ more in
    let w = expire-Weakened s tenant_id o.id now c p first in
    let k = expire_each-Weakened tenant_id now os p.1 q (Weakened-IsConsistent s p.1 w c) rest in
    subst (Weakened s) (ground (arith, done)) (Weakened-trans s p.1 q.1 w k)

-- Every stale order of the tables is still to be expired.
abbrev Pending : (tenant_id now : ℕ) → Option ℕ → List Order → Store → Type 0
Pending tenant_id now territory_id os s =
    (x : Order)
    → Elem x s.orders
    → is_stale tenant_id now territory_id x ≡ true
    → (o : Order) × Elem o os × (x.id ≡ o.id)

expire_each-Pending :
    (tenant_id now : ℕ) (territory_id : Option ℕ) (os : List Order) (s : Store) (r : List ℕ × Store)
    → Pending tenant_id now territory_id os s
    → expire_each tenant_id now os s ≡ ok r
    → Pending tenant_id now territory_id [] r.1
unfolding expire_each
expire_each-Pending tenant_id now territory_id [] s r p h x mx st =
    let e : r.1 ≡ s = ground (arith, h) in p x (subst (λ (t : Store). Elem x t.orders) e mx) st
expire_each-Pending tenant_id now territory_id (o ∷ os) s r p h x mx st =
    let (q, first, more) = >>=-eq-ok (expire s tenant_id o.id now) _ h in
    let (u, rest, done) = >>=-eq-ok (expire_each tenant_id now os q.1) _ more in
    let e : r.1 ≡ u.1 = ground (arith, done) in
    expire_each-Pending tenant_id now territory_id os q.1 u (left q first) rest x
      (subst (λ (t : Store). Elem x t.orders) e mx) st
  where
    left :
        (q : Order × Store)
        → expire s tenant_id o.id now ≡ ok q
        → Pending tenant_id now territory_id os q.1
    left q first y my sy =
        let old = expire_held s tenant_id o.id now q y first my (ground (arith, sy)) in
        let (z, mz, i) = p y old.0 sy in
        elim mz [ inl e ↦ absurd (old.1 (i ∙ ap (λ (a : Order). a.id) e)) | inr k ↦ (z, k, i) ]

-- After the sweep of a territory no held order of it has lapsed.
pub expire_stale_holds_clean :
    (tenant_id now : ℕ) (s : Store) (territory_id : Option ℕ) (r : List ℕ × Store)
    → expire_stale_holds tenant_id s territory_id now ≡ ok r
    → (x : Order) → Elem x r.1.orders
    → is_stale tenant_id now territory_id x ≡ false
unfolding expire_stale_holds find_stale_held_orders
expire_stale_holds_clean tenant_id now s territory_id r h x mx =
    let (u, on, swept) = >>=-eq-ok (lift (assert_enabled s.platform tenant_id "booking")) _ h in
    elim (Bool-cases (is_stale tenant_id now territory_id x)) [
      | inl st ↦
          let (o, none_left, e) =
            expire_each-Pending tenant_id now territory_id _ s r
              (λ y my sy.
                (y, Elem-filter (is_stale tenant_id now territory_id) s.orders y my sy, refl))
              swept x mx st in
          absurd none_left
      | inr n ↦ n
    ]

pub expire_stale_holds-Weakened :
    (tenant_id now : ℕ) (s : Store) (territory_id : Option ℕ) (r : List ℕ × Store)
    → IsConsistent s
    → expire_stale_holds tenant_id s territory_id now ≡ ok r
    → Weakened s r.1
unfolding expire_stale_holds
expire_stale_holds-Weakened tenant_id now s territory_id r c h =
    let (u, on, swept) = >>=-eq-ok (lift (assert_enabled s.platform tenant_id "booking")) _ h in
    expire_each-Weakened tenant_id now (find_stale_held_orders s tenant_id now territory_id) s r c
      swept
