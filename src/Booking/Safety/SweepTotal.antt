-- ===== src/Booking/Safety/SweepTotal.antt =====
-- The lazy expiry of backend/app/modules/booking/service/hold.py never fails on consistent tables.
use coreops_platform.Base.{
  ℕ, ◌≡◌, ◌≢◌, refl, sym, subst, true, false, ◌&&◌, Option, none, some, List, [], ◌∷◌, arith, All,
  Pairwise, Elem, All-Elem, All-of_Elem, All-filter, Pairwise-filter, filter, find?, ◌==◌, ok, inl,
  inr, update_where,
}
use coreops_platform.Platform.Guard.{assert_enabled}
use coreops_platform.Booking.Model.{expired, held, Order, Store}
use coreops_platform.Booking.Repository.{
  is_held, is_stale, find_stale_held_orders, get_order, save_order,
}
use coreops_platform.Booking.Orders.{
  is_allowed, get_order_or_404, validate_transition, apply_transition, transition, clear_hold,
  expire,
}
use coreops_platform.Booking.Hold.{expire_each, expire_stale_holds}
use coreops_platform.Booking.Safety.Defs.{DistinctIds, IsConsistent}
use coreops_platform.Booking.Safety.Operations.{Weakened-IsConsistent, expire-Weakened}

-- With unique identifiers each row is found by its identifier.
find-row :
    (tenant_id : ℕ) (o : Order) (xs : List Order)
    → Pairwise DistinctIds xs
    → Elem o xs
    → o.tenant_id ≡ tenant_id
    → find? (λ x. x.tenant_id == tenant_id && x.id == o.id) xs ≡ some o
find-row tenant_id o [] u m t = absurd m
find-row tenant_id o (x ∷ xs) u (inl e) t =
    subst (λ y. find? (λ z. z.tenant_id == tenant_id && z.id == o.id) (y ∷ xs) ≡ some o) e
      (ground arith)
find-row tenant_id o (x ∷ xs) u (inr m) t =
    let d : x.id ≢ o.id = All-Elem (DistinctIds x) o xs u.0 m in
    ground (arith, find-row tenant_id o xs u.1 m t)

-- A write leaves the rows of other identifiers where they are.
Elem-kept :
    (x b : Order) (xs : List Order)
    → Elem x xs
    → x.id ≢ b.id
    → Elem x (update_where (λ y. y.id == b.id) (λ _. b) xs)
Elem-kept x b [] m n = absurd m
Elem-kept x b (y ∷ ys) (inl e) n =
    let k : (y.id == b.id) ≡ false =
      subst (λ (z : Order). (z.id == b.id) ≡ false) e (ground arith) in
    rw k (inl e)
Elem-kept x b (y ∷ ys) (inr m) n = inr (Elem-kept x b ys m n)

module _ (tenant_id now : ℕ) where
  -- The order and the tables that the expiry of a held order returns.
  abbrev lapsed : Order → Order
  lapsed o = record o { status = expired; hold_expires_at = none }

  abbrev expired_store : Order → Store → Store
  expired_store o s = save_order (lapsed o) (save_order (record o { status = expired }) s)

  expire_row :
      (o : Order) (s : Store)
      → IsConsistent s
      → Elem o s.orders
      → o.tenant_id ≡ tenant_id
      → is_held o.status ≡ true
      → expire s tenant_id o.id now ≡ ok (lapsed o, expired_store o s)
  unfolding expire transition get_order_or_404 get_order validate_transition is_allowed
      apply_transition clear_hold
  expire_row o s c m t h =
      let status : o.status ≡ held = ground arith in
      rw (find-row tenant_id o s.orders c.unique_ids m t) (rw status refl)

  abbrev IsReady : Store → Order → Type 0
  IsReady s o = Elem o s.orders × (o.tenant_id ≡ tenant_id) × (is_held o.status ≡ true)

  IsReady-kept :
      (o x : Order) (s : Store) → o.id ≢ x.id → IsReady s x → IsReady (expired_store o s) x
  unfolding save_order
  IsReady-kept o x s n (m, t, h) = (
    Elem-kept x (lapsed o)
        (update_where (λ y. y.id == o.id) (λ _. record o { status = expired }) s.orders)
        (Elem-kept x (record o { status = expired }) s.orders m (λ e. n (sym e))) (λ e. n (sym e)),
    t,
    h,
  )

  All-IsReady :
      (o : Order) (s : Store) (os : List Order)
      → All (DistinctIds o) os
      → All (IsReady s) os
      → All (IsReady (expired_store o s)) os
  All-IsReady o s [] d r = tt
  All-IsReady o s (x ∷ xs) d r = (IsReady-kept o x s d.0 r.0, All-IsReady o s xs d.1 r.1)

  abbrev pub ids_of : List Order → List ℕ
  ids_of [] = []
  ids_of (o ∷ os) = o.id ∷ ids_of os

  expire_each_total :
      (os : List Order) (s : Store)
      → IsConsistent s
      → Pairwise DistinctIds os
      → All (IsReady s) os
      → (t : Store) × (expire_each tenant_id now os s ≡ ok (ids_of os, t))
  unfolding expire_each
  expire_each_total [] s c d r = (s, refl)
  expire_each_total (o ∷ os) s c d r =
      let (m, t, h) = r.0 in
      let e = expire_row o s c m t h in
      let w = expire-Weakened s tenant_id o.id now c (lapsed o, expired_store o s) e in
      let (u, k) =
        expire_each_total os (expired_store o s) (Weakened-IsConsistent s (expired_store o s) w c)
          d.1 (All-IsReady o s os d.0 r.1) in
      (u, rw e (rw k refl))

  -- With the module enabled the sweep expires every stale hold of the territory, and returns their
  -- identifiers.
  pub expire_stale_holds_total :
      (s : Store) (territory_id : Option ℕ)
      → IsConsistent s
      → assert_enabled s.platform tenant_id "booking" ≡ ok tt
      → (t : Store) × (expire_stale_holds tenant_id s territory_id now
          ≡ ok (ids_of (find_stale_held_orders s tenant_id now territory_id), t))
  unfolding expire_stale_holds find_stale_held_orders
  expire_stale_holds_total s territory_id c on =
      let ready = All-filter (is_stale tenant_id now territory_id) (IsReady s) s.orders (
        All-of_Elem (λ o. is_stale tenant_id now territory_id o ≡ true → IsReady s o) s.orders
          (λ o m st. (m, ground (arith, st), ground (arith, st)))) in
      let (t, e) =
        expire_each_total (filter (is_stale tenant_id now territory_id) s.orders) s c
          (Pairwise-filter (is_stale tenant_id now territory_id) DistinctIds s.orders c.unique_ids)
          ready in
      (t, rw on e)
