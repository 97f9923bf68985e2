-- ===== src/Booking/Safety/DoubleStay.antt =====
-- What `create_hold` of backend/app/modules/booking/service/hold.py does with a cart that names an
-- object twice, the order that it returns, and the rollback.
use coreops_platform.Base.{
  ℕ, ◌≡◌, ◌<◌, refl, subst, ◌∙◌, ap, true, some, List, [], ◌∷◌, ◌++◌, arith, All, Pairwise,
  Pointwise, Pairwise-append_right, Result, ok, err, Result-cases, inl, inr, some, append-nil,
}
use coreops_platform.Base.Dict.{Dict, from_rows, lookup-from_rows}
use coreops_platform.Booking.Model.{
  held, BookableObject, Item, Order, Store, StayRequest, HoldCart, StayInterval, BookingError,
  ZoneRules,
}
use coreops_platform.Booking.Timezone.{intervals_overlap}
use coreops_platform.Booking.Repository.{with_order, joined}
use coreops_platform.Booking.Hold.{
  Context, expire_stale_holds, new_item, sweep, place_hold, commit_hold, create_hold,
}
use coreops_platform.Booking.Safety.Defs.{reserves, Compatible, NoDoubleBooking}
use coreops_platform.Booking.Safety.NewHold.{joined-append}
use coreops_platform.Booking.Safety.PlaceHold.{DistinctStays, IsBuilt}
use coreops_platform.Booking.Safety.CreateHold.{
  IsHoldFor, place_hold_sound, sweep_sound, swept_call, refused_call,
}

module _ (tenant_id : ℕ) (vs : List StayInterval) (objects : Dict BookableObject) (o : Order)
    (is_held : o.status ≡ held)
    (forward : All (λ (v : StayInterval). v.check_in_at < v.check_out_at) vs) where
  abbrev Built : StayRequest → Item → Type 0
  Built = IsBuilt tenant_id (from_rows (λ (v : StayInterval). v.bookable_object_id) [] vs) objects

  -- The items of two stays of one object have one interval, so they clash.
  same_object_clash :
      (a b : StayRequest) (i j : Item)
      → Built a i
      → Built b j
      → Compatible (o, i) (o, j)
      → DistinctStays a b
  unfolding new_item intervals_overlap
  same_object_clash a b i j p q c same =
      let v : p.interval ≡ q.interval = cc (p.interval_found, q.interval_found) in
      let x : p.object ≡ q.object = cc (p.object_found, q.object_found) in
      let f =
        (lookup-from_rows (λ (u : StayInterval). u.bookable_object_id)
          (λ (u : StayInterval). u.check_in_at < u.check_out_at) vs a.bookable_object_id p.interval
          forward p.interval_found).1 in
      let ri : reserves (o, i) ≡ true = ground (arith, p.item_is) in
      let rj : reserves (o, j) ≡ true = ground (arith, q.item_is) in
      let k : i.bookable_object_id ≡ j.bookable_object_id =
        ground (arith, p.item_is, q.item_is, x) in
      let ends : (i.check_in_at ≡ p.interval.check_in_at)
          × (i.check_out_at ≡ p.interval.check_out_at)
          × (j.check_in_at ≡ p.interval.check_in_at)
          × (j.check_out_at ≡ p.interval.check_out_at) =
        (
          ground (arith, p.item_is),
          ground (arith, p.item_is),
          ground (arith, q.item_is, v),
          ground (arith, q.item_is, v),
        ) in
      ground (arith, c ri rj k, f, ends)

  clash_row :
      (a : StayRequest) (i : Item) (stays : List StayRequest) (is : List Item)
      → Built a i
      → Pointwise Built stays is
      → All (Compatible (o, i)) (with_order o is)
      → All (DistinctStays a) stays
  clash_row a i [] [] p b c = tt
  clash_row a i [] (j ∷ is) p b c = absurd b
  clash_row a i (s ∷ stays) [] p b c = absurd b
  clash_row a i (s ∷ stays) (j ∷ is) p b c =
      (same_object_clash a s i j p b.0 c.0, clash_row a i stays is p b.1 c.1)

  clash_rows :
      (stays : List StayRequest) (is : List Item)
      → Pointwise Built stays is
      → Pairwise Compatible (with_order o is)
      → Pairwise DistinctStays stays
  clash_rows [] [] b c = tt
  clash_rows [] (i ∷ is) b c = absurd b
  clash_rows (s ∷ stays) [] b c = absurd b
  clash_rows (s ∷ stays) (i ∷ is) b c =
      (clash_row s i stays is b.0 b.1 c.0, clash_rows stays is b.1 c.1)

module _ (zone : ZoneRules) (c : Context) (tenant_id : ℕ) (s : Store) (cart : HoldCart)
    (now : ℕ) where
  placed_distinct :
      (r : Order × Store)
      → place_hold zone tenant_id c s cart now ≡ (ok r.0, r.1)
      → NoDoubleBooking r.1.orders
      → Pairwise DistinctStays cart.items
  placed_distinct r h n =
      let p = place_hold_sound zone c tenant_id s cart now r h in
      let e : r.1.orders ≡ s.orders ++ r.0 ∷ [] = ap (λ (t : Store). t.orders) p.added in
      let rows : joined r.1.orders ≡ joined s.orders ++ with_order r.0 r.0.items =
        ap joined e
        ∙ joined-append s.orders (r.0 ∷ [])
        ∙ ap (λ (l : List (Order × Item)). joined s.orders ++ l)
            (append-nil (with_order r.0 r.0.items)) in
      let pairs : Pairwise Compatible (with_order r.0 r.0.items) =
        Pairwise-append_right Compatible (joined s.orders) (with_order r.0 r.0.items)
          (subst (Pairwise Compatible) rows n) in
      clash_rows tenant_id p.intervals _ r.0 p.is_held p.forward cart.items r.0.items p.items_built
        pairs

module _ (zone : ZoneRules) (c : Context) (tenant_id : ℕ) (s : Store) (cart : HoldCart)
    (now : ℕ) where
  -- How a call ended: it placed the hold on the swept tables, or raised over those or over the old ones.
  pub data Outcome : Result BookingError Order × Store → Type 0 where
    placed :
        (ids : List ℕ) (t : Store) (r : Order × Store)
        → expire_stale_holds tenant_id s (some cart.territory_id) now ≡ ok (ids, t)
        → place_hold zone tenant_id c t cart now ≡ (ok r.0, r.1)
        → Outcome (ok r.0, r.1)
    rolled_back :
        (ids : List ℕ) (t session : Store) (e : BookingError)
        → expire_stale_holds tenant_id s (some cart.territory_id) now ≡ ok (ids, t)
        → place_hold zone tenant_id c t cart now ≡ (err e, session)
        → Outcome (err e, t)
    refused : (e : BookingError) → Outcome (err e, s)

  commit-Outcome :
      (ids : List ℕ) (t : Store) (m : Result BookingError Order × Store)
      → expire_stale_holds tenant_id s (some cart.territory_id) now ≡ ok (ids, t)
      → place_hold zone tenant_id c t cart now ≡ m
      → Outcome (commit_hold zone tenant_id t m)
  unfolding commit_hold
  commit-Outcome ids t (ok o, u) h k = placed ids t (o, u) h k
  commit-Outcome ids t (err e, u) h k = rolled_back ids t u e h k

  pub create_hold-Outcome : Outcome (create_hold zone tenant_id c s cart now)
  create_hold-Outcome = elim (Result-cases (sweep zone tenant_id s cart now)) [
    | inr (e, raised) ↦ rw (refused_call zone c tenant_id s cart now e raised) (refused e)
    | inl (t, swept) ↦
        let (ids, expiry) = sweep_sound zone c tenant_id s cart now t swept in
        rw (swept_call zone c tenant_id s cart now t swept)
          (commit-Outcome ids t (place_hold zone tenant_id c t cart now) expiry refl)
  ]

  Outcome-distinct :
      (q : Result BookingError Order × Store) {o : Order}
      → Outcome q
      → q.0 ≡ ok o
      → NoDoubleBooking q.1.orders
      → Pairwise DistinctStays cart.items
  Outcome-distinct q (placed ids t r h k) e n = placed_distinct zone c tenant_id t cart now r k n
  Outcome-distinct q (rolled_back ids t u x h k) e n = cc
  Outcome-distinct q (refused x) e n = cc

  Outcome-placed :
      (q : Result BookingError Order × Store) (o : Order)
      → Outcome q
      → q.0 ≡ ok o
      → (ids : List ℕ) × (t : Store) × (expire_stale_holds tenant_id s (some cart.territory_id) now
          ≡ ok (ids, t))
        × IsHoldFor zone c tenant_id t cart now (o, q.1)
  Outcome-placed q o (placed ids t r h k) e =
      let same : r.0 ≡ o = cc e in
      (
        ids,
        t,
        h,
        subst (λ (a : Order). IsHoldFor zone c tenant_id t cart now (a, r.1)) same
            (place_hold_sound zone c tenant_id t cart now r k),
      )
  Outcome-placed q o (rolled_back ids t u x h k) e = cc
  Outcome-placed q o (refused x) e = cc

  -- If `create_hold` returns an order and no object is reserved twice at one instant afterwards, the
  -- cart named no object twice: a cart that names an object twice, even for days that are apart, is
  -- either refused or double booked.
  pub create_hold_double_books :
      (o : Order)
      → (create_hold zone tenant_id c s cart now).0 ≡ ok o
      → NoDoubleBooking (create_hold zone tenant_id c s cart now).1.orders
      → Pairwise DistinctStays cart.items
  create_hold_double_books o =
      Outcome-distinct (create_hold zone tenant_id c s cart now) create_hold-Outcome

  -- An order that `create_hold` returns was appended to the tables that the expiry left. It is held in
  -- the territory of the cart, for the minutes of that territory. The stays of the cart resolve, one
  -- by one, to intervals of the days asked for, which no blocking item overlaps. There is one item for
  -- each stay, of its object, written from the last of those intervals that is of the object. The
  -- subtotal is the sum of the lines.
  pub create_hold_returns :
      (o : Order)
      → (create_hold zone tenant_id c s cart now).0 ≡ ok o
      → (ids : List ℕ) × (t : Store) × (expire_stale_holds tenant_id s (some cart.territory_id) now
          ≡ ok (ids, t))
        × IsHoldFor zone c tenant_id t cart now (o, (create_hold zone tenant_id c s cart now).1)
  create_hold_returns o =
      Outcome-placed (create_hold zone tenant_id c s cart now) o create_hold-Outcome
