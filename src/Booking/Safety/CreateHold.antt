-- ===== src/Booking/Safety/CreateHold.antt =====
-- `create_hold` of backend/app/modules/booking/service/hold.py as a whole: what it places, and that it
-- never books an object twice.
use coreops_platform.Base.{
  ℕ, ◌+◌, ◌*◌, ◌<◌, ◌≡◌, ◌≢◌, refl, sym, ap, subst, ◌∙◌, false, not, ◌&&◌, none, some, List, [],
  ◌∷◌, ◌++◌, arith, All, Pairwise, Pointwise, Elem, All-Pointwise, ◌==◌, Result, ok, err, >>=-eq-ok,
  or_raise-eq-ok, or_raise, ok_inj, raise_if, find?-eq-some, length, is_empty, Result-cases, inl,
  inr,
}
use coreops_platform.Base.Int.{ℤ, pos, sum, int_laws}
use coreops_platform.Base.Dict.{Dict, from_rows}
use coreops_platform.Platform.Guard.{assert_enabled}
use coreops_platform.Platform.Entitlements.{assert_feature}
use coreops_platform.Booking.Model.{
  held, Territory, BookableObject, Item, Order, Store, StayRequest, HoldCart, StayInterval,
  BookingError, validation_error, empty_cart, ZoneRules,
}
use coreops_platform.Booking.Repository.{
  is_stale, get_territory, get_party, find_overlapping_items, lock_bookable_objects,
}
use coreops_platform.Booking.Availability.{
  lift, object_ids_of, objects_by_id, assert_cart_available,
}
use coreops_platform.Booking.Hold.{
  Context, sorted_set, minute, expire_stale_holds, build_items, new_order, add_order,
  persist_hold_order, check_hold, sweep, place_hold, commit_hold, create_hold,
}
use coreops_platform.Booking.Intervals.{build_item_interval_sound}
use coreops_platform.Booking.CartCheck.{Resolves, IsAvailable, assert_cart_available_sound}
use coreops_platform.Booking.Safety.Defs.{IsConsistent}
use coreops_platform.Booking.Safety.Weaker.{Weaker}
use coreops_platform.Booking.Safety.Operations.{Weakened-IsConsistent}
use coreops_platform.Booking.Safety.Sweep.{expire_stale_holds_clean, expire_stale_holds-Weakened}
use coreops_platform.Booking.Safety.NewHold.{add_order-IsConsistent}
use coreops_platform.Booking.Safety.PlaceHold.{
  DistinctStays, IsBuilt, line_totals, build_items_sound, items-IsFree, items_objects,
  distinct_items,
}

-- The order that a cart was turned into.
pub record IsHoldFor (zone : ZoneRules) (c : Context) (tenant_id : ℕ) (s : Store) (cart : HoldCart)
    (now : ℕ) (r : Order × Store) : Type 0 where
  pub territory : Territory
  pub intervals : List StayInterval
  pub territory_found : get_territory s tenant_id cart.territory_id ≡ some territory
  pub resolved :
      IsAvailable zone tenant_id s
        (record { territory_id = cart.territory_id; items = cart.items })
        none
        now
        intervals
  pub added : r.1 ≡ record s { orders = s.orders ++ r.0 ∷ [] }
  pub id_is : r.0.id ≡ c.order_id
  pub tenant_is : r.0.tenant_id ≡ tenant_id
  pub territory_is : r.0.territory_id ≡ cart.territory_id
  pub is_held : r.0.status ≡ held
  pub expires : r.0.hold_expires_at ≡ some (now + territory.hold_duration_minutes * minute)
  pub clear :
      All
        (λ (v : StayInterval).
          find_overlapping_items s v.bookable_object_id v.check_in_at v.check_out_at now none ≡ [])
        intervals
  pub forward : All (λ (v : StayInterval). v.check_in_at < v.check_out_at) intervals
  pub items_built :
      Pointwise
        (IsBuilt tenant_id
          (from_rows (λ (v : StayInterval). v.bookable_object_id) [] intervals)
          (objects_by_id s tenant_id cart.territory_id (sorted_set (object_ids_of cart.items))))
        cart.items
        r.0.items
  pub subtotal_is : r.0.subtotal ≡ sum (line_totals r.0.items)

module _ (zone : ZoneRules) (c : Context) (tenant_id : ℕ) (s : Store) (cart : HoldCart)
    (now : ℕ) where
  -- An order that was persisted is that of the items that were built, and is in the tables.
  persist-eq-ok :
      (t : Territory) (objects : Dict BookableObject) (vs : List StayInterval) (r : Order × Store)
      → persist_hold_order c tenant_id s cart t objects vs now ≡ (ok r.0, r.1)
      → (built : List Item × ℤ) × (build_items c.item_id 0 tenant_id
            (from_rows (λ (v : StayInterval). v.bookable_object_id) [] vs)
            objects
            cart.items
            (pos 0)
          ≡ ok built)
        × (r.0 ≡ new_order c tenant_id s cart t now built.0 built.1)
        × (r.1 ≡ add_order r.0 s)
  unfolding persist_hold_order
  persist-eq-ok t objects vs r h =
      let by_object = from_rows (λ (v : StayInterval). v.bookable_object_id) [] vs in
      let order = new_order c tenant_id s cart t now in
      elim (Result-cases (build_items c.item_id 0 tenant_id by_object objects cart.items (pos 0))) [
        | inl (built, e) ↦
            let k : ◌≡◌ {A = Result BookingError Order × Store}
                (ok (order built.0 built.1), add_order (order built.0 built.1) s) (ok r.0, r.1) =
              rw (e, persist_hold_order) at h in
            let same : order built.0 built.1 ≡ r.0 =
              ok_inj (ap (λ (q : Result BookingError Order × Store). q.0) k) in
            (
              built,
              e,
              sym same,
              ap (λ (q : Result BookingError Order × Store). q.1) (sym k)
                  ∙ ap (λ (o : Order). add_order o s) same,
            )
        | inr (x, e) ↦
            let k : ◌≡◌ {A = Result BookingError Order × Store} (err x, _) (ok r.0, r.1) =
              rw (e, persist_hold_order) at h in
            let no : ◌≡◌ {A = Result BookingError Order} (err x) (ok r.0) =
              ap (λ (q : Result BookingError Order × Store). q.0) k in
            cc
      ]

  persist_sound :
      (t : Territory) (vs : List StayInterval) (r : Order × Store)
      → get_territory s tenant_id cart.territory_id ≡ some t
      → t.id ≡ cart.territory_id
      → IsAvailable zone tenant_id s
          (record { territory_id = cart.territory_id; items = cart.items })
          none
          now
          vs
      → persist_hold_order c tenant_id s cart t
          (objects_by_id s tenant_id cart.territory_id (sorted_set (object_ids_of cart.items)))
          vs
          now
        ≡ (ok r.0, r.1)
      → IsHoldFor zone c tenant_id s cart now r
  unfolding persist_hold_order
  persist_sound t vs r found same a h =
      let objects =
        objects_by_id s tenant_id cart.territory_id (sorted_set (object_ids_of cart.items)) in
      let by_object = from_rows (λ (v : StayInterval). v.bookable_object_id) [] vs in
      let (built, b, done, put) = persist-eq-ok t objects vs r h in
      let (items, total) =
        build_items_sound c.item_id tenant_id by_object objects 0 cart.items (pos 0) built b in
      let items_are : r.0.items ≡ built.0 = ground (arith, done) in
      let subtotal : r.0.subtotal ≡ built.1 = ground (arith, done) in
      record {
        territory = t;
        intervals = vs;
        territory_found = found;
        resolved = a;
        added = put;
        id_is = ground (arith, done);
        tenant_is = ground (arith, done);
        territory_is = ground (arith, done);
        is_held = ground (arith, done);
        expires = ground (arith, done);
        clear =
            All-Pointwise
              (Resolves zone s a.territory
                (objects_by_id s tenant_id cart.territory_id (object_ids_of cart.items)) none now)
              (λ stay. Unit)
              (λ (v : StayInterval).
                find_overlapping_items s v.bookable_object_id v.check_in_at v.check_out_at now none
                ≡ [])
              (λ stay v m u. m.clear) cart.items vs a.met (all_unit cart.items);
        forward =
            All-Pointwise
              (Resolves zone s a.territory
                (objects_by_id s tenant_id cart.territory_id (object_ids_of cart.items)) none now)
              (λ stay. Unit) (λ (v : StayInterval). v.check_in_at < v.check_out_at)
              (λ stay v m u.
                (build_item_interval_sound zone a.territory m.object stay.check_in_date
                  stay.check_out_date v m.built).forward)
              cart.items vs a.met (all_unit cart.items);
        items_built = rw items_are items;
        subtotal_is = rw (subtotal, items_are) (total ∙ omega int_laws);
      }
    where
      all_unit : (xs : List StayRequest) → All (λ stay. Unit {0}) xs
      all_unit [] = tt
      all_unit (x ∷ xs) = (tt, all_unit xs)

  check_hold_sound :
      (checked : Territory × Dict BookableObject × List StayInterval) (r : Order × Store)
      → check_hold zone tenant_id s cart now ≡ ok checked
      → persist_hold_order c tenant_id s cart checked.0 checked.1 checked.2 now ≡ (ok r.0, r.1)
      → IsHoldFor zone c tenant_id s cart now r
  unfolding check_hold get_territory
  check_hold_sound checked r h written =
      let ids = sorted_set (object_ids_of cart.items) in
      let objects = objects_by_id s tenant_id cart.territory_id ids in
      let (t, ft, h1) = >>=-eq-ok (or_raise (get_territory s tenant_id cart.territory_id) _) _ h in
      let (g, fg, h2) = >>=-eq-ok (or_raise (get_party s tenant_id cart.guest_party_id) _) _ h1 in
      let (u, lens, h3) = >>=-eq-ok (raise_if (not (length objects == length ids)) _) _ h2 in
      let (l, locked, h4) = >>=-eq-ok (lock_bookable_objects s ids) _ h3 in
      let (vs, available, h5) =
        >>=-eq-ok
          (assert_cart_available zone tenant_id s
            (record { territory_id = cart.territory_id; items = cart.items }) none now)
          _ h4 in
      let same : (t, objects, vs) ≡ checked = ok_inj h5 in
      let row =
        find?-eq-some (λ (x : Territory). x.tenant_id == tenant_id && x.id == cart.territory_id)
          s.territories t (or_raise-eq-ok _ _ ft) in
      persist_sound t vs r (or_raise-eq-ok _ _ ft) (ground (arith, row.0))
        (assert_cart_available_sound zone tenant_id s
          (record { territory_id = cart.territory_id; items = cart.items }) none now vs available)
        (subst
          (λ (q : Territory × Dict BookableObject × List StayInterval).
            persist_hold_order c tenant_id s cart q.0 q.1 q.2 now ≡ (ok r.0, r.1))
          (sym same) written)

  -- A hold that is placed is that of its cart.
  pub place_hold_sound :
      (r : Order × Store)
      → place_hold zone tenant_id c s cart now ≡ (ok r.0, r.1)
      → IsHoldFor zone c tenant_id s cart now r
  unfolding place_hold check_hold get_territory
  place_hold_sound r h = elim (Result-cases (check_hold zone tenant_id s cart now)) [
    | inr (e, refused) ↦
        let k : ◌≡◌ {A = Result BookingError Order × Store} (err e, s) (ok r.0, r.1) =
          rw (refused, place_hold) at h in
        let no : ◌≡◌ {A = Result BookingError Order} (err e) (ok r.0) =
          ap (λ (q : Result BookingError Order × Store). q.0) k in
        cc
    | inl (checked, passed) ↦
        let k : persist_hold_order c tenant_id s cart checked.0 checked.1 checked.2 now
            ≡ (ok r.0, r.1) =
          rw (passed, place_hold) at h in
        check_hold_sound checked r passed k
  ]

  -- On consistent tables with no stale hold, a cart of distinct objects keeps them consistent.
  pub place_hold-IsConsistent :
      (r : Order × Store)
      → IsConsistent s
      → ((x : Order) → Elem x s.orders → is_stale tenant_id now (some cart.territory_id) x ≡ false)
      → All (λ x. x.id ≢ c.order_id) s.orders
      → Pairwise DistinctStays cart.items
      → place_hold zone tenant_id c s cart now ≡ (ok r.0, r.1)
      → IsConsistent r.1
  place_hold-IsConsistent r k swept fresh distinct h =
      let p = place_hold_sound r h in
      let ids = sorted_set (object_ids_of cart.items) in
      let free =
        items-IsFree tenant_id cart.territory_id now s p.intervals ids cart.items r.0.items p.clear
          p.items_built in
      let apart =
        distinct_items cart.items r.0.items
          (items_objects tenant_id cart.territory_id now s p.intervals ids cart.items r.0.items
            p.clear p.items_built)
          distinct in
      let e = p.expires in
      subst IsConsistent (sym p.added) (
        add_order-IsConsistent tenant_id cart.territory_id now s k swept r.0 p.tenant_is
          p.territory_is (λ x. ground (arith, e)) (rw p.id_is fresh) free apart)

  -- What `create_hold` does before it places the hold.
  pub sweep_sound :
      (t : Store)
      → sweep zone tenant_id s cart now ≡ ok t
      → (ids : List ℕ) × (expire_stale_holds tenant_id s (some cart.territory_id) now ≡ ok (ids, t))
  unfolding sweep
  sweep_sound t h =
      let (u, on, h1) = >>=-eq-ok (lift (assert_enabled s.platform tenant_id "booking")) _ h in
      let (v, entitled, h2) =
        >>=-eq-ok (lift (assert_feature s.platform tenant_id "booking.orders.create")) _ h1 in
      let (w, full, h3) =
        >>=-eq-ok (raise_if (is_empty cart.items) (validation_error (empty_cart ∷ []))) _ h2 in
      let (p, swept, done) =
        >>=-eq-ok (expire_stale_holds tenant_id s (some cart.territory_id) now) _ h3 in
      (p.0, rw swept (ground (arith, done)))

-- A change that only weakens orders writes no identifier.
fresh-Weaker :
    (k : ℕ) (xs ys : List Order)
    → Pointwise Weaker xs ys
    → All (λ x. x.id ≢ k) xs
    → All (λ y. y.id ≢ k) ys
fresh-Weaker k xs ys w f =
    All-Pointwise Weaker (λ x. x.id ≢ k) (λ y. y.id ≢ k) (λ x y h n e. n (sym h.same_id ∙ e)) xs ys
      w f

module _ (zone : ZoneRules) (c : Context) (tenant_id : ℕ) (s : Store) (cart : HoldCart)
    (now : ℕ) where
  pub swept_call :
      (t : Store)
      → sweep zone tenant_id s cart now ≡ ok t
      → create_hold zone tenant_id c s cart now
        ≡ commit_hold zone tenant_id t (place_hold zone tenant_id c t cart now)
  unfolding create_hold
  swept_call t h = rw (h, create_hold) refl

  pub refused_call :
      (e : BookingError)
      → sweep zone tenant_id s cart now ≡ err e
      → create_hold zone tenant_id c s cart now ≡ (err e, s)
  unfolding create_hold
  refused_call e h = rw (h, create_hold) refl

  commit-IsConsistent :
      (t : Store) (m : Result BookingError Order × Store)
      → IsConsistent t
      → ((r : Order × Store) → m ≡ (ok r.0, r.1) → IsConsistent r.1)
      → IsConsistent (commit_hold zone tenant_id t m).1
  unfolding commit_hold
  commit-IsConsistent t (ok o, u) k h = h (o, u) refl
  commit-IsConsistent t (err e, u) k h = k

  -- Whatever a call of `create_hold` returns, it leaves the tables consistent, if the cart names no
  -- object twice and the new order's identifier is fresh.
  pub create_hold-IsConsistent :
      IsConsistent s
      → All (λ x. x.id ≢ c.order_id) s.orders
      → Pairwise DistinctStays cart.items
      → IsConsistent (create_hold zone tenant_id c s cart now).1
  create_hold-IsConsistent k fresh distinct =
      elim (Result-cases (sweep zone tenant_id s cart now)) [
        | inr (e, refused) ↦ rw (refused_call e refused) k
        | inl (t, swept) ↦
            let (ids, expiry) = sweep_sound zone c tenant_id s cart now t swept in
            let w =
              expire_stale_holds-Weakened tenant_id now s (some cart.territory_id) (ids, t) k
                expiry in
            let kt = Weakened-IsConsistent s t w k in
            rw (swept_call t swept) (
              commit-IsConsistent t (place_hold zone tenant_id c t cart now) kt (λ r placed.
                place_hold-IsConsistent zone c tenant_id t cart now r kt
                  (expire_stale_holds_clean tenant_id now s (some cart.territory_id) (ids, t)
                    expiry)
                  (fresh-Weaker c.order_id s.orders t.orders w.orders_weaker fresh) distinct
                  placed))
      ]
