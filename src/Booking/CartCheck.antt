-- ===== src/Booking/CartCheck.antt =====
-- What backend/app/modules/booking/service/availability.py promises: a cart is available exactly if
-- every stay of it resolves to an interval that no blocking item overlaps.
use coreops_platform.Base.{
  ℕ, ◌≡◌, refl, sym, ◌∙◌, ap, true, false, Option, some, List, [], ◌∷◌, ◌++◌, map, arith, Pointwise,
  Result, ok, >>=-eq-ok, raise_if-eq-ok, or_raise-eq-ok, raise_if, or_raise, ltb, is_empty, inl,
  inr, Bool-cases, Option-cases, if◌then◌else◌, append-eq-nil, append_assoc, append-nil,
}
use coreops_platform.Base.Dict.{Dict, lookup}
use coreops_platform.Platform.Guard.{assert_enabled}
use coreops_platform.Booking.Model.{
  Territory, BookableObject, Order, Item, Store, StayRequest, AvailabilityCart, StayInterval,
  Reason, object_not_found, object_not_available, too_short, territory_not_active,
  AvailabilityResult, BookingError, ZoneRules,
}
use coreops_platform.Booking.Timezone.{build_item_interval}
use coreops_platform.Booking.Repository.{
  get_territory, find_overlapping_items, territory_is_bookable, object_is_bookable,
}
use coreops_platform.Booking.Availability.{
  lift, no_result, add_error, conflict_with, object_ids_of, objects_by_id, add_interval,
  check_interval, check_stay_request, check_stays, check_cart, intervals_or_raise,
  assert_cart_available,
}

-- A request is met by an interval: the object is bookable, the interval is that of the requested
-- days and long enough, and no blocking item overlaps it.
pub record Resolves (zone : ZoneRules) (s : Store) (t : Territory) (objects : Dict BookableObject)
    (exclude : Option ℕ) (now : ℕ) (stay : StayRequest) (v : StayInterval) : Type 0 where
  pub object : BookableObject
  pub found : lookup stay.bookable_object_id objects ≡ some object
  pub bookable : object_is_bookable object ≡ true
  pub built : build_item_interval zone t object stay.check_in_date stay.check_out_date ≡ ok v
  pub long_enough : ltb v.nights t.min_stay_nights ≡ false
  pub clear :
      find_overlapping_items s v.bookable_object_id v.check_in_at v.check_out_at now exclude ≡ []

-- The result of a check with these intervals and nothing against them.
abbrev pub clean : List StayInterval → AvailabilityResult
clean vs = record { intervals = vs; conflicts = []; validation_errors = [] }

abbrev returns : AvailabilityResult → Result BookingError AvailabilityResult
returns r = ok r

module _ (zone : ZoneRules) (tenant_id : ℕ) (s : Store) (t : Territory)
    (objects : Dict BookableObject) (exclude : Option ℕ) (now : ℕ) where
  abbrev Met : StayRequest → StayInterval → Type 0
  Met = Resolves zone s t objects exclude now

  -- An added error stays.
  failed :
      (e : Reason) (r : AvailabilityResult) (vs : List StayInterval)
      → returns (add_error e r) ≡ returns (clean vs)
      → ⊥
  failed e r vs k =
      let q : r.validation_errors ++ e ∷ [] ≡ [] = ground (arith, k) in
      cc ((append-eq-nil r.validation_errors (e ∷ []) q).1)

  map-eq-nil :
      (v : StayInterval) (rows : List (Order × Item)) → map (conflict_with v) rows ≡ [] → rows ≡ []
  map-eq-nil v [] h = refl
  map-eq-nil v (x ∷ rows) h = cc

  -- What a clean result says of the result before the last round.
  abbrev Extends : StayRequest → AvailabilityResult → List StayInterval → Type 0
  Extends stay r vs =
      (us : List StayInterval) × (v : StayInterval) × (r ≡ clean us)
      × (vs ≡ us ++ v ∷ [])
      × Met stay v

  added_sound :
      (stay : StayRequest) (r : AvailabilityResult) (vs : List StayInterval) (o : BookableObject)
      (v : StayInterval)
      → lookup stay.bookable_object_id objects ≡ some o
      → object_is_bookable o ≡ true
      → build_item_interval zone t o stay.check_in_date stay.check_out_date ≡ ok v
      → ltb v.nights t.min_stay_nights ≡ false
      → add_interval s exclude now v r ≡ clean vs
      → Extends stay r vs
  unfolding add_interval
  added_sound stay r vs o v found on built long k =
      let overlapping =
        find_overlapping_items s v.bookable_object_id v.check_in_at v.check_out_at now exclude in
      let e : r.conflicts ++ map (conflict_with v) overlapping ≡ [] =
        ap (λ (a : AvailabilityResult). a.conflicts) k in
      let parts = append-eq-nil r.conflicts (map (conflict_with v) overlapping) e in
      let no_errors : r.validation_errors ≡ [] =
        ap (λ (a : AvailabilityResult). a.validation_errors) k in
      let whole : vs ≡ r.intervals ++ v ∷ [] =
        sym (ap (λ (a : AvailabilityResult). a.intervals) k) in
      (
        r.intervals,
        v,
        ground (arith, parts.0, no_errors),
        whole,
        record {
          object = o;
          found = found;
          bookable = on;
          built = built;
          long_enough = long;
          clear = map-eq-nil v overlapping parts.1;
        },
      )

  interval_sound :
      (stay : StayRequest) (r : AvailabilityResult) (vs : List StayInterval) (o : BookableObject)
      → lookup stay.bookable_object_id objects ≡ some o
      → object_is_bookable o ≡ true
      → check_interval zone tenant_id s t exclude now o stay r ≡ ok (clean vs)
      → Extends stay r vs
  unfolding check_interval
  interval_sound stay r vs o found on h =
      let (v, built, k) =
        >>=-eq-ok (build_item_interval zone t o stay.check_in_date stay.check_out_date) _ h in
      elim (Bool-cases (ltb v.nights t.min_stay_nights)) [
        | inl short ↦ absurd (failed (too_short o.code t.min_stay_nights) r vs (rw short at k))
        | inr long ↦
            let q : returns (add_interval s exclude now v r) ≡ returns (clean vs) = rw long at k in
            added_sound stay r vs o v found on built long (cc q)
      ]

  -- A round that ends without an error or a conflict began without one, and met its request.
  round_sound :
      (stay : StayRequest) (r : AvailabilityResult) (vs : List StayInterval)
      → check_stay_request zone tenant_id s t objects exclude now stay r ≡ ok (clean vs)
      → Extends stay r vs
  unfolding check_stay_request
  round_sound stay r vs h = elim (Option-cases (lookup stay.bookable_object_id objects)) [
    | inl missing ↦ absurd (
        failed (object_not_found stay.bookable_object_id) r vs
          (rw (missing, check_stay_request) at h))
    | inr (o, found) ↦
        let k : (if object_is_bookable o
              then check_interval zone tenant_id s t exclude now o stay r
              else ok (add_error (object_not_available o.code) r))
            ≡ ok (clean vs) =
          rw (found, check_stay_request) at h in
        elim (Bool-cases (object_is_bookable o)) [
          | inl on ↦ interval_sound stay r vs o found on (rw on at k)
          | inr off ↦ absurd (failed (object_not_available o.code) r vs (rw off at k))
        ]
  ]

  stays_sound :
      (stays : List StayRequest) (r : AvailabilityResult) (vs : List StayInterval)
      → check_stays zone tenant_id s t objects exclude now stays r ≡ ok (clean vs)
      → (us ws : List StayInterval) × (r ≡ clean us) × (vs ≡ us ++ ws) × Pointwise Met stays ws
  unfolding check_stays
  stays_sound [] r vs h = (vs, [], cc h, sym (append-nil vs), tt)
  stays_sound (stay ∷ stays) r vs h =
      let (r', first, rest) =
        >>=-eq-ok (check_stay_request zone tenant_id s t objects exclude now stay r)
          (check_stays zone tenant_id s t objects exclude now stays) h in
      let (us, ws, e, split, met) = stays_sound stays r' vs rest in
      let (us', v, e', split', m) = round_sound stay r us (rw e at first) in
      (us', v ∷ ws, e', rw (split, split') (append_assoc us' (v ∷ []) ws), (m, met))

  -- The other way round: where each request is met, the loop adds the intervals and nothing else.
  round_complete :
      (stay : StayRequest) (v : StayInterval) (us : List StayInterval)
      → Met stay v
      → check_stay_request zone tenant_id s t objects exclude now stay (clean us)
        ≡ ok (clean (us ++ v ∷ []))
  unfolding check_stay_request check_interval add_interval
  round_complete stay v us m =
      rw (m.found, check_stay_request)
        (rw m.bookable (rw m.built (rw m.long_enough (rw (m.clear, add_interval) refl))))

  stays_complete :
      (stays : List StayRequest) (ws us : List StayInterval)
      → Pointwise Met stays ws
      → check_stays zone tenant_id s t objects exclude now stays (clean us) ≡ ok (clean (us ++ ws))
  unfolding check_stays
  stays_complete [] [] us m = rw append-nil refl
  stays_complete [] (w ∷ ws) us m = absurd m
  stays_complete (stay ∷ stays) [] us m = absurd m
  stays_complete (stay ∷ stays) (w ∷ ws) us m = rw (round_complete stay w us m.0) (
      stays_complete stays ws (us ++ w ∷ []) m.1
      ∙ ap (λ (vs : List StayInterval). ok (clean vs)) (append_assoc us (w ∷ []) ws))

module _ (zone : ZoneRules) (tenant_id : ℕ) (s : Store) (cart : AvailabilityCart)
    (exclude : Option ℕ) (now : ℕ) where
  -- The cart is available for the territory, with these intervals.
  pub record IsAvailable (vs : List StayInterval) : Type 0 where
    pub territory : Territory
    pub territory_found : get_territory s tenant_id cart.territory_id ≡ some territory
    pub territory_active : territory_is_bookable territory ≡ true
    pub not_empty : is_empty cart.items ≡ false
    pub met :
        Pointwise
          (Resolves zone s territory
            (objects_by_id s tenant_id cart.territory_id (object_ids_of cart.items))
            exclude
            now)
          cart.items
          vs

  intervals_or_raise-clean :
      (r : AvailabilityResult) (vs : List StayInterval)
      → intervals_or_raise zone tenant_id r ≡ ok vs
      → r ≡ clean vs
  unfolding intervals_or_raise
  intervals_or_raise-clean r vs h = ground arith

  -- A cart that passes the check is available: each stay was met, in the order of the cart.
  pub assert_cart_available_sound :
      (vs : List StayInterval)
      → assert_cart_available zone tenant_id s cart exclude now ≡ ok vs
      → IsAvailable vs
  unfolding assert_cart_available check_cart
  assert_cart_available_sound vs h =
      let (r, checked, out) =
        >>=-eq-ok (check_cart zone tenant_id s cart exclude now) (intervals_or_raise zone tenant_id)
          h in
      let c = intervals_or_raise-clean r vs out in
      let (u, on, h1) =
        >>=-eq-ok (lift (assert_enabled s.platform tenant_id "booking")) _ checked in
      let (w, full, h2) = >>=-eq-ok (raise_if (is_empty cart.items) _) _ h1 in
      let (t, found, h3) =
        >>=-eq-ok (or_raise (get_territory s tenant_id cart.territory_id) _) _ h2 in
      elim (Bool-cases (territory_is_bookable t)) [
        | inl active ↦
            let (us, ws, e, split, met) =
              stays_sound zone tenant_id s t
                (objects_by_id s tenant_id cart.territory_id (object_ids_of cart.items)) exclude now
                cart.items no_result vs (rw c at (rw active at h3)) in
            let same : vs ≡ ws =
              split
              ∙ ap (λ (l : List StayInterval). l ++ ws)
                  (sym (ap (λ (a : AvailabilityResult). a.intervals) e)) in
            record {
              territory = t;
              territory_found = or_raise-eq-ok _ _ found;
              territory_active = active;
              not_empty = raise_if-eq-ok (is_empty cart.items) _ full;
              met = rw same met;
            }
        | inr inactive ↦
            let k : returns (add_error territory_not_active no_result) ≡ returns (clean vs) =
              rw c at (rw inactive at h3) in
            absurd (failed zone tenant_id s t [] exclude now territory_not_active no_result vs k)
      ]

  -- An available cart passes the check, with those intervals.
  pub assert_cart_available_complete :
      (vs : List StayInterval)
      → assert_enabled s.platform tenant_id "booking" ≡ ok tt
      → IsAvailable vs
      → assert_cart_available zone tenant_id s cart exclude now ≡ ok vs
  unfolding assert_cart_available check_cart intervals_or_raise
  assert_cart_available_complete vs on a = rw on (
      rw a.not_empty (
        rw a.territory_found (
          rw a.territory_active (
            rw
              (stays_complete zone tenant_id s a.territory
                (objects_by_id s tenant_id cart.territory_id (object_ids_of cart.items)) exclude now
                cart.items vs [] a.met)
              refl))))
