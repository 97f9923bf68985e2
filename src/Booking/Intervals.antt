-- ===== src/Booking/Intervals.antt =====
-- The intervals of backend/app/modules/booking/service/timezone.py.
use coreops_platform.Base.{
  ℕ, ◌+◌, ◌≤◌, ◌<◌, ◌≡◌, ◌↔◌, ap, ◌∙◌, true, not, some, arith, ok, >>=-eq-ok, raise_if-eq-ok,
  or_raise-eq-ok, raise_if, ltb, leb, Bool-cases, inl, inr,
}
use coreops_platform.Booking.Model.{
  Territory, BookableObject, StayInterval, timezone_error, ZoneRules,
}
use coreops_platform.Booking.Timezone.{
  resolve_effective_check_times, intervals_overlap, local_stay_to_utc_instant, build_item_interval,
}

-- Two intervals that are not empty overlap exactly if some instant lies in both.
pub intervals_overlap_iff :
    (a b c d : ℕ)
    → a < b
    → c < d
    → (intervals_overlap a b c d ≡ true) ↔ ((x : ℕ) × (a ≤ x) × (x < b) × (c ≤ x) × (x < d))
unfolding intervals_overlap
intervals_overlap_iff a b c d p q = (
  λ h. elim (Bool-cases (ltb a c)) [
    | inl t ↦ (c, ground arith, ground arith, ground arith, ground arith)
    | inr f ↦ (a, ground arith, ground arith, ground arith, ground arith)
  ],
  λ (x, ax, xb, cx, xd). ground arith,
)

instant_of :
    (zone : ZoneRules) (day clock : ℕ) (t : Territory) {a : ℕ}
    → local_stay_to_utc_instant zone day clock t.timezone ≡ ok a
    → zone.instant t.timezone day clock ≡ some a
unfolding local_stay_to_utc_instant
instant_of zone day clock t h =
    let (u, known, h1) = >>=-eq-ok (raise_if (not (zone.is_known t.timezone)) timezone_error) _ h in
    or_raise-eq-ok _ _ h1

-- What a resolved interval is.
pub record IsIntervalOf (zone : ZoneRules) (t : Territory) (o : BookableObject)
    (check_in_date check_out_date : ℕ) (v : StayInterval) : Type 0 where
  pub object_is : v.bookable_object_id ≡ o.id
  pub dates_forward : check_in_date < check_out_date
  pub in_date_is : v.check_in_date ≡ check_in_date
  pub nights_are : v.check_in_date + v.nights ≡ check_out_date
  pub in_is :
      zone.instant t.timezone check_in_date (resolve_effective_check_times t o).0
      ≡ some v.check_in_at
  pub out_is :
      zone.instant t.timezone check_out_date (resolve_effective_check_times t o).1
      ≡ some v.check_out_at
  pub forward : v.check_in_at < v.check_out_at

-- A resolved interval is that of the object, counts the nights between the dates, and ends after it
-- begins, on the calendar and as instants.
pub build_item_interval_sound :
    (zone : ZoneRules) (t : Territory) (o : BookableObject) (check_in_date check_out_date : ℕ)
    (v : StayInterval)
    → build_item_interval zone t o check_in_date check_out_date ≡ ok v
    → IsIntervalOf zone t o check_in_date check_out_date v
unfolding build_item_interval
build_item_interval_sound zone t o in_date out_date v h =
    let times = resolve_effective_check_times t o in
    let (u, dates, h1) = >>=-eq-ok (raise_if (leb out_date in_date) timezone_error) _ h in
    let (a, fa, h2) = >>=-eq-ok (local_stay_to_utc_instant zone in_date times.0 t.timezone) _ h1 in
    let (b, fb, h3) = >>=-eq-ok (local_stay_to_utc_instant zone out_date times.1 t.timezone) _ h2 in
    let (w, order, h4) = >>=-eq-ok (raise_if (leb b a) timezone_error) _ h3 in
    let in_at = instant_of zone in_date times.0 t fa in
    let out_at = instant_of zone out_date times.1 t fb in
    let later = raise_if-eq-ok (leb out_date in_date) _ dates in
    let after = raise_if-eq-ok (leb b a) _ order in
    record {
      object_is = ground (arith, h4);
      dates_forward = ground (arith, later);
      in_date_is = ground (arith, h4);
      nights_are = ground (arith, h4, later);
      in_is = in_at ∙ ap some (ground (arith, h4));
      out_is = out_at ∙ ap some (ground (arith, h4));
      forward = ground (arith, h4, after);
    }
