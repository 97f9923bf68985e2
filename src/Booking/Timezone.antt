-- ===== src/Booking/Timezone.antt =====
-- backend/app/modules/booking/service/timezone.py: a stay of local days as an interval of instants.
use coreops_platform.Base.{
  ℕ, ◌-◌, Bool, not, ◌&&◌, String, Result, ok, ◌>>=◌, ◌>>◌, raise_if, or_raise, ltb, leb, get_or,
  if◌then◌else◌,
}
use coreops_platform.Booking.Model.{
  Territory, BookableObject, StayInterval, BookingError, timezone_error, ZoneRules,
}

unfoldable pub resolve_effective_check_times : Territory → BookableObject → ℕ × ℕ
resolve_effective_check_times t o = (
  get_or o.check_in_time t.default_check_in_time,
  get_or o.check_out_time t.default_check_out_time,
)

-- Two half-open intervals have an instant in common.
unfoldable pub intervals_overlap : ℕ → ℕ → ℕ → ℕ → Bool
intervals_overlap left_in left_out right_in right_out =
    ltb left_in right_out && ltb right_in left_out

-- `(check_out_date - check_in_date).days`, at least 1; the guard makes `-` exact.
abbrev pub nights_between : ℕ → ℕ → ℕ
nights_between check_in check_out =
    let nights = check_out - check_in in if ltb nights 1 then 1 else nights

module _ (zone : ZoneRules) where
  unfoldable pub local_stay_to_utc_instant : ℕ → ℕ → String → Result BookingError ℕ
  local_stay_to_utc_instant day clock tz_name = do
    raise_if (not (zone.is_known tz_name)) timezone_error
    or_raise (zone.instant tz_name day clock) timezone_error

  unfoldable pub build_item_interval :
      Territory → BookableObject → ℕ → ℕ → Result BookingError StayInterval
  unfolding resolve_effective_check_times local_stay_to_utc_instant
  build_item_interval t o check_in_date check_out_date = do
    raise_if (leb check_out_date check_in_date) timezone_error
    let times = resolve_effective_check_times t o
    check_in_at ← local_stay_to_utc_instant check_in_date times.0 t.timezone
    check_out_at ← local_stay_to_utc_instant check_out_date times.1 t.timezone
    raise_if (leb check_out_at check_in_at) timezone_error
    ok (record {
      bookable_object_id = o.id;
      check_in_date = check_in_date;
      check_out_date = check_out_date;
      check_in_at = check_in_at;
      check_out_at = check_out_at;
      nights = nights_between check_in_date check_out_date;
    })
