-- ===== src/Leads/RateLimit.antt =====
-- `InMemorySlidingWindowRateLimiter` of backend/app/modules/public_leads/rate_limit.py. An instant of
-- `time.monotonic` is a number of microseconds. A call reads it before it takes the lock, so calls are
-- processed in any order of their instants; what is done under the lock is one step.
use coreops_platform.Base.{
  ℕ, ◌+◌, ◌*◌, String, Bool, true, false, ◌&&◌, ◌||◌, List, [], ◌∷◌, ◌++◌, filter, length, ltb, leb,
  ◌==◌, str_eq, if◌then◌else◌,
}

pub record RateLimitRule : Type 0 where
  pub window_seconds : ℕ
  pub max_requests : ℕ

-- An entry of `_buckets`.
pub record Bucket : Type 0 where
  pub key : String
  pub window : ℕ
  pub stamps : List ℕ

abbrev pub is_bucket : String → ℕ → Bucket → Bool
is_bucket key window b = str_eq b.key key && b.window == window

-- `self._buckets.get(bucket_key, [])`
abbrev pub stamps_of : String → ℕ → List Bucket → List ℕ
stamps_of key window [] = []
stamps_of key window (b ∷ bs) =
    let rest = stamps_of key window bs in if is_bucket key window b then b.stamps else rest

-- `self._buckets[bucket_key] = timestamps`
abbrev pub put_stamps : String → ℕ → List ℕ → List Bucket → List Bucket
put_stamps key window stamps [] = record { key = key; window = window; stamps = stamps } ∷ []
put_stamps key window stamps (b ∷ bs) =
    let rest = put_stamps key window stamps bs in
    if is_bucket key window b then record b { stamps = stamps } ∷ bs else b ∷ rest

-- `now - stamp < rule.window_seconds`
abbrev pub is_recent : ℕ → ℕ → ℕ → Bool
is_recent now window stamp = ltb now (stamp + window * 1000000)

abbrev pub recent_stamps : String → ℕ → ℕ → List Bucket → List ℕ
recent_stamps key now window buckets = filter (is_recent now window) (stamps_of key window buckets)

-- The loop over the rules: whether the request is accepted, and the buckets, which keep what the rules
-- before the refusal have written.
unfoldable pub check_rules : String → ℕ → List Bucket → List RateLimitRule → Bool × List Bucket
check_rules key now buckets [] = (true, buckets)
check_rules key now buckets (r ∷ rules) =
    let recent = recent_stamps key now r.window_seconds buckets in
    let skipped = check_rules key now buckets rules in
    let written = put_stamps key r.window_seconds (recent ++ now ∷ []) buckets in
    let passed = check_rules key now written rules in
    if r.window_seconds == 0 || r.max_requests == 0
    then skipped
    else if leb r.max_requests (length recent)
    then (false, buckets)
    else passed

-- `if not key: key = "unknown"`
abbrev pub or_unknown : String → String
or_unknown key = if str_eq key "" then "unknown" else key

unfoldable pub check_and_increment :
    String → ℕ → List Bucket → List RateLimitRule → Bool × List Bucket
unfolding check_rules
check_and_increment key now buckets rules = check_rules (or_unknown key) now buckets rules

abbrev pub reset : List Bucket → List Bucket
reset buckets = []
