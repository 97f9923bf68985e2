-- ===== src/Platform/Usage.antt =====
-- The limits of backend/app/core/entitlements.py hold: a call that passes `assert_within_limit` and
-- then records its usage leaves the usage of the period within the limit.
use coreops_platform.Base.{
  ℕ, ◌+◌, ◌≤◌, ◌≡◌, some, String, ok, >>=-eq-ok, or_raise, or_raise-eq-ok, raise_if-eq-ok, sym, ◌∙◌,
  arith, Bool-cases, inl, inr,
}
use coreops_platform.Platform.Defs.{
  Subscription, UsageLimit, Platform, Calendar, feature_not_entitled,
}
use coreops_platform.Platform.Entitlements.{
  get_active_for_tenant, get_plan_limit, sum_usage, record_usage_event, period_start, counts,
  check_limit, assert_within_limit,
}

-- The new event counts for its tenant and limit, and adds its quantity.
sum_usage-record_usage_event :
    (p : Platform) (tenant_id : ℕ) (code : String) (quantity now since : ℕ)
    → sum_usage (record_usage_event tenant_id code quantity now p) tenant_id code since
      ≤ sum_usage p tenant_id code since + quantity
unfolding sum_usage record_usage_event
sum_usage-record_usage_event p tenant_id code quantity now since =
    elim (Bool-cases (
      counts tenant_id code since (record {
        tenant_id = tenant_id;
        limit_code = code;
        quantity = quantity;
        created_at = now;
      }))) [ inl t ↦ rw t (omega arith) | inr f ↦ rw f (omega arith) ]

-- A call that passes the check of a limit of the tenant's plan, and records the increment it asked
-- for, leaves the usage of the period within the limit.
pub assert_within_limit_keeps :
    (c : Calendar) (p : Platform) (tenant_id : ℕ) (code : String) (increment now : ℕ)
    (s : Subscription) (l : UsageLimit)
    → get_active_for_tenant p tenant_id ≡ some s
    → get_plan_limit p s.plan_id code ≡ some l
    → assert_within_limit c p tenant_id code increment now ≡ ok tt
    → sum_usage
        (record_usage_event tenant_id code increment now p)
        tenant_id
        code
        (period_start c l.period now)
      ≤ l.limit_value
unfolding assert_within_limit check_limit
assert_within_limit_keeps c p tenant_id code increment now s l e k h =
    let (found, f, h1) =
      >>=-eq-ok (or_raise (get_active_for_tenant p tenant_id) feature_not_entitled) _ h in
    let same : found ≡ s = some_inj (sym (or_raise-eq-ok _ _ f) ∙ e) in
    let h2 = raise_if-eq-ok _ _ (rw (same, k) at h1) in
    let u =
      sum_usage-record_usage_event p tenant_id code increment now (period_start c l.period now) in
    let v : sum_usage p tenant_id code (period_start c l.period now) + increment ≤ l.limit_value =
      ground (arith, h2) in
    omega (arith, u, v)
  where
    some_inj : {a b : Subscription} → some a ≡ some b → a ≡ b
    some_inj h = cc
