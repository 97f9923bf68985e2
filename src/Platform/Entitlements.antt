-- ===== src/Platform/Entitlements.antt =====
-- `EntitlementService` of backend/app/core/entitlements.py over the queries of
-- modules/subscriptions/repository.py.
use coreops_platform.Base.{
  ℕ, ◌+◌, String, Bool, true, false, not, ◌&&◌, Option, none, some, List, [], ◌∷◌, Result, ok,
  ◌>>=◌, ◌>>◌, raise_if, or_raise, ◌==◌, str_eq, ltb, leb, find?, filter, is_some, if◌then◌else◌,
}
use coreops_platform.Platform.Defs.{
  CoreError, feature_not_entitled, usage_limit_exceeded, SubscriptionStatus, active, on_trial,
  past_due, cancelled, expired, UsagePeriod, daily, monthly, yearly, lifetime, Subscription,
  Feature, PlanFeature, UsageLimit, UsageEvent, Platform, Calendar,
}
use coreops_platform.Platform.Guard.{assert_enabled}

abbrev pub is_live : SubscriptionStatus → Bool
is_live active = true
is_live on_trial = true
is_live past_due = false
is_live cancelled = false
is_live expired = false

unfoldable pub get_active_for_tenant : Platform → ℕ → Option Subscription
get_active_for_tenant p tenant_id =
    find? (λ s. s.tenant_id == tenant_id && is_live s.status) p.subscriptions

unfoldable pub get_feature : Platform → String → Option Feature
get_feature p code = find? (λ f. str_eq f.code code) p.features

-- `PlanFeature` joined with the `Feature` of the code.
abbrev pub links : List Feature → ℕ → String → PlanFeature → Bool
links features plan_id code l =
    l.plan_id == plan_id
    && is_some (find? (λ f. f.id == l.feature_id && str_eq f.code code) features)

unfoldable pub plan_has_feature : Platform → ℕ → String → Bool
plan_has_feature p plan_id code = is_some (find? (links p.features plan_id code) p.plan_features)

unfoldable pub get_plan_limit : Platform → ℕ → String → Option UsageLimit
get_plan_limit p plan_id limit_code =
    find? (λ l. l.plan_id == plan_id && str_eq l.limit_code limit_code) p.usage_limits

abbrev pub total_quantity : List UsageEvent → ℕ
total_quantity [] = 0
total_quantity (e ∷ es) = e.quantity + total_quantity es

abbrev pub counts : ℕ → String → ℕ → UsageEvent → Bool
counts tenant_id limit_code since e =
    e.tenant_id == tenant_id && str_eq e.limit_code limit_code && leb since e.created_at

unfoldable pub sum_usage : Platform → ℕ → String → ℕ → ℕ
sum_usage p tenant_id limit_code since =
    total_quantity (filter (counts tenant_id limit_code since) p.usage_events)

unfoldable pub record_usage_event : ℕ → String → ℕ → ℕ → Platform → Platform
record_usage_event tenant_id limit_code quantity now p = record p {
  usage_events = event ∷ p.usage_events;
}
  where
    event : UsageEvent
    event = record {
      tenant_id = tenant_id;
      limit_code = limit_code;
      quantity = quantity;
      created_at = now;
    }

unfoldable pub has_feature : Platform → ℕ → String → Bool
unfolding get_active_for_tenant plan_has_feature
has_feature p tenant_id code = elim (get_active_for_tenant p tenant_id) [
  | none ↦ false
  | some s ↦ plan_has_feature p s.plan_id code
]

-- `if feature and feature.module_code: self.modules.assert_enabled(feature.module_code)`
assert_feature_module : Platform → ℕ → Option Feature → Result CoreError (Unit {0})
unfolding assert_enabled
assert_feature_module p tenant_id none = ok tt
assert_feature_module p tenant_id (some f) = elim f.module_code [
  | none ↦ ok tt
  | some code ↦ if str_eq code "" then ok tt else assert_enabled p tenant_id code
]

unfoldable pub assert_feature : Platform → ℕ → String → Result CoreError (Unit {0})
unfolding get_feature assert_feature_module has_feature
assert_feature p tenant_id code = do
  assert_feature_module p tenant_id (get_feature p code)
  raise_if (not (has_feature p tenant_id code)) feature_not_entitled

-- `datetime.min` is the instant 0.
unfoldable pub period_start : Calendar → UsagePeriod → ℕ → ℕ
period_start c daily now = c.day_start now
period_start c monthly now = c.month_start now
period_start c yearly now = c.year_start now
period_start c lifetime now = 0

unfoldable pub check_limit :
    Calendar → Platform → ℕ → String → ℕ → ℕ → Option UsageLimit → Result CoreError (Unit {0})
unfolding period_start sum_usage
check_limit c p tenant_id limit_code increment now none = ok tt
check_limit c p tenant_id limit_code increment now (some l) =
    let usage = sum_usage p tenant_id limit_code (period_start c l.period now) in
    raise_if (ltb l.limit_value (usage + increment)) usage_limit_exceeded

unfoldable pub assert_within_limit :
    Calendar → Platform → ℕ → String → ℕ → ℕ → Result CoreError (Unit {0})
unfolding get_active_for_tenant get_plan_limit check_limit
assert_within_limit c p tenant_id limit_code increment now = do
  s ← or_raise (get_active_for_tenant p tenant_id) feature_not_entitled
  check_limit c p tenant_id limit_code increment now (get_plan_limit p s.plan_id limit_code)
