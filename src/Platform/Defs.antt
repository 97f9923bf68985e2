-- ===== src/Platform/Defs.antt =====
-- The rows that the guard and the entitlements read: modules/module_registry/models.py,
-- modules/subscriptions/models.py and core/enums.py. Identifiers are numbers, codes are texts, and
-- an instant is a number of microseconds.
use coreops_platform.Base.{ℕ, Option, List, String, Bool}

-- `CoreOpsError` and its subclasses, less their messages
pub data CoreError : Type 0 where
  not_found conflict permission_denied module_disabled : CoreError
  module_dependency : List String → CoreError
  feature_not_entitled usage_limit_exceeded : CoreError

pub data ModuleStatus : Type 0 where
  enabled disabled trial suspended : ModuleStatus

pub data ModuleMode : Type 0 where
  internal external hybrid off : ModuleMode

pub data SubscriptionStatus : Type 0 where
  active on_trial past_due cancelled expired : SubscriptionStatus

pub data UsagePeriod : Type 0 where
  daily monthly yearly lifetime : UsagePeriod

pub record TenantModule : Type 0 where
  pub tenant_id : ℕ
  pub module_code : String
  pub status : ModuleStatus
  pub mode : ModuleMode
  pub external_provider_code : Option String

-- `required` is `dependencies_json["required"]`.
pub record ModuleDefinition : Type 0 where
  pub code : String
  pub is_active : Bool
  pub default_mode : ModuleMode
  pub required : List String

pub record Subscription : Type 0 where
  pub tenant_id : ℕ
  pub plan_id : ℕ
  pub status : SubscriptionStatus

pub record Feature : Type 0 where
  pub id : ℕ
  pub code : String
  pub module_code : Option String

pub record PlanFeature : Type 0 where
  pub plan_id : ℕ
  pub feature_id : ℕ

pub record UsageLimit : Type 0 where
  pub plan_id : ℕ
  pub limit_code : String
  pub period : UsagePeriod
  pub limit_value : ℕ

pub record UsageEvent : Type 0 where
  pub tenant_id : ℕ
  pub limit_code : String
  pub quantity : ℕ
  pub created_at : ℕ

-- The tables.
pub record Platform : Type 0 where
  pub definitions : List ModuleDefinition
  pub modules : List TenantModule
  pub subscriptions : List Subscription
  pub features : List Feature
  pub plan_features : List PlanFeature
  pub usage_limits : List UsageLimit
  pub usage_events : List UsageEvent

-- `datetime.replace` to the start of the day, the month and the year of an instant.
pub record Calendar : Type 0 where
  pub day_start : ℕ → ℕ
  pub month_start : ℕ → ℕ
  pub year_start : ℕ → ℕ
