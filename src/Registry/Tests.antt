-- ===== src/Registry/Tests.antt =====
-- Runs of the module registry of backend/app/modules/module_registry on two modules, of which the
-- second requires the first.
use coreops_platform.Base.{
  ◌≡◌, ◌≢◌, refl, String, true, false, none, some, List, [], ◌∷◌, ok, err, str_eq, str_eq_iff,
}
use coreops_platform.Platform.{
  ModuleStatus, ModuleMode, TenantModule, ModuleDefinition, Platform, module_dependency, conflict,
}
use coreops_platform.Platform.Guard.{
  get_tenant_module, get_definition, list_definitions, is_active, check_required_dependencies,
  assert_dependencies, list_active_dependents, assert_no_active_dependents,
}
use coreops_platform.Registry.Service.{
  Tenant, User, is_disabled, ensure_provider_access, save_module, create_tenant_module,
  get_or_create_tenant_module, activate, enable_module, find_tenant_module, deactivate,
  disable_module, update_tenant_module, provision_each, provision_tenant_modules, sort_module_codes,
  enable_next, enable_each, enable_modules_ordered,
}
use coreops_platform.Registry.Closure.{IsClosed, HasDistinctCodes}
use coreops_platform.Registry.Runs.{
  enabled_one, disabled_one, enabled_ordered, start, after, RegistryRun-IsClosed,
}
use coreops_platform.Registry.Modes.{
  ConnectionStatus, Integrations, require_connection, validate_external_module_mode, validate_named,
  set_module_mode,
}
use coreops_platform.Registry.External.{IsBacked, set_module_mode-IsBacked}
use coreops_platform.Registry.Effects.{
  active_after, enable_module-active_after, disable_module-active_after,
}

unfoldable registry_steps : Unit {0}
unfolding get_tenant_module get_definition list_definitions is_active check_required_dependencies
    assert_dependencies list_active_dependents assert_no_active_dependents ensure_provider_access
    save_module create_tenant_module get_or_create_tenant_module activate enable_module
    find_tenant_module deactivate disable_module update_tenant_module provision_each
    provision_tenant_modules sort_module_codes enable_next enable_each enable_modules_ordered
    require_connection validate_external_module_mode validate_named set_module_mode
registry_steps = tt

abbrev definition : String → List String → ModuleDefinition
definition code required = record {
  code = code;
  is_active = true;
  default_mode = ModuleMode.internal;
  required = required;
}

abbrev tenants : List Tenant
tenants = record { id = 1; provider_company_id = 9 } ∷ []

abbrev staff : User
staff = record { staff_company_id = some 9 }

abbrev tables : List TenantModule → Platform
tables rows = record {
  definitions = definition "parties" [] ∷ definition "crm" ("parties" ∷ []) ∷ [];
  modules = rows;
  subscriptions = [];
  features = [];
  plan_features = [];
  usage_limits = [];
  usage_events = [];
}

abbrev row_of : String → ModuleStatus → ModuleMode → TenantModule
row_of code s mode = record {
  tenant_id = 1;
  module_code = code;
  status = s;
  mode = mode;
  external_provider_code = none;
}

abbrev enabled_row : String → TenantModule
enabled_row code = row_of code ModuleStatus.enabled ModuleMode.internal

abbrev disabled_row : String → TenantModule
disabled_row code = row_of code ModuleStatus.disabled ModuleMode.off

abbrev trial_row : String → TenantModule
trial_row code = row_of code ModuleStatus.trial ModuleMode.internal

-- The modules in the wrong order are enabled in the right one.
ordered_lem :
    enable_modules_ordered (tables []) 1 ("crm" ∷ "parties" ∷ []) true
    ≡ ok ("parties" ∷ "crm" ∷ [], tables (trial_row "crm" ∷ trial_row "parties" ∷ []))
unfolding registry_steps
ordered_lem = refl

-- A module that an active one requires cannot be disabled.
refused_lem :
    disable_module tenants (tables (trial_row "crm" ∷ trial_row "parties" ∷ [])) staff 1 "parties"
    ≡ err (module_dependency ("crm" ∷ []))
unfolding registry_steps
refused_lem = refl

disable_lem :
    disable_module tenants (tables (trial_row "crm" ∷ trial_row "parties" ∷ [])) staff 1 "crm"
    ≡ ok (disabled_row "crm", tables (disabled_row "crm" ∷ trial_row "parties" ∷ []))
unfolding registry_steps
disable_lem = refl

enable_lem :
    enable_module tenants (tables (disabled_row "crm" ∷ trial_row "parties" ∷ [])) staff 1 "crm"
    ≡ ok (enabled_row "crm", tables (enabled_row "crm" ∷ trial_row "parties" ∷ []))
unfolding registry_steps
enable_lem = refl

-- An update of the status does not ask the guard: the required module is disabled all the same.
bypass_lem :
    update_tenant_module tenants
      (tables (trial_row "crm" ∷ trial_row "parties" ∷ []))
      staff
      1
      "parties"
      (record { status = some ModuleStatus.disabled; mode = none; external_provider_code = none })
    ≡ ok (
      row_of "parties" ModuleStatus.disabled ModuleMode.internal,
      tables (trial_row "crm" ∷ row_of "parties" ModuleStatus.disabled ModuleMode.internal ∷ []),
    )
unfolding registry_steps
bypass_lem = refl

tables-HasDistinctCodes : HasDistinctCodes (tables [])
tables-HasDistinctCodes = ((parties_crm, tt), (tt, tt))
  where
    parties_crm : ◌≢◌ {A = String} "parties" "crm"
    parties_crm e = let t : str_eq "parties" "crm" ≡ true = (str_eq_iff "parties" "crm").1 e in cc

tables-IsClosed : IsClosed (tables []) 1
unfolding registry_steps
tables-IsClosed = tt

RegistryRun-IsClosed_example : IsClosed (tables (enabled_row "crm" ∷ trial_row "parties" ∷ [])) 1
RegistryRun-IsClosed_example =
    RegistryRun-IsClosed tenants (tables []) 1 tables-HasDistinctCodes tables-IsClosed (
      after
        (after
          (after start (
            enabled_ordered 1 ("crm" ∷ "parties" ∷ []) true
              ("parties" ∷ "crm" ∷ [], tables (trial_row "crm" ∷ trial_row "parties" ∷ []))
              ordered_lem))
          (disabled_one staff 1 "crm"
            (disabled_row "crm", tables (disabled_row "crm" ∷ trial_row "parties" ∷ []))
            disable_lem))
        (enabled_one staff 1 "crm"
          (enabled_row "crm", tables (enabled_row "crm" ∷ trial_row "parties" ∷ [])) enable_lem))

enable_module-active_after_example :
    is_active (tables (enabled_row "crm" ∷ trial_row "parties" ∷ [])) 1 "crm"
    ≡ active_after (tables (disabled_row "crm" ∷ trial_row "parties" ∷ [])) 1 "crm" true 1 "crm"
enable_module-active_after_example =
    enable_module-active_after tenants (tables (disabled_row "crm" ∷ trial_row "parties" ∷ []))
      staff 1 "crm" (enabled_row "crm", tables (enabled_row "crm" ∷ trial_row "parties" ∷ []))
      enable_lem 1 "crm"

disable_module-active_after_example :
    is_active (tables (disabled_row "crm" ∷ trial_row "parties" ∷ [])) 1 "parties"
    ≡ active_after (tables (trial_row "crm" ∷ trial_row "parties" ∷ [])) 1 "crm" false 1 "parties"
disable_module-active_after_example =
    disable_module-active_after tenants (tables (trial_row "crm" ∷ trial_row "parties" ∷ [])) staff
      1 "crm" (disabled_row "crm", tables (disabled_row "crm" ∷ trial_row "parties" ∷ []))
      disable_lem 1 "parties"

abbrev integrations : Integrations
integrations = record {
  providers = record { code = "bitrix24"; supported_modules = "crm" ∷ [] } ∷ [];
  connections =
      record {
        tenant_id = 1;
        provider_code = "bitrix24";
        module_code = "crm";
        status = ConnectionStatus.active;
      }
      ∷ [];
}

abbrev external_row : TenantModule
external_row = record {
  tenant_id = 1;
  module_code = "crm";
  status = ModuleStatus.enabled;
  mode = ModuleMode.external;
  external_provider_code = some "bitrix24";
}

external_lem :
    set_module_mode tenants integrations
      (tables (enabled_row "crm" ∷ []))
      staff
      1
      "crm"
      (record { mode = ModuleMode.external; external_provider_code = some "bitrix24" })
    ≡ ok (external_row, tables (external_row ∷ []))
unfolding registry_steps
external_lem = refl

-- The provider does not support the other module.
unsupported_lem :
    set_module_mode tenants integrations
      (tables (enabled_row "parties" ∷ []))
      staff
      1
      "parties"
      (record { mode = ModuleMode.external; external_provider_code = some "bitrix24" })
    ≡ err conflict
unfolding registry_steps
unsupported_lem = refl

-- An empty provider code is none.
unnamed_lem :
    set_module_mode tenants integrations
      (tables (enabled_row "crm" ∷ []))
      staff
      1
      "crm"
      (record { mode = ModuleMode.external; external_provider_code = some "" })
    ≡ err conflict
unfolding registry_steps
unnamed_lem = refl

set_module_mode-IsBacked_example :
    (is_disabled external_row.status ≡ false)
    × (external_row.mode ≡ ModuleMode.external)
    × (get_tenant_module (tables (external_row ∷ [])) 1 "crm" ≡ some external_row)
    × ((provider_code : String) × (external_row.external_provider_code ≡ some provider_code)
        × IsBacked integrations 1 "crm" provider_code)
set_module_mode-IsBacked_example =
    set_module_mode-IsBacked tenants integrations (tables (enabled_row "crm" ∷ [])) staff 1 "crm"
      (some "bitrix24") external_row (tables (external_row ∷ [])) external_lem
