-- ===== src/Registry/Service.antt =====
-- `ModuleRegistryService` of backend/app/modules/module_registry/service.py. A call returns the row
-- and the tables.
use coreops_platform.Base.{
  ℕ, String, Bool, true, false, not, Option, none, some, List, [], ◌∷◌, ◌++◌, Result, ok, ◌>>=◌,
  ◌>>◌, raise_if, or_raise, ◌==◌, find?, filter, update_where, if◌then◌else◌,
}
use coreops_platform.Platform.{
  CoreError, not_found, permission_denied, ModuleStatus, ModuleMode, TenantModule, ModuleDefinition,
  Platform,
}
use coreops_platform.Platform.Guard.{
  is_row, str_in, get_tenant_module, get_definition, list_definitions, assert_dependencies,
  assert_no_active_dependents,
}

-- The columns of a tenant that the service reads.
pub record Tenant : Type 0 where
  pub id : ℕ
  pub provider_company_id : ℕ

-- The user's provider staff row, of which the company is read.
pub record User : Type 0 where
  pub staff_company_id : Option ℕ

-- `TenantModuleUpdate`, less the settings.
pub record ModuleChange : Type 0 where
  pub status : Option ModuleStatus
  pub mode : Option ModuleMode
  pub external_provider_code : Option String

abbrev pub is_staff_of : Option ℕ → ℕ → Bool
is_staff_of none company = false
is_staff_of (some c) company = c == company

unfoldable pub ensure_provider_access : List Tenant → User → ℕ → Result CoreError (Unit {0})
ensure_provider_access tenants user tenant_id = do
  t ← or_raise (find? (λ (t : Tenant). t.id == tenant_id) tenants) not_found
  raise_if (not (is_staff_of user.staff_company_id t.provider_company_id)) permission_denied

-- A change of a loaded row, written back by its unique key.
unfoldable pub save_module : ℕ → String → TenantModule → Platform → Platform
save_module tenant_id module_code m p = record p {
  modules = update_where (is_row tenant_id module_code) (λ _. m) p.modules;
}

unfoldable pub create_tenant_module : ℕ → String → Platform → TenantModule × Platform
create_tenant_module tenant_id module_code p = (m, record p { modules = m ∷ p.modules })
  where
    m : TenantModule
    m = record {
      tenant_id = tenant_id;
      module_code = module_code;
      status = ModuleStatus.disabled;
      mode = ModuleMode.off;
      external_provider_code = none;
    }

unfoldable pub get_or_create_tenant_module :
    Platform → ℕ → String → Result CoreError (TenantModule × Platform)
unfolding get_definition get_tenant_module create_tenant_module
get_or_create_tenant_module p tenant_id module_code = do
  definition ← or_raise (get_definition p module_code) not_found
  ok (elim (get_tenant_module p tenant_id module_code) [
    | none ↦ create_tenant_module tenant_id module_code p
    | some m ↦ (m, p)
  ])

abbrev pub is_enabled : ModuleStatus → Bool
is_enabled ModuleStatus.enabled = true
is_enabled _ = false

abbrev pub is_disabled : ModuleStatus → Bool
is_disabled ModuleStatus.disabled = true
is_disabled _ = false

abbrev pub is_off : ModuleMode → Bool
is_off ModuleMode.off = true
is_off _ = false

-- `definition.default_mode if definition else ModuleMode.INTERNAL`
abbrev pub default_mode_of : Option ModuleDefinition → ModuleMode
default_mode_of none = ModuleMode.internal
default_mode_of (some d) = d.default_mode

-- The part of `enable_module` that writes.
unfoldable pub activate :
    Platform → ℕ → String → TenantModule → Result CoreError (TenantModule × Platform)
unfolding assert_dependencies get_definition save_module
activate p tenant_id module_code m = do
  assert_dependencies p tenant_id module_code
  let mode = if is_off m.mode then default_mode_of (get_definition p module_code) else m.mode
  let new : TenantModule = record m { status = ModuleStatus.enabled; mode = mode }
  ok (new, save_module tenant_id module_code new p)

unfoldable pub enable_module :
    List Tenant → Platform → User → ℕ → String → Result CoreError (TenantModule × Platform)
unfolding ensure_provider_access get_or_create_tenant_module activate
enable_module tenants p user tenant_id module_code = do
  ensure_provider_access tenants user tenant_id
  row ← get_or_create_tenant_module p tenant_id module_code
  let activated = activate row.1 tenant_id module_code row.0
  if is_enabled row.0.status then ok row else activated

unfoldable pub find_tenant_module :
    List Tenant → Platform → User → ℕ → String → Result CoreError TenantModule
unfolding ensure_provider_access get_tenant_module
find_tenant_module tenants p user tenant_id module_code = do
  ensure_provider_access tenants user tenant_id
  or_raise (get_tenant_module p tenant_id module_code) not_found

-- The part of `disable_module` that writes.
unfoldable pub deactivate :
    Platform → ℕ → String → TenantModule → Result CoreError (TenantModule × Platform)
unfolding assert_no_active_dependents save_module
deactivate p tenant_id module_code m = do
  assert_no_active_dependents p tenant_id module_code
  let new : TenantModule = record m {
    status = ModuleStatus.disabled;
    mode = ModuleMode.off;
    external_provider_code = none;
  }
  ok (new, save_module tenant_id module_code new p)

unfoldable pub disable_module :
    List Tenant → Platform → User → ℕ → String → Result CoreError (TenantModule × Platform)
unfolding find_tenant_module deactivate
disable_module tenants p user tenant_id module_code = do
  m ← find_tenant_module tenants p user tenant_id module_code
  let deactivated = deactivate p tenant_id module_code m
  if is_disabled m.status then ok (m, p) else deactivated

-- `if payload.x is not None: row.x = payload.x`
abbrev pub or_same {ℓ} : {A : Type ℓ} → Option A → A → A
or_same none old = old
or_same (some x) old = x

abbrev pub or_same_text : Option String → Option String → Option String
or_same_text none old = old
or_same_text (some x) old = some x

unfoldable pub update_tenant_module :
    List Tenant
    → Platform
    → User
    → ℕ
    → String
    → ModuleChange
    → Result CoreError (TenantModule × Platform)
unfolding find_tenant_module save_module
update_tenant_module tenants p user tenant_id module_code payload = do
  m ← find_tenant_module tenants p user tenant_id module_code
  let new : TenantModule = record m {
    status = or_same payload.status m.status;
    mode = or_same payload.mode m.mode;
    external_provider_code = or_same_text payload.external_provider_code m.external_provider_code;
  }
  ok (new, save_module tenant_id module_code new p)

-- The rows that `provision_tenant_modules` adds, one for each definition without one.
unfoldable pub provision_each : ℕ → List ModuleDefinition → Platform → Platform
unfolding get_tenant_module create_tenant_module
provision_each tenant_id [] p = p
provision_each tenant_id (d ∷ ds) p =
    provision_each tenant_id ds (elim (get_tenant_module p tenant_id d.code) [
      | none ↦ (create_tenant_module tenant_id d.code p).1
      | some m ↦ p
    ])

unfoldable pub provision_tenant_modules : ℕ → Platform → Platform
unfolding list_definitions provision_each
provision_tenant_modules tenant_id p = provision_each tenant_id (list_definitions p) p

abbrev pub priority : List String
priority =
    "parties" ∷ "catalog" ∷ "crm" ∷ "documents" ∷ "finance" ∷ "accounting" ∷ "integrations" ∷ "ai"
    ∷ []

-- The codes that are not yet in the order, each put once at its end.
abbrev pub append_missing : List String → List String → List String
append_missing ordered [] = ordered
append_missing ordered (code ∷ codes) =
    append_missing (if str_in code ordered then ordered else ordered ++ code ∷ []) codes

unfoldable pub sort_module_codes : List String → List String
sort_module_codes module_codes =
    append_missing (filter (λ code. str_in code module_codes) priority) module_codes

abbrev pub status_of : Bool → ModuleStatus
status_of true = ModuleStatus.trial
status_of false = ModuleStatus.enabled

-- One round of the loop of `enable_modules_ordered`.
unfoldable pub enable_next : ℕ → Bool → Platform → String → Result CoreError Platform
unfolding assert_dependencies get_or_create_tenant_module get_definition save_module
enable_next tenant_id as_trial p code = do
  assert_dependencies p tenant_id code
  row ← get_or_create_tenant_module p tenant_id code
  let new : TenantModule = record row.0 {
    status = status_of as_trial;
    mode = default_mode_of (get_definition p code);
  }
  ok (save_module tenant_id code new row.1)

unfoldable pub enable_each : ℕ → Bool → List String → Platform → Result CoreError Platform
unfolding enable_next
enable_each tenant_id as_trial [] p = ok p
enable_each tenant_id as_trial (code ∷ codes) p =
    enable_next tenant_id as_trial p code >>= enable_each tenant_id as_trial codes

unfoldable pub enable_modules_ordered :
    Platform → ℕ → List String → Bool → Result CoreError (List String × Platform)
unfolding provision_tenant_modules sort_module_codes enable_each
enable_modules_ordered p tenant_id module_codes as_trial = do
  let ordered = sort_module_codes module_codes
  done ← enable_each tenant_id as_trial ordered (provision_tenant_modules tenant_id p)
  ok (ordered, done)

unfoldable pub apply_plan_modules : Platform → ℕ → List String → Bool → Result CoreError Platform
unfolding enable_modules_ordered
apply_plan_modules p tenant_id module_codes as_trial = do
  done ← enable_modules_ordered p tenant_id module_codes as_trial
  ok done.1
