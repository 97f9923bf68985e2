-- ===== src/Registry/Modes.antt =====
-- `ModuleRegistryService.set_module_mode` of backend/app/modules/module_registry/service.py, with
-- `validate_external_module_mode` of backend/app/modules/integrations/service.py, which it asks. The
-- settings of a module, which no rule reads, are left out.
use coreops_platform.Base.{
  ℕ, String, Bool, true, false, not, ◌&&◌, Option, none, some, List, Result, ok, ◌>>=◌, ◌>>◌,
  raise_if, or_raise, ◌==◌, str_eq, find?, if◌then◌else◌,
}
use coreops_platform.Platform.{CoreError, not_found, conflict, ModuleMode, TenantModule, Platform}
use coreops_platform.Platform.Guard.{str_in}
use coreops_platform.Registry.Service.{
  Tenant, User, is_disabled, or_same_text, find_tenant_module, save_module,
}

pub data ConnectionStatus : Type 0 where
  pending active error disconnected : ConnectionStatus

-- The columns of a provider that the check reads.
pub record IntegrationProvider : Type 0 where
  pub code : String
  pub supported_modules : List String

-- The columns of a connection that the check reads.
pub record IntegrationConnection : Type 0 where
  pub tenant_id : ℕ
  pub provider_code : String
  pub module_code : String
  pub status : ConnectionStatus

pub record Integrations : Type 0 where
  pub providers : List IntegrationProvider
  pub connections : List IntegrationConnection

-- `TenantModuleModeUpdate`, less the settings.
pub record ModeChange : Type 0 where
  pub mode : ModuleMode
  pub external_provider_code : Option String

abbrev pub is_connected : ConnectionStatus → Bool
is_connected ConnectionStatus.active = true
is_connected _ = false

abbrev pub is_external : ModuleMode → Bool
is_external ModuleMode.external = true
is_external _ = false

-- `not tenant_module.external_provider_code`: an empty text counts as none.
abbrev pub is_missing : Option String → Bool
is_missing none = true
is_missing (some provider_code) = str_eq provider_code ""

abbrev pub get_provider : Integrations → String → Option IntegrationProvider
get_provider x code = find? (λ (r : IntegrationProvider). str_eq r.code code) x.providers

abbrev pub is_active_connection : ℕ → String → String → IntegrationConnection → Bool
is_active_connection tenant_id provider_code module_code c =
    c.tenant_id == tenant_id
    && (str_eq c.provider_code provider_code
        && (str_eq c.module_code module_code && is_connected c.status))

abbrev pub get_active_connection : Integrations → ℕ → String → String → Option IntegrationConnection
get_active_connection x tenant_id provider_code module_code =
    find? (is_active_connection tenant_id provider_code module_code) x.connections

-- The part of `validate_external_module_mode` after its early return.
unfoldable pub require_connection : Integrations → ℕ → String → String → Result CoreError (Unit {0})
require_connection x tenant_id module_code provider_code = do
  provider ← or_raise (get_provider x provider_code) not_found
  raise_if (not (str_in module_code provider.supported_modules)) conflict
  connection ← or_raise (get_active_connection x tenant_id provider_code module_code) conflict
  ok tt

unfoldable pub validate_external_module_mode :
    Integrations → ℕ → String → String → ModuleMode → Result CoreError (Unit {0})
unfolding require_connection
validate_external_module_mode x tenant_id module_code provider_code mode =
    if not (is_external mode)
    then ok tt
    else require_connection x tenant_id module_code provider_code

-- The call of the check, where the mode is external and a provider is named.
unfoldable pub validate_named :
    Integrations → ℕ → String → Option String → ModuleMode → Result CoreError (Unit {0})
unfolding validate_external_module_mode
validate_named x tenant_id module_code none mode = ok tt
validate_named x tenant_id module_code (some provider_code) mode =
    if is_external mode && not (str_eq provider_code "")
    then validate_external_module_mode x tenant_id module_code provider_code mode
    else ok tt

unfoldable pub set_module_mode :
    List Tenant
    → Integrations
    → Platform
    → User
    → ℕ
    → String
    → ModeChange
    → Result CoreError (TenantModule × Platform)
unfolding find_tenant_module validate_named save_module
set_module_mode tenants x p user tenant_id module_code payload = do
  m ← find_tenant_module tenants p user tenant_id module_code
  raise_if (is_disabled m.status) conflict
  let new : TenantModule = record m {
    mode = payload.mode;
    external_provider_code = or_same_text payload.external_provider_code m.external_provider_code;
  }
  raise_if (is_external payload.mode && is_missing new.external_provider_code) conflict
  validate_named x tenant_id module_code new.external_provider_code payload.mode
  ok (new, save_module tenant_id module_code new p)
