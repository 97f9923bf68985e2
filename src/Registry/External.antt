-- ===== src/Registry/External.antt =====
-- What stands behind a module in external mode, for `set_module_mode` of
-- backend/app/modules/module_registry/service.py.
use coreops_platform.Base.{
  ℕ, ◌≡◌, refl, subst, String, Bool, true, false, not, Option, none, some, List, ok, >>=-eq-ok,
  or_raise, or_raise-eq-ok, raise_if, raise_if-eq-ok, ok_inj, find?-eq-some, Elem, ◌==◌, ==_iff,
  str_eq, str_eq_iff,
}
use coreops_platform.Platform.{not_found, conflict, ModuleMode, TenantModule, Platform}
use coreops_platform.Platform.Guard.{str_in, is_row, get_tenant_module}
use coreops_platform.Registry.Service.{
  Tenant, User, is_disabled, or_same_text, ensure_provider_access, find_tenant_module, save_module,
}
use coreops_platform.Registry.Rows.{both, find?-update_same}
use coreops_platform.Registry.Loading.{get_tenant_module-is_row}
use coreops_platform.Registry.Modes.{
  ConnectionStatus, IntegrationProvider, IntegrationConnection, Integrations, is_connected,
  is_missing, get_provider, get_active_connection, require_connection,
  validate_external_module_mode, validate_named, set_module_mode,
}

-- A provider of the code that supports the module, and an active connection of the tenant to it.
pub record IsBacked (x : Integrations) (tenant_id : ℕ) (code provider_code : String) : Type 0 where
  pub provider : IntegrationProvider
  pub connection : IntegrationConnection
  pub is_known : Elem provider x.providers
  pub has_code : provider.code ≡ provider_code
  pub supports : str_in code provider.supported_modules ≡ true
  pub is_stored : Elem connection x.connections
  pub of_tenant : connection.tenant_id ≡ tenant_id
  pub of_provider : connection.provider_code ≡ provider_code
  pub of_module : connection.module_code ≡ code
  pub is_connected_now : connection.status ≡ ConnectionStatus.active

is_connected-active : (s : ConnectionStatus) → is_connected s ≡ true → s ≡ ConnectionStatus.active
is_connected-active ConnectionStatus.pending h = cc
is_connected-active ConnectionStatus.active h = refl
is_connected-active ConnectionStatus.error h = cc
is_connected-active ConnectionStatus.disconnected h = cc

true_of : (b : Bool) → not b ≡ false → b ≡ true
true_of true h = refl
true_of false h = cc

pub require_connection-IsBacked :
    (x : Integrations) (tenant_id : ℕ) (module_code provider_code : String)
    → require_connection x tenant_id module_code provider_code ≡ ok tt
    → IsBacked x tenant_id module_code provider_code
unfolding require_connection
require_connection-IsBacked x tenant_id module_code provider_code h =
    let (r, f, h1) = >>=-eq-ok (or_raise (get_provider x provider_code) not_found) _ h in
    let (u, s, h2) =
      >>=-eq-ok (raise_if (not (str_in module_code r.supported_modules)) conflict) _ h1 in
    let (c, g, h3) =
      >>=-eq-ok (or_raise (get_active_connection x tenant_id provider_code module_code) conflict) _
        h2 in
    let (k, i) = find?-eq-some _ x.providers r (or_raise-eq-ok _ _ f) in
    let (l, j) = find?-eq-some _ x.connections c (or_raise-eq-ok _ _ g) in
    let (t, l1) = both (c.tenant_id == tenant_id) _ l in
    let (v, l2) = both (str_eq c.provider_code provider_code) _ l1 in
    let (w, o) = both (str_eq c.module_code module_code) _ l2 in
    record {
      provider = r;
      connection = c;
      is_known = i;
      has_code = (str_eq_iff r.code provider_code).0 k;
      supports = true_of _ (raise_if-eq-ok _ _ s);
      is_stored = j;
      of_tenant = (==_iff c.tenant_id tenant_id).0 t;
      of_provider = (str_eq_iff c.provider_code provider_code).0 v;
      of_module = (str_eq_iff c.module_code module_code).0 w;
      is_connected_now = is_connected-active c.status o;
    }

named-IsBacked :
    (x : Integrations) (tenant_id : ℕ) (module_code : String) (named : Option String)
    → is_missing named ≡ false
    → validate_named x tenant_id module_code named ModuleMode.external ≡ ok tt
    → (provider_code : String) × (named ≡ some provider_code)
      × IsBacked x tenant_id module_code provider_code
unfolding validate_named validate_external_module_mode
named-IsBacked x tenant_id module_code none n h = cc
named-IsBacked x tenant_id module_code (some c) n h =
    (c, refl, require_connection-IsBacked x tenant_id module_code c (rw n at h))

-- If set_module_mode returns for the mode external, the module was not disabled, the row that it
-- returns is in that mode, names a provider and is the row stored for the module; the provider is
-- known and supports the module, and the tenant has an active connection to it for the module.
pub set_module_mode-IsBacked :
    (tenants : List Tenant) (x : Integrations) (p : Platform) (user : User) (tenant_id : ℕ)
    (module_code : String) (named : Option String) (new : TenantModule) (q : Platform)
    → set_module_mode tenants x p user tenant_id module_code
        (record { mode = ModuleMode.external; external_provider_code = named })
      ≡ ok (new, q)
    → (is_disabled new.status ≡ false)
      × (new.mode ≡ ModuleMode.external)
      × (get_tenant_module q tenant_id module_code ≡ some new)
      × ((provider_code : String) × (new.external_provider_code ≡ some provider_code)
          × IsBacked x tenant_id module_code provider_code)
unfolding set_module_mode find_tenant_module get_tenant_module save_module
set_module_mode-IsBacked tenants x p user tenant_id module_code named new q h =
    let (m, f, h1) = >>=-eq-ok (find_tenant_module tenants p user tenant_id module_code) _ h in
    let (u, d, h2) = >>=-eq-ok (raise_if (is_disabled m.status) conflict) _ h1 in
    let chosen = or_same_text named m.external_provider_code in
    let (v, n, h3) = >>=-eq-ok (raise_if (is_missing chosen) conflict) _ h2 in
    let (w, b, h4) =
      >>=-eq-ok (validate_named x tenant_id module_code chosen ModuleMode.external) _ h3 in
    let (z, a, g) = >>=-eq-ok (ensure_provider_access tenants user tenant_id) _ f in
    let found = or_raise-eq-ok (get_tenant_module p tenant_id module_code) not_found g in
    let own = get_tenant_module-is_row p tenant_id module_code m found in
    subst
      (λ r.
        (is_disabled r.0.status ≡ false)
        × (r.0.mode ≡ ModuleMode.external)
        × (get_tenant_module r.1 tenant_id module_code ≡ some r.0)
        × ((provider_code : String) × (r.0.external_provider_code ≡ some provider_code)
            × IsBacked x tenant_id module_code provider_code))
      (ok_inj h4)
      (
        raise_if-eq-ok _ _ d,
        refl,
        find?-update_same (is_row tenant_id module_code) _ m p.modules own found,
        named-IsBacked x tenant_id module_code chosen (raise_if-eq-ok _ _ n) b,
      )
