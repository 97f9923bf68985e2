-- ===== src/Registry/Runs.antt =====
-- `enable_modules_ordered`, and any run of the operations of
-- backend/app/modules/module_registry/service.py that pass the guard.
use coreops_platform.Base.{
  ℕ, ◌≡◌, refl, subst, ◌∙◌, String, Bool, true, false, List, [], ◌∷◌, ok, >>=-eq-ok, ok_inj,
  Option-cases, inl, inr,
}
use coreops_platform.Platform.{ModuleDefinition, TenantModule, Platform}
use coreops_platform.Platform.Guard.{
  is_active_status, get_tenant_module, list_definitions, assert_dependencies,
}
use coreops_platform.Registry.Service.{
  Tenant, User, create_tenant_module, get_or_create_tenant_module, enable_module, disable_module,
  provision_each, provision_tenant_modules, sort_module_codes, status_of, enable_next, enable_each,
  enable_modules_ordered,
}
use coreops_platform.Registry.Rows.{Sets, save_module-Sets}
use coreops_platform.Registry.Loading.{
  SameActive, Sets-after, created-SameActive, get_or_create_tenant_module-SameActive,
  SameActive-IsClosed,
}
use coreops_platform.Registry.Closure.{IsClosed, HasDistinctCodes}
use coreops_platform.Registry.Modes.{Integrations, ModeChange, set_module_mode}
use coreops_platform.Registry.ModeChanges.{set_module_mode-IsClosed}
use coreops_platform.Registry.Operations.{
  made_active-IsClosed, enable_module-IsClosed, disable_module-IsClosed,
}

provision_each-SameActive :
    (tenant_id : ℕ) (ds : List ModuleDefinition) (p : Platform)
    → SameActive p (provision_each tenant_id ds p)
unfolding provision_each
provision_each-SameActive tenant_id [] p = record { definitions = refl; active = λ u c. refl }
provision_each-SameActive tenant_id (d ∷ ds) p =
    elim (Option-cases (get_tenant_module p tenant_id d.code)) [
      | inr (m, s) ↦ rw s (provision_each-SameActive tenant_id ds p)
      | inl n ↦
          let q = (create_tenant_module tenant_id d.code p).1 in
          let h = created-SameActive p tenant_id d.code n in
          let g = provision_each-SameActive tenant_id ds q in
          rw n (record {
            definitions = g.definitions ∙ h.definitions;
            active = λ u c. g.active u c ∙ h.active u c;
          })
    ]

enable_next-IsClosed :
    (tenant_id u : ℕ) (as_trial : Bool) (p q : Platform) (code : String)
    → enable_next tenant_id as_trial p code ≡ ok q
    → HasDistinctCodes p × IsClosed p u
    → HasDistinctCodes q × IsClosed q u
unfolding enable_next
enable_next-IsClosed tenant_id u as_trial p q code h k =
    let (v, w, h1) = >>=-eq-ok (assert_dependencies p tenant_id code) _ h in
    let (r, e, h2) = >>=-eq-ok (get_or_create_tenant_module p tenant_id code) _ h1 in
    let (s, g, t) = get_or_create_tenant_module-SameActive p tenant_id code r e in
    subst (λ n. HasDistinctCodes n × IsClosed n u) (ok_inj h2)
      (made_active-IsClosed p _ tenant_id u code w
        (Sets-after p r.1 _ tenant_id code true s (
          subst (Sets r.1 _ tenant_id code) (live as_trial)
            (save_module-Sets r.1 tenant_id code _ r.0 t g)))
        k)
  where
    live : (b : Bool) → is_active_status (status_of b) ≡ true
    live true = refl
    live false = refl

enable_each-IsClosed :
    (tenant_id u : ℕ) (as_trial : Bool) (codes : List String) (p q : Platform)
    → enable_each tenant_id as_trial codes p ≡ ok q
    → HasDistinctCodes p × IsClosed p u
    → HasDistinctCodes q × IsClosed q u
unfolding enable_each
enable_each-IsClosed tenant_id u as_trial [] p q h k =
    subst (λ n. HasDistinctCodes n × IsClosed n u) (ok_inj h) k
enable_each-IsClosed tenant_id u as_trial (code ∷ codes) p q h k =
    let (mid, e, h1) = >>=-eq-ok (enable_next tenant_id as_trial p code) _ h in
    enable_each-IsClosed tenant_id u as_trial codes mid q h1
      (enable_next-IsClosed tenant_id u as_trial p mid code e k)

enable_modules_ordered-IsClosed :
    (p : Platform) (tenant_id u : ℕ) (codes : List String) (as_trial : Bool)
    (done : List String × Platform)
    → enable_modules_ordered p tenant_id codes as_trial ≡ ok done
    → HasDistinctCodes p × IsClosed p u
    → HasDistinctCodes done.1 × IsClosed done.1 u
unfolding enable_modules_ordered provision_tenant_modules
enable_modules_ordered-IsClosed p tenant_id u codes as_trial done h k =
    let start = provision_tenant_modules tenant_id p in
    let (q, e, h1) =
      >>=-eq-ok (enable_each tenant_id as_trial (sort_module_codes codes) start) _ h in
    subst (λ n. HasDistinctCodes n.1 × IsClosed n.1 u) (ok_inj h1)
      (enable_each-IsClosed tenant_id u as_trial (sort_module_codes codes) start q e (
        SameActive-IsClosed p start u (provision_each-SameActive tenant_id (list_definitions p) p)
          k))

-- A call that returns.
pub data RegistryStep (tenants : List Tenant) (p : Platform) : Platform → Type 0 where
  enabled_one :
      (user : User) (tenant_id : ℕ) (code : String) (row : TenantModule × Platform)
      → enable_module tenants p user tenant_id code ≡ ok row
      → RegistryStep tenants p row.1
  disabled_one :
      (user : User) (tenant_id : ℕ) (code : String) (row : TenantModule × Platform)
      → disable_module tenants p user tenant_id code ≡ ok row
      → RegistryStep tenants p row.1
  enabled_ordered :
      (tenant_id : ℕ) (codes : List String) (as_trial : Bool) (done : List String × Platform)
      → enable_modules_ordered p tenant_id codes as_trial ≡ ok done
      → RegistryStep tenants p done.1
  mode_set :
      (x : Integrations) (user : User) (tenant_id : ℕ) (code : String) (payload : ModeChange)
      (row : TenantModule × Platform)
      → set_module_mode tenants x p user tenant_id code payload ≡ ok row
      → RegistryStep tenants p row.1

pub data RegistryRun (tenants : List Tenant) (p : Platform) : Platform → Type 0 where
  start : RegistryRun tenants p p
  after :
      {q r : Platform}
      → RegistryRun tenants p q
      → RegistryStep tenants q r
      → RegistryRun tenants p r

registry_run_lem :
    (tenants : List Tenant) (p : Platform) {q : Platform} (u : ℕ)
    → HasDistinctCodes p × IsClosed p u
    → RegistryRun tenants p q
    → HasDistinctCodes q × IsClosed q u
registry_run_lem tenants p u k start = k
registry_run_lem tenants p u k (after {q = q} r (enabled_one user t code row h)) =
    enable_module-IsClosed tenants q user t u code row h (registry_run_lem tenants p u k r)
registry_run_lem tenants p u k (after {q = q} r (disabled_one user t code row h)) =
    disable_module-IsClosed tenants q user t u code row h (registry_run_lem tenants p u k r)
registry_run_lem tenants p u k (after {q = q} r (enabled_ordered t codes as_trial done h)) =
    enable_modules_ordered-IsClosed q t u codes as_trial done h (registry_run_lem tenants p u k r)
registry_run_lem tenants p u k (after {q = q} r (mode_set x user t code payload row h)) =
    set_module_mode-IsClosed tenants x q user t u code payload row h
      (registry_run_lem tenants p u k r)

-- Where the definitions have distinct codes and each active module of a tenant that is offered
-- requires only active modules, the latter still holds after any run of enable_module, disable_module,
-- enable_modules_ordered and set_module_mode, for whichever tenants.
pub RegistryRun-IsClosed :
    (tenants : List Tenant) (p : Platform) {q : Platform} (tenant_id : ℕ)
    → HasDistinctCodes p
    → IsClosed p tenant_id
    → RegistryRun tenants p q
    → IsClosed q tenant_id
RegistryRun-IsClosed tenants p tenant_id d h r = (registry_run_lem tenants p tenant_id (d, h) r).1
