-- ===== src/Registry/ModeChanges.antt =====
-- `set_module_mode` of backend/app/modules/module_registry/service.py does not change which modules
-- are active.
use coreops_platform.Base.{
  ℕ, ◌≡◌, refl, sym, subst, ap, ◌∙◌, List, String, true, ◌&&◌, some, ok, >>=-eq-ok, or_raise-eq-ok,
  raise_if, ok_inj, ◌==◌, ==_iff, str_eq, str_eq_iff, Bool-cases, inl, inr,
}
use coreops_platform.Platform.{not_found, conflict, TenantModule, Platform}
use coreops_platform.Platform.Guard.{
  is_row, status_of_row, is_active_status, is_active, get_tenant_module,
}
use coreops_platform.Registry.Service.{
  Tenant, User, is_disabled, or_same_text, ensure_provider_access, find_tenant_module, save_module,
}
use coreops_platform.Registry.Rows.{save_module-Sets}
use coreops_platform.Registry.Loading.{SameActive, get_tenant_module-is_row, SameActive-IsClosed}
use coreops_platform.Registry.Closure.{IsClosed, HasDistinctCodes}
use coreops_platform.Registry.Modes.{
  Integrations, ModeChange, is_external, is_missing, validate_named, set_module_mode,
}

-- Writing a row with the status of the one found changes no activity.
saved-SameActive :
    (p : Platform) (tenant_id : ℕ) (code : String) (new old : TenantModule)
    → is_row tenant_id code new ≡ true
    → get_tenant_module p tenant_id code ≡ some old
    → new.status ≡ old.status
    → SameActive p (save_module tenant_id code new p)
unfolding is_active
saved-SameActive p tenant_id code new old t f e =
    let s = save_module-Sets p tenant_id code new old t f in
    let own : is_active (save_module tenant_id code new p) tenant_id code
        ≡ is_active p tenant_id code =
      s.own ∙ ap is_active_status e ∙ sym (ap status_of_row f) in
    record {
      definitions = s.definitions;
      active = λ u c. elim (Bool-cases (tenant_id == u)) [
        | inr n ↦ s.elsewhere u c n
        | inl k ↦ elim (Bool-cases (str_eq code c)) [
          | inl w ↦ rw (sym ((==_iff tenant_id u).0 k), sym ((str_eq_iff code c).0 w)) own
          | inr n ↦ rw (sym ((==_iff tenant_id u).0 k)) (s.others c n)
        ]
      ];
    }

pub set_module_mode-IsClosed :
    (tenants : List Tenant) (x : Integrations) (p : Platform) (user : User) (tenant_id u : ℕ)
    (code : String) (payload : ModeChange) (row : TenantModule × Platform)
    → set_module_mode tenants x p user tenant_id code payload ≡ ok row
    → HasDistinctCodes p × IsClosed p u
    → HasDistinctCodes row.1 × IsClosed row.1 u
unfolding set_module_mode find_tenant_module
set_module_mode-IsClosed tenants x p user tenant_id u code payload row h k =
    let (m, f, h1) = >>=-eq-ok (find_tenant_module tenants p user tenant_id code) _ h in
    let (_, _, h2) = >>=-eq-ok (raise_if (is_disabled m.status) conflict) _ h1 in
    let chosen = or_same_text payload.external_provider_code m.external_provider_code in
    let (_, _, h3) =
      >>=-eq-ok (raise_if (is_external payload.mode && is_missing chosen) conflict) _ h2 in
    let (_, _, h4) = >>=-eq-ok (validate_named x tenant_id code chosen payload.mode) _ h3 in
    let (_, _, g) = >>=-eq-ok (ensure_provider_access tenants user tenant_id) _ f in
    let found = or_raise-eq-ok (get_tenant_module p tenant_id code) not_found g in
    subst (λ r. HasDistinctCodes r.1 × IsClosed r.1 u) (ok_inj h4)
      (SameActive-IsClosed p _ u
        (saved-SameActive p tenant_id code _ m (get_tenant_module-is_row p tenant_id code m found)
          found refl)
        k)
