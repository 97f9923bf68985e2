-- ===== src/Registry/Effects.antt =====
-- What `enable_module` and `disable_module` of backend/app/modules/module_registry/service.py change.
use coreops_platform.Base.{
  ℕ, ◌≡◌, refl, ap, subst, ◌∙◌, String, Bool, true, false, ◌&&◌, List, ok, >>=-eq-ok,
  or_raise-eq-ok, ok_inj, ◌==◌, ==_iff, str_eq, str_eq_iff, Bool-cases, inl, inr, if◌then◌else◌,
}
use coreops_platform.Platform.{ModuleStatus, TenantModule, Platform}
use coreops_platform.Platform.Guard.{
  status_of_row, is_active_status, is_active, get_tenant_module, assert_dependencies,
  assert_no_active_dependents,
}
use coreops_platform.Registry.Service.{
  Tenant, User, is_enabled, is_disabled, ensure_provider_access, get_or_create_tenant_module,
  activate, enable_module, find_tenant_module, deactivate, disable_module,
}
use coreops_platform.Registry.Rows.{Sets, save_module-Sets}
use coreops_platform.Registry.Loading.{
  SameActive, Sets-after, get_tenant_module-is_row, get_or_create_tenant_module-SameActive,
}

-- The modules that are active after one is set.
abbrev pub active_after : Platform → ℕ → String → Bool → ℕ → String → Bool
active_after p tenant_id code active u c =
    if tenant_id == u && str_eq code c then active else is_active p u c

Sets-active_after :
    (p q : Platform) (tenant_id : ℕ) (code : String) (a : Bool)
    → Sets p q tenant_id code a
    → (u : ℕ) (c : String) → is_active q u c ≡ active_after p tenant_id code a u c
Sets-active_after p q tenant_id code a s u c = elim (Bool-cases (tenant_id == u)) [
  | inr n ↦ rw n (s.elsewhere u c n)
  | inl t ↦
      let k = (==_iff tenant_id u).0 t in
      elim (Bool-cases (str_eq code c)) [
        | inr n ↦ rw (t, n) (subst (λ v. is_active q v c ≡ is_active p v c) k (s.others c n))
        | inl m ↦
            rw (t, m)
              (subst (λ v. is_active q v c ≡ a) k
                (subst (λ v. is_active q tenant_id v ≡ a) ((str_eq_iff code c).0 m) s.own))
      ]
]

-- Tables in which the module already is as it is to be set.
same-active_after :
    (p q : Platform) (tenant_id : ℕ) (code : String) (a : Bool)
    → SameActive p q
    → is_active q tenant_id code ≡ a
    → (u : ℕ) (c : String) → is_active q u c ≡ active_after p tenant_id code a u c
same-active_after p q tenant_id code a s h = Sets-active_after p q tenant_id code a (record {
  definitions = s.definitions;
  own = h;
  others = λ c n. s.active tenant_id c;
  elsewhere = λ u c n. s.active u c;
})

-- After enable_module returns, the module is active for the tenant, and every other module of any
-- tenant is active or not as it was.
pub enable_module-active_after :
    (tenants : List Tenant) (p : Platform) (user : User) (tenant_id : ℕ) (code : String)
    (row : TenantModule × Platform)
    → enable_module tenants p user tenant_id code ≡ ok row
    → (u : ℕ) (c : String) → is_active row.1 u c ≡ active_after p tenant_id code true u c
unfolding enable_module activate is_active
enable_module-active_after tenants p user tenant_id code row h =
    let (x, a, h1) = >>=-eq-ok (ensure_provider_access tenants user tenant_id) _ h in
    let (r, e, h2) = >>=-eq-ok (get_or_create_tenant_module p tenant_id code) _ h1 in
    let (s, g, t) = get_or_create_tenant_module-SameActive p tenant_id code r e in
    elim (Bool-cases (is_enabled r.0.status)) [
      | inl y ↦
          let z : r ≡ row = ok_inj (rw y at h2) in
          subst
            (λ (v : TenantModule × Platform).
              (u : ℕ) (c : String) → is_active v.1 u c ≡ active_after p tenant_id code true u c)
            z
            (same-active_after p r.1 tenant_id code true s (ap status_of_row g ∙ live r.0.status y))
      | inr n ↦
          let (v, w, h3) = >>=-eq-ok (assert_dependencies r.1 tenant_id code) _ (rw n at h2) in
          subst
            (λ (v : TenantModule × Platform).
              (u : ℕ) (c : String) → is_active v.1 u c ≡ active_after p tenant_id code true u c)
            (ok_inj h3)
            (Sets-active_after p _ tenant_id code true (
              Sets-after p r.1 _ tenant_id code true s
                (save_module-Sets r.1 tenant_id code _ r.0 t g)))
    ]
  where
    live : (s : ModuleStatus) → is_enabled s ≡ true → is_active_status s ≡ true
    live ModuleStatus.enabled e = refl
    live ModuleStatus.disabled e = cc
    live ModuleStatus.trial e = refl
    live ModuleStatus.suspended e = cc

-- After disable_module returns, the module is not active for the tenant, and every other module of
-- any tenant is active or not as it was.
pub disable_module-active_after :
    (tenants : List Tenant) (p : Platform) (user : User) (tenant_id : ℕ) (code : String)
    (row : TenantModule × Platform)
    → disable_module tenants p user tenant_id code ≡ ok row
    → (u : ℕ) (c : String) → is_active row.1 u c ≡ active_after p tenant_id code false u c
unfolding disable_module deactivate find_tenant_module is_active
disable_module-active_after tenants p user tenant_id code row h =
    let (m, e, h1) = >>=-eq-ok (find_tenant_module tenants p user tenant_id code) _ h in
    let (x, a, e1) = >>=-eq-ok (ensure_provider_access tenants user tenant_id) _ e in
    let g = or_raise-eq-ok (get_tenant_module p tenant_id code) _ e1 in
    elim (Bool-cases (is_disabled m.status)) [
      | inl y ↦
          let z : (m, p) ≡ row = ok_inj (rw y at h1) in
          subst
            (λ (v : TenantModule × Platform).
              (u : ℕ) (c : String) → is_active v.1 u c ≡ active_after p tenant_id code false u c)
            z
            (same-active_after p p tenant_id code false
              (record { definitions = refl; active = λ u c. refl })
              (ap status_of_row g ∙ dead m.status y))
      | inr n ↦
          let (v, w, h2) =
            >>=-eq-ok (assert_no_active_dependents p tenant_id code) _ (rw n at h1) in
          subst
            (λ (v : TenantModule × Platform).
              (u : ℕ) (c : String) → is_active v.1 u c ≡ active_after p tenant_id code false u c)
            (ok_inj h2)
            (Sets-active_after p _ tenant_id code false (
              save_module-Sets p tenant_id code _ m (get_tenant_module-is_row p tenant_id code m g)
                g))
    ]
  where
    dead : (s : ModuleStatus) → is_disabled s ≡ true → is_active_status s ≡ false
    dead ModuleStatus.enabled e = cc
    dead ModuleStatus.disabled e = refl
    dead ModuleStatus.trial e = cc
    dead ModuleStatus.suspended e = refl
