-- ===== src/Registry/Operations.antt =====
-- Each operation of backend/app/modules/module_registry/service.py that passes the guard keeps the
-- required modules of active modules active.
use coreops_platform.Base.{
  ℕ, ◌≡◌, refl, sym, subst, ◌∙◌, String, true, false, not, some, List, [], ◌∷◌, ok, >>=-eq-ok,
  or_raise, or_raise-eq-ok, raise_if-eq-ok, ok_inj, filter, is_empty, ◌==◌, ==_iff, Bool-cases, inl,
  inr,
}
use coreops_platform.Platform.{ModuleDefinition, TenantModule, Platform, not_found}
use coreops_platform.Platform.Guard.{
  is_active, get_definition, get_tenant_module, check_required_dependencies, assert_dependencies,
  list_active_dependents, assert_no_active_dependents,
}
use coreops_platform.Registry.Service.{
  Tenant, User, is_enabled, is_disabled, ensure_provider_access, get_or_create_tenant_module,
  activate, enable_module, find_tenant_module, deactivate, disable_module,
}
use coreops_platform.Registry.Rows.{Sets, save_module-Sets}
use coreops_platform.Registry.Loading.{
  get_tenant_module-is_row, get_or_create_tenant_module-SameActive, SameActive-IsClosed,
}
use coreops_platform.Registry.Closure.{
  AreActive, IsClosed, HasDistinctCodes, enabled-IsClosed, disabled-IsClosed, elsewhere-IsClosed,
}

all_active :
    (p : Platform) (tenant_id : ℕ) (codes : List String)
    → filter (λ c. not (is_active p tenant_id c)) codes ≡ []
    → AreActive p tenant_id codes
all_active p tenant_id [] h = tt
all_active p tenant_id (c ∷ codes) h = elim (Bool-cases (is_active p tenant_id c)) [
  | inl t ↦ (t, all_active p tenant_id codes (rw t at h))
  | inr f ↦ let k : c ∷ filter (λ x. not (is_active p tenant_id x)) codes ≡ [] = rw f at h in cc
]

nil_of {ℓ} : {A : Type ℓ} (xs : List A) → not (is_empty xs) ≡ false → xs ≡ []
nil_of [] h = refl
nil_of (x ∷ xs) h = cc

pub assert_dependencies-AreActive :
    (p : Platform) (tenant_id : ℕ) (code : String)
    → assert_dependencies p tenant_id code ≡ ok tt
    → (d : ModuleDefinition) × (get_definition p code ≡ some d) × AreActive p tenant_id d.required
unfolding assert_dependencies check_required_dependencies
assert_dependencies-AreActive p tenant_id code h =
    let (missing, e, h1) = >>=-eq-ok (check_required_dependencies p tenant_id code) _ h in
    let (d, f, h2) = >>=-eq-ok (or_raise (get_definition p code) not_found) _ e in
    (
      d,
      or_raise-eq-ok _ _ f,
      all_active p tenant_id d.required (ok_inj h2 ∙ nil_of missing (raise_if-eq-ok _ _ h1)),
    )

-- Making a module with its required modules active, seen from any tenant.
pub made_active-IsClosed :
    (p q : Platform) (tenant_id u : ℕ) (code : String)
    → assert_dependencies p tenant_id code ≡ ok tt
    → Sets p q tenant_id code true
    → HasDistinctCodes p × IsClosed p u
    → HasDistinctCodes q × IsClosed q u
made_active-IsClosed p q tenant_id u code e s (d, h) =
    let (m, f, r) = assert_dependencies-AreActive p tenant_id code e in
    (
      rw s.definitions d,
      elim (Bool-cases (tenant_id == u)) [
        | inr n ↦ elsewhere-IsClosed p q u s.definitions (λ c. s.elsewhere u c n) h
        | inl t ↦
            let k = (==_iff tenant_id u).0 t in
            subst (IsClosed q) k
              (enabled-IsClosed p q tenant_id code m s d f r (subst (IsClosed p) (sym k) h))
      ],
    )

-- So is making a module inactive that no active module requires.
made_inactive-IsClosed :
    (p q : Platform) (tenant_id u : ℕ) (code : String)
    → list_active_dependents p tenant_id code ≡ []
    → Sets p q tenant_id code false
    → HasDistinctCodes p × IsClosed p u
    → HasDistinctCodes q × IsClosed q u
made_inactive-IsClosed p q tenant_id u code free s (d, h) = (
  rw s.definitions d,
  elim (Bool-cases (tenant_id == u)) [
    | inr n ↦ elsewhere-IsClosed p q u s.definitions (λ c. s.elsewhere u c n) h
    | inl t ↦
        let k = (==_iff tenant_id u).0 t in
        subst (IsClosed q) k
          (disabled-IsClosed p q tenant_id code s free (subst (IsClosed p) (sym k) h))
  ],
)

pub enable_module-IsClosed :
    (tenants : List Tenant) (p : Platform) (user : User) (tenant_id u : ℕ) (code : String)
    (row : TenantModule × Platform)
    → enable_module tenants p user tenant_id code ≡ ok row
    → HasDistinctCodes p × IsClosed p u
    → HasDistinctCodes row.1 × IsClosed row.1 u
unfolding enable_module activate
enable_module-IsClosed tenants p user tenant_id u code row h k =
    let (x, a, h1) = >>=-eq-ok (ensure_provider_access tenants user tenant_id) _ h in
    let (r, e, h2) = >>=-eq-ok (get_or_create_tenant_module p tenant_id code) _ h1 in
    let (s, g, t) = get_or_create_tenant_module-SameActive p tenant_id code r e in
    let k1 = SameActive-IsClosed p r.1 u s k in
    elim (Bool-cases (is_enabled r.0.status)) [
      | inl y ↦
          let z : r ≡ row = ok_inj (rw y at h2) in
          subst (λ v. HasDistinctCodes v.1 × IsClosed v.1 u) z k1
      | inr n ↦
          let (v, w, h3) = >>=-eq-ok (assert_dependencies r.1 tenant_id code) _ (rw n at h2) in
          subst (λ v. HasDistinctCodes v.1 × IsClosed v.1 u) (ok_inj h3)
            (made_active-IsClosed r.1 _ tenant_id u code w
              (save_module-Sets r.1 tenant_id code _ r.0 t g) k1)
    ]

pub disable_module-IsClosed :
    (tenants : List Tenant) (p : Platform) (user : User) (tenant_id u : ℕ) (code : String)
    (row : TenantModule × Platform)
    → disable_module tenants p user tenant_id code ≡ ok row
    → HasDistinctCodes p × IsClosed p u
    → HasDistinctCodes row.1 × IsClosed row.1 u
unfolding disable_module deactivate find_tenant_module assert_no_active_dependents
disable_module-IsClosed tenants p user tenant_id u code row h (d, k) =
    let (m, e, h1) = >>=-eq-ok (find_tenant_module tenants p user tenant_id code) _ h in
    let (x, a, e1) = >>=-eq-ok (ensure_provider_access tenants user tenant_id) _ e in
    let g = or_raise-eq-ok (get_tenant_module p tenant_id code) _ e1 in
    elim (Bool-cases (is_disabled m.status)) [
      | inl y ↦
          let z : (m, p) ≡ row = ok_inj (rw y at h1) in
          subst (λ v. HasDistinctCodes v.1 × IsClosed v.1 u) z (d, k)
      | inr n ↦
          let (v, w, h2) =
            >>=-eq-ok (assert_no_active_dependents p tenant_id code) _ (rw n at h1) in
          let free = nil_of (list_active_dependents p tenant_id code) (raise_if-eq-ok _ _ w) in
          let s =
            save_module-Sets p tenant_id code _ m (get_tenant_module-is_row p tenant_id code m g)
              g in
          subst (λ v. HasDistinctCodes v.1 × IsClosed v.1 u) (ok_inj h2)
            (made_inactive-IsClosed p _ tenant_id u code free s (d, k))
    ]
