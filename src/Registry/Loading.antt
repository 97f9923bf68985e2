-- ===== src/Registry/Loading.antt =====
-- Loading or creating a row of backend/app/modules/module_registry/service.py changes no module.
use coreops_platform.Base.{
  ℕ, ◌≡◌, refl, sym, ap, subst, ◌∙◌, String, Bool, true, none, some, ok, >>=-eq-ok, or_raise,
  ok_inj, find?-eq-some, ◌==◌, ==_iff, str_eq, str_eq_iff, Bool-cases, Option-cases, inl, inr,
}
use coreops_platform.Platform.{TenantModule, Platform, not_found}
use coreops_platform.Platform.Guard.{
  is_row, status_of_row, is_active, get_definition, get_tenant_module,
}
use coreops_platform.Registry.Service.{create_tenant_module, get_or_create_tenant_module}
use coreops_platform.Registry.Rows.{Sets, create_tenant_module-Sets, create_tenant_module-found}
use coreops_platform.Registry.Closure.{IsClosed, HasDistinctCodes, elsewhere-IsClosed}

-- Tables between which the same modules are active.
pub record SameActive (p q : Platform) : Type 0 where
  pub definitions : q.definitions ≡ p.definitions
  pub active : (u : ℕ) (c : String) → is_active q u c ≡ is_active p u c

pub get_tenant_module-is_row :
    (p : Platform) (tenant_id : ℕ) (code : String) (m : TenantModule)
    → get_tenant_module p tenant_id code ≡ some m
    → is_row tenant_id code m ≡ true
unfolding get_tenant_module
get_tenant_module-is_row p tenant_id code m h =
    (find?-eq-some (is_row tenant_id code) p.modules m h).0

pub created-SameActive :
    (p : Platform) (tenant_id : ℕ) (code : String)
    → get_tenant_module p tenant_id code ≡ none
    → SameActive p (create_tenant_module tenant_id code p).1
unfolding is_active
created-SameActive p tenant_id code n =
    let s = create_tenant_module-Sets p tenant_id code in
    record {
      definitions = s.definitions;
      active = λ u c. elim (Bool-cases (tenant_id == u)) [
        | inr f ↦ s.elsewhere u c f
        | inl t ↦ elim (Bool-cases (str_eq code c)) [
          | inr g ↦ rw (sym ((==_iff tenant_id u).0 t)) (s.others c g)
          | inl k ↦
              rw (sym ((==_iff tenant_id u).0 t), sym ((str_eq_iff code c).0 k))
                (s.own ∙ sym (ap status_of_row n))
        ]
      ];
    }

-- The row that is loaded or created.
pub get_or_create_tenant_module-SameActive :
    (p : Platform) (tenant_id : ℕ) (code : String) (row : TenantModule × Platform)
    → get_or_create_tenant_module p tenant_id code ≡ ok row
    → SameActive p row.1
      × (get_tenant_module row.1 tenant_id code ≡ some row.0)
      × (is_row tenant_id code row.0 ≡ true)
unfolding get_or_create_tenant_module
get_or_create_tenant_module-SameActive p tenant_id code row h =
    let (d, f, h1) = >>=-eq-ok (or_raise (get_definition p code) not_found) _ h in
    elim (Option-cases (get_tenant_module p tenant_id code)) [
      | inl n ↦
          let e : create_tenant_module tenant_id code p ≡ row = ok_inj (rw n at h1) in
          subst
            (λ r.
              SameActive p r.1
              × (get_tenant_module r.1 tenant_id code ≡ some r.0)
              × (is_row tenant_id code r.0 ≡ true))
            e
            (
              created-SameActive p tenant_id code n,
              create_tenant_module-found p tenant_id code,
              get_tenant_module-is_row (create_tenant_module tenant_id code p).1 tenant_id code
                  (create_tenant_module tenant_id code p).0
                  (create_tenant_module-found p tenant_id code),
            )
      | inr (m, s) ↦
          let e : (m, p) ≡ row = ok_inj (rw s at h1) in
          subst
            (λ r.
              SameActive p r.1
              × (get_tenant_module r.1 tenant_id code ≡ some r.0)
              × (is_row tenant_id code r.0 ≡ true))
            e
            (
              record { definitions = refl; active = λ u c. refl },
              s,
              get_tenant_module-is_row p tenant_id code m s,
            )
    ]

pub SameActive-IsClosed :
    (p q : Platform) (u : ℕ)
    → SameActive p q
    → HasDistinctCodes p × IsClosed p u
    → HasDistinctCodes q × IsClosed q u
SameActive-IsClosed p q u s (d, h) =
    (rw s.definitions d, elsewhere-IsClosed p q u s.definitions (s.active u) h)

pub Sets-after :
    (p q r : Platform) (tenant_id : ℕ) (code : String) (a : Bool)
    → SameActive p q
    → Sets q r tenant_id code a
    → Sets p r tenant_id code a
Sets-after p q r tenant_id code a h g = record {
  definitions = g.definitions ∙ h.definitions;
  own = g.own;
  others = λ c n. g.others c n ∙ h.active tenant_id c;
  elsewhere = λ u c n. g.elsewhere u c n ∙ h.active u c;
}
