-- ===== src/Registry/Rows.antt =====
-- What writing one row of backend/app/modules/module_registry/models.py does to the lookups.
use coreops_platform.Base.{
  ℕ, ◌≡◌, refl, ap, ◌∙◌, String, Bool, true, false, ◌&&◌, some, List, [], ◌∷◌, find?,
  find?-update_other, update_where, ◌==◌, ==_iff, ==_refl, str_eq, str_eq_iff, Bool-cases, inl, inr,
}
use coreops_platform.Platform.{TenantModule, Platform}
use coreops_platform.Registry.Service.{save_module, create_tenant_module}
use coreops_platform.Platform.Guard.{
  is_row, status_of_row, is_active_status, get_tenant_module, is_active,
}

pub both : (p q : Bool) → (p && q) ≡ true → (p ≡ true) × (q ≡ true)
both true true h = (refl, refl)
both true false h = cc
both false q h = cc

-- A row is not found under another code.
is_row_other :
    (tenant_id : ℕ) (code other : String) (m : TenantModule)
    → is_row tenant_id code m ≡ true
    → str_eq code other ≡ false
    → is_row tenant_id other m ≡ false
is_row_other tenant_id code other m h n =
    let (t, c) = both (m.tenant_id == tenant_id) (str_eq m.module_code code) h in
    let e : m.module_code ≡ code = (str_eq_iff m.module_code code).0 c in rw (t, e, n) refl

-- Nor for another tenant.
is_row_elsewhere :
    (tenant_id other_id : ℕ) (code other : String) (m : TenantModule)
    → is_row tenant_id code m ≡ true
    → (tenant_id == other_id) ≡ false
    → is_row other_id other m ≡ false
is_row_elsewhere tenant_id other_id code other m h n =
    let (t, c) = both (m.tenant_id == tenant_id) (str_eq m.module_code code) h in
    let e : m.tenant_id ≡ tenant_id = (==_iff m.tenant_id tenant_id).0 t in rw (e, n) refl

pub find?-update_same :
    (p : TenantModule → Bool) (m old : TenantModule) (rows : List TenantModule)
    → p m ≡ true
    → find? p rows ≡ some old
    → find? p (update_where p (λ _. m) rows) ≡ some m
find?-update_same p m old [] t h = cc
find?-update_same p m old (x ∷ rows) t h = elim (Bool-cases (p x)) [
  | inl u ↦ rw (u, t) refl
  | inr f ↦ rw (f, f) (find?-update_same p m old rows t (rw f at h))
]

-- A call that sets whether one module of one tenant is active, and no other.
pub record Sets (p next : Platform) (tenant_id : ℕ) (code : String) (active : Bool) : Type 0 where
  pub definitions : next.definitions ≡ p.definitions
  pub own : is_active next tenant_id code ≡ active
  pub others :
      (c : String) → str_eq code c ≡ false → is_active next tenant_id c ≡ is_active p tenant_id c
  pub elsewhere :
      (u : ℕ) (c : String) → (tenant_id == u) ≡ false → is_active next u c ≡ is_active p u c

pub save_module-Sets :
    (p : Platform) (tenant_id : ℕ) (code : String) (m old : TenantModule)
    → is_row tenant_id code m ≡ true
    → get_tenant_module p tenant_id code ≡ some old
    → Sets p (save_module tenant_id code m p) tenant_id code (is_active_status m.status)
unfolding save_module is_active get_tenant_module
save_module-Sets p tenant_id code m old t h = record {
  definitions = refl;
  own = ap status_of_row (find?-update_same (is_row tenant_id code) m old p.modules t h);
  others = λ c n. ap status_of_row (
      find?-update_other (is_row tenant_id code) (is_row tenant_id c) m p.modules
        (λ x s. is_row_other tenant_id code c x s n) (is_row_other tenant_id code c m t n));
  elsewhere = λ u c n. ap status_of_row (
      find?-update_other (is_row tenant_id code) (is_row u c) m p.modules
        (λ x s. is_row_elsewhere tenant_id u code c x s n)
        (is_row_elsewhere tenant_id u code c m t n));
}

pub create_tenant_module-Sets :
    (p : Platform) (tenant_id : ℕ) (code : String)
    → Sets p (create_tenant_module tenant_id code p).1 tenant_id code false
unfolding create_tenant_module is_active get_tenant_module
create_tenant_module-Sets p tenant_id code =
    let t : str_eq code code ≡ true = (str_eq_iff code code).1 refl in
    record {
      definitions = refl;
      own = rw (==_refl tenant_id, t) refl;
      others = λ c n. rw (==_refl tenant_id, n) refl;
      elsewhere = λ u c n. rw n refl;
    }

-- The row that is created is found, and is of the tenant and the module.
pub create_tenant_module-found :
    (p : Platform) (tenant_id : ℕ) (code : String)
    → get_tenant_module (create_tenant_module tenant_id code p).1 tenant_id code
      ≡ some (create_tenant_module tenant_id code p).0
unfolding create_tenant_module get_tenant_module
create_tenant_module-found p tenant_id code =
    let t : str_eq code code ≡ true = (str_eq_iff code code).1 refl in
    rw (==_refl tenant_id, t) refl

pub Sets-trans :
    (p q r : Platform) (tenant_id : ℕ) (code : String) (a b : Bool)
    → Sets p q tenant_id code a
    → Sets q r tenant_id code b
    → Sets p r tenant_id code b
Sets-trans p q r tenant_id code a b h g = record {
  definitions = g.definitions ∙ h.definitions;
  own = g.own;
  others = λ c n. g.others c n ∙ h.others c n;
  elsewhere = λ u c n. g.elsewhere u c n ∙ h.elsewhere u c n;
}
