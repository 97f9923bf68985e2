-- ===== src/Registry/Closure.antt =====
-- Active modules and the modules they require, for backend/app/modules/module_registry/service.py.
use coreops_platform.Base.{
  ℕ, ◌≡◌, ◌≢◌, refl, sym, ◌∙◌, String, true, false, ◌&&◌, some, List, [], ◌∷◌, filter,
  find?-eq-some, Elem, All, All-Elem, All-of_Elem, All-map, Elem-filter, filter-Elem, Pairwise,
  same_by_key, str_eq, str_eq_iff, Bool-cases, inl, inr,
}
use coreops_platform.Platform.{ModuleDefinition, Platform}
use coreops_platform.Platform.Guard.{
  str_in, is_active, get_definition, list_definitions, list_active_dependents,
}
use coreops_platform.Registry.Rows.{Sets}

-- The offered definitions of the modules that are active for the tenant.
abbrev pub active_definitions : Platform → ℕ → List ModuleDefinition
active_definitions p tenant_id = filter (λ d. is_active p tenant_id d.code) (list_definitions p)

abbrev pub AreActive : Platform → ℕ → List String → Type 0
AreActive p tenant_id codes = All (λ c. is_active p tenant_id c ≡ true) codes

-- Each active module of the tenant that is offered requires only active modules.
abbrev pub IsClosed : Platform → ℕ → Type 0
IsClosed p tenant_id = All (λ d. AreActive p tenant_id d.required) (active_definitions p tenant_id)

abbrev pub HasDistinctCodes : Platform → Type 0
HasDistinctCodes p = Pairwise (λ d e. d.code ≢ e.code) p.definitions

-- A module whose required modules are active is made active.
pub enabled-IsClosed :
    (p q : Platform) (tenant_id : ℕ) (code : String) (d : ModuleDefinition)
    → Sets p q tenant_id code true
    → HasDistinctCodes p
    → get_definition p code ≡ some d
    → AreActive p tenant_id d.required
    → IsClosed p tenant_id
    → IsClosed q tenant_id
unfolding list_definitions get_definition
enabled-IsClosed p q tenant_id code d s u f r h =
    All-of_Elem (λ e. AreActive q tenant_id e.required) (active_definitions q tenant_id) step
  where
    keeps : (c : String) → is_active p tenant_id c ≡ true → is_active q tenant_id c ≡ true
    keeps c a = elim (Bool-cases (str_eq code c)) [
      | inl t ↦ rw (sym ((str_eq_iff code c).0 t)) s.own
      | inr n ↦ s.others c n ∙ a
    ]

    required :
        (e : ModuleDefinition)
        → Elem e (list_definitions p)
        → is_active q tenant_id e.code ≡ true
        → AreActive p tenant_id e.required
    required e m a = elim (Bool-cases (str_eq code e.code)) [
      | inl t ↦
          let (g, k) = find?-eq-some _ p.definitions d f in
          let same : e ≡ d =
            same_by_key (λ (x : ModuleDefinition). x.code) d e p.definitions u k
              (filter-Elem _ p.definitions e m).0
              (sym ((str_eq_iff code e.code).0 t) ∙ sym ((str_eq_iff d.code code).0 g)) in
          rw same r
      | inr n ↦
          All-Elem (λ x. AreActive p tenant_id x.required) e (active_definitions p tenant_id) h
            (Elem-filter (λ x. is_active p tenant_id x.code) (list_definitions p) e m
              (sym (s.others e.code n) ∙ a))
    ]

    step :
        (e : ModuleDefinition)
        → Elem e (active_definitions q tenant_id)
        → AreActive q tenant_id e.required
    step e m =
        let (k, a) = filter-Elem (λ x. is_active q tenant_id x.code) (list_definitions q) e m in
        All-map (λ c. is_active p tenant_id c ≡ true) (λ c. is_active q tenant_id c ≡ true)
          e.required keeps (required e (rw s.definitions at k) a)

str_in-Elem : (s : String) (xs : List String) → Elem s xs → str_in s xs ≡ true
str_in-Elem s [] m = absurd m
str_in-Elem s (x ∷ xs) (inl e) = let t : str_eq x s ≡ true = (str_eq_iff x s).1 (sym e) in rw t refl
str_in-Elem s (x ∷ xs) (inr m) = elim (Bool-cases (str_eq x s)) [
  | inl t ↦ rw t refl
  | inr n ↦ rw n (str_in-Elem s xs m)
]

-- A module that no active module requires is made inactive.
pub disabled-IsClosed :
    (p q : Platform) (tenant_id : ℕ) (code : String)
    → Sets p q tenant_id code false
    → list_active_dependents p tenant_id code ≡ []
    → IsClosed p tenant_id
    → IsClosed q tenant_id
unfolding list_definitions list_active_dependents
disabled-IsClosed p q tenant_id code s g h =
    All-of_Elem (λ e. AreActive q tenant_id e.required) (active_definitions q tenant_id) step
  where
    free :
        (e : ModuleDefinition)
        → Elem e (list_definitions p)
        → is_active p tenant_id e.code ≡ true
        → str_in code e.required ≡ false
    free e m a = elim (Bool-cases (str_in code e.required)) [
      | inl t ↦
          let k =
            Elem-filter (λ d. str_in code d.required && is_active p tenant_id d.code)
              (list_definitions p) e m (rw (t, a) refl) in
          absurd (rw g at k)
      | inr n ↦ n
    ]

    step :
        (e : ModuleDefinition)
        → Elem e (active_definitions q tenant_id)
        → AreActive q tenant_id e.required
    step e m =
        let (k, a) = filter-Elem (λ x. is_active q tenant_id x.code) (list_definitions q) e m in
        let k' : Elem e (list_definitions p) = rw s.definitions at k in
        let n : str_eq code e.code ≡ false = elim (Bool-cases (str_eq code e.code)) [
          | inl t ↦
              let x : is_active q tenant_id e.code ≡ false =
                rw (sym ((str_eq_iff code e.code).0 t)) s.own in
              cc
          | inr n ↦ n
        ] in
        let b = sym (s.others e.code n) ∙ a in
        let r =
          All-Elem (λ x. AreActive p tenant_id x.required) e (active_definitions p tenant_id) h
            (Elem-filter (λ x. is_active p tenant_id x.code) (list_definitions p) e k' b) in
        All-of_Elem (λ c. is_active q tenant_id c ≡ true) e.required
          (λ c mc. elim (Bool-cases (str_eq code c)) [
            | inl t ↦
                let y = str_in-Elem code e.required (rw ((str_eq_iff code c).0 t) mc) in
                let z = free e k' b in cc
            | inr o ↦
                s.others c o ∙ All-Elem (λ x. is_active p tenant_id x ≡ true) c e.required r mc
          ])

-- A call for another tenant changes nothing here.
pub elsewhere-IsClosed :
    (p q : Platform) (tenant_id : ℕ)
    → q.definitions ≡ p.definitions
    → ((c : String) → is_active q tenant_id c ≡ is_active p tenant_id c)
    → IsClosed p tenant_id
    → IsClosed q tenant_id
unfolding list_definitions
elsewhere-IsClosed p q tenant_id e a h =
    All-of_Elem (λ d. AreActive q tenant_id d.required) (active_definitions q tenant_id) step
  where
    step :
        (d : ModuleDefinition)
        → Elem d (active_definitions q tenant_id)
        → AreActive q tenant_id d.required
    step d m =
        let (k, b) = filter-Elem (λ x. is_active q tenant_id x.code) (list_definitions q) d m in
        let k' : Elem d (list_definitions p) = rw e at k in
        All-map (λ c. is_active p tenant_id c ≡ true) (λ c. is_active q tenant_id c ≡ true)
          d.required (λ c t. a c ∙ t)
          (All-Elem (λ x. AreActive p tenant_id x.required) d (active_definitions p tenant_id) h
            (Elem-filter (λ x. is_active p tenant_id x.code) (list_definitions p) d k'
              (sym (a d.code) ∙ b)))
