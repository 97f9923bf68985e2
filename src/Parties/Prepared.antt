-- ===== src/Parties/Prepared.antt =====
-- What `validate_and_prepare` of backend/app/modules/parties/custom_fields.py returns for each key.
use coreops_platform.Base.{
  ap, ◌∙◌, ℕ, ◌≡◌, refl, sym, subst, String, Bool, true, false, not, none, some, List, [], ◌∷◌, inl,
  inr, ◌⊎◌, Bool-cases, Option-cases, Elem, All, Pairwise, str_eq, str_eq_iff, is_empty, ok, ◌>>=◌,
  ◌>>◌, >>=-eq-ok, raise_if, raise_if-eq-ok, ok_inj,
}
use coreops_platform.Platform.{conflict}
use coreops_platform.Parties.Values.{Value, null, Builtins}
use coreops_platform.Parties.CustomFields.{
  Fields, FieldDefinition, core, get, has_key, unknown_keys, coerce_value, prepare_each,
  list_definitions, applicable, validate_and_prepare,
}

-- A value given for a key is the coerced value of a definition of the key.
abbrev pub IsCoerced : Builtins → List FieldDefinition → String → Value → Fields → Type 0
IsCoerced py definitions key raw fields =
    (d : FieldDefinition) × (w : Value) × Elem d definitions
    × (d.field_key ≡ key)
    × (coerce_value py raw d ≡ ok w)
    × (get key fields ≡ some w)

-- A key that was not given is not returned, and its definitions do not require it.
abbrev pub IsPrepared : Builtins → List FieldDefinition → Fields → String → Fields → Type 0
IsPrepared py definitions values key fields =
    ((get key values ≡ none) × (get key fields ≡ none))
    ⊎ ((raw : Value) × (get key values ≡ some raw) × IsCoerced py definitions key raw fields)

module _ (py : Builtins) (values : Fields) (key : String) where
  absent_kept :
      (ds : List FieldDefinition) (fields : Fields)
      → prepare_each py values ds ≡ ok fields
      → get key values ≡ none
      → get key fields ≡ none
  unfolding prepare_each
  absent_kept [] fields h n = subst (λ f. get key f ≡ none) (ok_inj {a = []} h) refl
  absent_kept (d ∷ ds) fields h n = elim (Option-cases (get d.field_key values)) [
    | inl m ↦
        let k : (raise_if d.is_required (core conflict) >> prepare_each py values ds) ≡ ok fields =
          rw (m, prepare_each) at h in
        let (u, e, k1) = >>=-eq-ok (raise_if d.is_required (core conflict)) _ k in
        absent_kept ds fields k1 n
    | inr (raw, m) ↦
        let k : (coerce_value py raw d >>= λ v.
        prepare_each py values ds >>= λ rest. ok ((d.field_key, v) ∷ rest))
            ≡ ok fields =
          rw (m, prepare_each) at h in
        let (v, e, k1) = >>=-eq-ok (coerce_value py raw d) _ k in
        let (rest, e2, k2) = >>=-eq-ok (prepare_each py values ds) _ k1 in
        let other : str_eq d.field_key key ≡ false = elim (Bool-cases (str_eq d.field_key key)) [
          | inr f ↦ f
          | inl y ↦
              let q : get key values ≡ some raw =
                subst (λ x. get x values ≡ some raw) ((str_eq_iff d.field_key key).0 y) m in
              cc
        ] in
        subst (λ f. get key f ≡ none) (ok_inj {a = (d.field_key, v) ∷ rest} k2)
          (rw other (absent_kept ds rest e2 n))
  ]

  given-IsCoerced :
      (raw : Value) (ds : List FieldDefinition) (fields : Fields)
      → prepare_each py values ds ≡ ok fields
      → get key values ≡ some raw
      → has_key key ds ≡ true
      → IsCoerced py ds key raw fields
  unfolding prepare_each
  given-IsCoerced raw [] fields h s t = cc
  given-IsCoerced raw (d ∷ ds) fields h s t = elim (Bool-cases (str_eq d.field_key key)) [
    | inl y ↦
        let e = (str_eq_iff d.field_key key).0 y in
        let m : get d.field_key values ≡ some raw =
          subst (λ x. get x values ≡ some raw) (sym e) s in
        let k : (coerce_value py raw d >>= λ v.
        prepare_each py values ds >>= λ rest. ok ((d.field_key, v) ∷ rest))
            ≡ ok fields =
          rw (m, prepare_each) at h in
        let (v, e1, k1) = >>=-eq-ok (coerce_value py raw d) _ k in
        let (rest, e2, k2) = >>=-eq-ok (prepare_each py values ds) _ k1 in
        (
          d,
          v,
          inl refl,
          e,
          e1,
          subst (λ f. get key f ≡ some v) (ok_inj {a = (d.field_key, v) ∷ rest} k2) (rw y refl),
        )
    | inr n ↦
        let t2 : has_key key ds ≡ true = rw n at t in
        elim (Option-cases (get d.field_key values)) [
          | inl m ↦
              let k : (raise_if d.is_required (core conflict) >> prepare_each py values ds)
                  ≡ ok fields =
                rw (m, prepare_each) at h in
              let (u, e, k1) = >>=-eq-ok (raise_if d.is_required (core conflict)) _ k in
              let (x, w, mx, a, b, c) = given-IsCoerced raw ds fields k1 s t2 in
              (x, w, inr mx, a, b, c)
          | inr (other, m) ↦
              let k : (coerce_value py other d >>= λ v.
              prepare_each py values ds >>= λ rest. ok ((d.field_key, v) ∷ rest))
                  ≡ ok fields =
                rw (m, prepare_each) at h in
              let (v, e1, k1) = >>=-eq-ok (coerce_value py other d) _ k in
              let (rest, e2, k2) = >>=-eq-ok (prepare_each py values ds) _ k1 in
              let (x, w, mx, a, b, c) = given-IsCoerced raw ds rest e2 s t2 in
              (
                x,
                w,
                inr mx,
                a,
                b,
                subst (λ f. get key f ≡ some w) (ok_inj {a = (d.field_key, v) ∷ rest} k2) (rw n c),
              )
        ]
  ]

module _ (py : Builtins) (values : Fields) where
  prepared_apart :
      (key : String) (ds : List FieldDefinition) (fields : Fields)
      → prepare_each py values ds ≡ ok fields
      → All (λ (d : FieldDefinition). str_eq key d.field_key ≡ false) ds
      → All (λ f. str_eq key f.0 ≡ false) fields
  unfolding prepare_each
  prepared_apart key [] fields h a =
      subst (All (λ f. str_eq key f.0 ≡ false)) (ok_inj {a = []} h) tt
  prepared_apart key (d ∷ ds) fields h a = elim (Option-cases (get d.field_key values)) [
    | inl m ↦
        let k : (raise_if d.is_required (core conflict) >> prepare_each py values ds) ≡ ok fields =
          rw (m, prepare_each) at h in
        let (u, e, k1) = >>=-eq-ok (raise_if d.is_required (core conflict)) _ k in
        prepared_apart key ds fields k1 a.1
    | inr (raw, m) ↦
        let k : (coerce_value py raw d >>= λ v.
        prepare_each py values ds >>= λ rest. ok ((d.field_key, v) ∷ rest))
            ≡ ok fields =
          rw (m, prepare_each) at h in
        let (v, e, k1) = >>=-eq-ok (coerce_value py raw d) _ k in
        let (rest, e2, k2) = >>=-eq-ok (prepare_each py values ds) _ k1 in
        subst (All (λ f. str_eq key f.0 ≡ false)) (ok_inj {a = (d.field_key, v) ∷ rest} k2)
          (a.0, prepared_apart key ds rest e2 a.1)
  ]

  -- Definitions of distinct keys prepare fields of distinct keys.
  pub prepare_each-HaveDistinctKeys :
      (ds : List FieldDefinition) (fields : Fields)
      → prepare_each py values ds ≡ ok fields
      → Pairwise (λ (d e : FieldDefinition). str_eq d.field_key e.field_key ≡ false) ds
      → Pairwise (λ (f g : String × Value). str_eq f.0 g.0 ≡ false) fields
  unfolding prepare_each
  prepare_each-HaveDistinctKeys [] fields h a =
      subst (Pairwise (λ (f g : String × Value). str_eq f.0 g.0 ≡ false)) (ok_inj {a = []} h) tt
  prepare_each-HaveDistinctKeys (d ∷ ds) fields h a = elim (Option-cases (get d.field_key values)) [
    | inl m ↦
        let k : (raise_if d.is_required (core conflict) >> prepare_each py values ds) ≡ ok fields =
          rw (m, prepare_each) at h in
        let (u, e, k1) = >>=-eq-ok (raise_if d.is_required (core conflict)) _ k in
        prepare_each-HaveDistinctKeys ds fields k1 a.1
    | inr (raw, m) ↦
        let k : (coerce_value py raw d >>= λ v.
        prepare_each py values ds >>= λ rest. ok ((d.field_key, v) ∷ rest))
            ≡ ok fields =
          rw (m, prepare_each) at h in
        let (v, e, k1) = >>=-eq-ok (coerce_value py raw d) _ k in
        let (rest, e2, k2) = >>=-eq-ok (prepare_each py values ds) _ k1 in
        subst (Pairwise (λ (f g : String × Value). str_eq f.0 g.0 ≡ false))
          (ok_inj {a = (d.field_key, v) ∷ rest} k2)
          (prepared_apart d.field_key ds rest e2 a.0, prepare_each-HaveDistinctKeys ds rest e2 a.1)
  ]

of_not : (b : Bool) → not b ≡ false → b ≡ true
of_not true h = refl
of_not false h = cc

known :
    (key : String) (raw : Value) (values : Fields) (ds : List FieldDefinition)
    → get key values ≡ some raw
    → is_empty (unknown_keys values ds) ≡ true
    → has_key key ds ≡ true
known key raw [] ds s e = cc
known key raw ((k, v) ∷ rest) ds s e = elim (Bool-cases (has_key k ds)) [
  | inr n ↦ let z : false ≡ true = rw n at e in cc
  | inl y ↦ elim (Bool-cases (str_eq k key)) [
    | inl q ↦ subst (λ x. has_key x ds ≡ true) ((str_eq_iff k key).0 q) y
    | inr n ↦
        let s2 : get key rest ≡ some raw = rw n at s in
        let e2 : is_empty (unknown_keys rest ds) ≡ true = rw y at e in known key raw rest ds s2 e2
  ]
]

-- Values that pass validation come back key by key: a key that was given comes back with the value that
-- the conversion to the type of a definition of the key gave, and a key that was not given does not
-- come back. The definition is one of the tenant that applies.
pub validate_and_prepare-IsPrepared :
    (py : Builtins) (definitions : List FieldDefinition) (tenant_id : ℕ) (entity_type : String)
    (values applies_to fields : Fields) (key : String)
    → validate_and_prepare py definitions tenant_id entity_type values applies_to ≡ ok fields
    → IsPrepared py
        (applicable applies_to (list_definitions definitions tenant_id entity_type))
        values
        key
        fields
unfolding validate_and_prepare
validate_and_prepare-IsPrepared py definitions tenant_id entity_type values applies_to fields key
      h =
    let ds = applicable applies_to (list_definitions definitions tenant_id entity_type) in
    let (u, e, h1) =
      >>=-eq-ok (raise_if (not (is_empty (unknown_keys values ds))) (core conflict)) _ h in
    elim (Option-cases (get key values)) [
      | inl n ↦ inl (n, absent_kept py values key ds fields h1 n)
      | inr (raw, s) ↦ inr (
        raw,
        s,
        given-IsCoerced py values key raw ds fields h1 s
            (known key raw values ds s (of_not _ (raise_if-eq-ok _ _ e))),
      )
    ]

-- A key that was given as `None` comes back as `None`.
pub null_prepared :
    (py : Builtins) (definitions : List FieldDefinition) (tenant_id : ℕ) (entity_type : String)
    (values applies_to fields : Fields) (key : String)
    → validate_and_prepare py definitions tenant_id entity_type values applies_to ≡ ok fields
    → get key values ≡ some null
    → get key fields ≡ some null
unfolding coerce_value
null_prepared py definitions tenant_id entity_type values applies_to fields key h s =
    elim (validate_and_prepare-IsPrepared py definitions tenant_id entity_type values applies_to
      fields key h) [
        | inl (n, m) ↦ cc
        | inr (raw, e, (d, w, md, k, c, g)) ↦
            let q : raw ≡ null = cc in
            let c2 : ok null ≡ ok w = subst (λ r. coerce_value py r d ≡ ok w) q c in
            g ∙ ap some (sym (ok_inj c2))
      ]

-- The fields that pass validation have distinct keys, where the definitions have.
pub validate_and_prepare-HaveDistinctKeys :
    (py : Builtins) (definitions : List FieldDefinition) (tenant_id : ℕ) (entity_type : String)
    (values fields : Fields)
    → validate_and_prepare py definitions tenant_id entity_type values [] ≡ ok fields
    → Pairwise
        (λ (d e : FieldDefinition). str_eq d.field_key e.field_key ≡ false)
        (list_definitions definitions tenant_id entity_type)
    → Pairwise (λ (f g : String × Value). str_eq f.0 g.0 ≡ false) fields
unfolding validate_and_prepare applicable
validate_and_prepare-HaveDistinctKeys py definitions tenant_id entity_type values fields h a =
    let ds = list_definitions definitions tenant_id entity_type in
    let (u, e, h1) =
      >>=-eq-ok (raise_if (not (is_empty (unknown_keys values ds))) (core conflict)) _ h in
    prepare_each-HaveDistinctKeys py values ds fields h1 a
