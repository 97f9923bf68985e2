-- ===== src/Parties/FieldRoundTrip.antt =====
-- What is written by `upsert_values` of backend/app/modules/parties/custom_fields.py is read back by
-- `get_values_map`.
use coreops_platform.Base.{
  ℕ, ◌≡◌, refl, sym, subst, ◌∙◌, String, true, false, Option, none, some, List, [], ◌∷◌, map,
  filter, find?, update_where, ==_refl, str_eq, str_eq_iff, Bool-cases, inl, inr, All, Pairwise,
  if◌then◌else◌,
}
use coreops_platform.Parties.Values.{Value}
use coreops_platform.Parties.CustomFields.{
  Fields, FieldValue, get, is_of, is_field, entry_of, get_values_map, upsert_found, upsert_value,
  upsert_values,
}

pub str_eq_refl : (s : String) → str_eq s s ≡ true
str_eq_refl s = (str_eq_iff s s).1 refl

-- The value written, or the value that was there.
abbrev pub or_else : Option Value → Option Value → Option Value
or_else none old = old
or_else (some v) old = some v

abbrev pub HaveDistinctKeys : Fields → Type 0
HaveDistinctKeys = Pairwise (λ f g. str_eq f.0 g.0 ≡ false)

module _ (tenant_id : ℕ) (entity_type : String) (entity_id : ℕ) where
  abbrev written : String → Value → List FieldValue → List FieldValue
  written key v rows =
      update_where (is_field tenant_id entity_type entity_id key)
        (λ (r : FieldValue). record r { value = v }) rows

  abbrev values : List FieldValue → Fields
  values rows = map entry_of (filter (is_of tenant_id entity_type entity_id) rows)

  written_elsewhere :
      (key k : String) (v : Value) (rows : List FieldValue)
      → str_eq key k ≡ false
      → get k (values (written key v rows)) ≡ get k (values rows)
  written_elsewhere key k v [] n = refl
  written_elsewhere key k v (r ∷ rows) n =
      let ih = written_elsewhere key k v rows n in
      elim (Bool-cases (is_of tenant_id entity_type entity_id r)) [
        | inr f ↦ rw (f, f) ih
        | inl t ↦ elim (Bool-cases (str_eq r.field_key key)) [
          | inr g ↦ rw (t, g, t) (rw ih refl)
          | inl e ↦
              let q : str_eq r.field_key k ≡ false = rw ((str_eq_iff r.field_key key).0 e) n in
              rw (t, e, t, q) ih
        ]
      ]

  written_here :
      (key : String) (v : Value) (row : FieldValue) (rows : List FieldValue)
      → find? (is_field tenant_id entity_type entity_id key) rows ≡ some row
      → get key (values (written key v rows)) ≡ some v
  written_here key v row [] h = cc
  written_here key v row (r ∷ rows) h =
      elim (Bool-cases (is_of tenant_id entity_type entity_id r)) [
        | inr f ↦
            let k : find? (is_field tenant_id entity_type entity_id key) rows ≡ some row =
              rw f at h in
            rw (f, f) (written_here key v row rows k)
        | inl t ↦ elim (Bool-cases (str_eq r.field_key key)) [
          | inl e ↦ rw (t, e, t, e) refl
          | inr g ↦
              let k : find? (is_field tenant_id entity_type entity_id key) rows ≡ some row =
                rw (t, g) at h in
              rw (t, g, t, g) (written_here key v row rows k)
        ]
      ]

  get-upsert_found :
      (found : Option FieldValue) (key k : String) (v : Value) (rows : List FieldValue)
      → find? (is_field tenant_id entity_type entity_id key) rows ≡ found
      → get k (values (upsert_found found tenant_id entity_type entity_id key v rows))
        ≡ (if str_eq key k then some v else get k (values rows))
  get-upsert_found none key k v rows s =
      rw (==_refl tenant_id, str_eq_refl entity_type, ==_refl entity_id) refl
  get-upsert_found (some row) key k v rows s = elim (Bool-cases (str_eq key k)) [
    | inr f ↦ rw f (written_elsewhere key k v rows f)
    | inl t ↦ rw t (
        subst (λ x. get x (values (written key v rows)) ≡ some v) ((str_eq_iff key k).0 t)
          (written_here key v row rows s))
  ]

  get-upsert_value :
      (key k : String) (v : Value) (rows : List FieldValue)
      → get k (values (upsert_value tenant_id entity_type entity_id (key, v) rows))
        ≡ (if str_eq key k then some v else get k (values rows))
  unfolding upsert_value
  get-upsert_value key k v rows =
      get-upsert_found (find? (is_field tenant_id entity_type entity_id key) rows) key k v rows refl

absent :
    (key k : String) (fields : Fields)
    → All (λ f. str_eq key f.0 ≡ false) fields
    → str_eq key k ≡ true
    → get k fields ≡ none
absent key k [] h t = refl
absent key k (f ∷ fields) h t =
    let e : key ≡ k = (str_eq_iff key k).0 t in
    let n : str_eq f.0 k ≡ false = elim (Bool-cases (str_eq f.0 k)) [
      | inr g ↦ g
      | inl g ↦
          let y : str_eq key f.0 ≡ true =
            (str_eq_iff key f.0).1 (e ∙ sym ((str_eq_iff f.0 k).0 g)) in
          let z = h.0 in cc
    ] in
    rw n (absent key k fields h.1 t)

-- After a dict of fields is written to an entity, each key reads as the value written, or as it did
-- before where nothing was written under it.
pub get_values_map-upsert_values :
    (tenant_id : ℕ) (entity_type : String) (entity_id : ℕ) (fields : Fields)
    (rows : List FieldValue) (k : String)
    → HaveDistinctKeys fields
    → get k (
        get_values_map
          (upsert_values tenant_id entity_type entity_id fields rows)
          tenant_id
          entity_type
          entity_id)
      ≡ or_else (get k fields) (get k (get_values_map rows tenant_id entity_type entity_id))
unfolding upsert_values get_values_map
get_values_map-upsert_values t e i [] rows k d = refl
get_values_map-upsert_values t e i ((key, v) ∷ fields) rows k d =
    let ih = get_values_map-upsert_values t e i fields (upsert_value t e i (key, v) rows) k d.1 in
    let one = get-upsert_value t e i key k v rows in
    elim (Bool-cases (str_eq key k)) [
      | inl y ↦ rw (y, ih, absent key k fields d.0 y, one, y) refl
      | inr n ↦ rw (n, ih, one, n) refl
    ]
