-- ===== src/Parties/CustomFields.antt =====
-- `CustomFieldService` of backend/app/modules/parties/custom_fields.py, over the rows of models.py.
use coreops_platform.Base.{
  ℕ, String, Bool, true, false, not, ◌&&◌, ◌||◌, Option, none, some, List, [], ◌∷◌, map, Result, ok,
  err, ◌>>=◌, ◌>>◌, raise_if, or_raise, ◌==◌, str_eq, filter, find?, update_where, is_empty,
  if◌then◌else◌,
}
use coreops_platform.Platform.{CoreError, conflict}
use coreops_platform.Parties.Values.{Value, null, truth, text, many, other, value_eq, Builtins}

-- `CustomFieldType`; `long_text` is TEXT.
pub data FieldType : Type 0 where
  string long_text number money boolean date datetime select multi_select json reference file :
      FieldType

-- A dict of values, or of what a definition applies to.
abbrev pub Fields : Type 0
Fields = List (String × Value)

-- `CustomFieldDefinition`. The type is absent where its text names none; the choices are those of
-- the options.
pub record FieldDefinition : Type 0 where
  pub tenant_id : ℕ
  pub entity_type : String
  pub field_key : String
  pub field_type : Option FieldType
  pub is_required : Bool
  pub choices : List Value
  pub applies_to : Fields

-- `CustomFieldValue`
pub record FieldValue : Type 0 where
  pub tenant_id : ℕ
  pub entity_type : String
  pub entity_id : ℕ
  pub field_key : String
  pub value : Value

-- An exception of the platform, or the error of a conversion to a number.
pub data FieldError : Type 0 where
  core : CoreError → FieldError
  value_error : FieldError

-- `values.get(key)`
abbrev pub get : String → Fields → Option Value
get key [] = none
get key ((k, v) ∷ rest) = let later = get key rest in if str_eq k key then some v else later

unfoldable pub list_definitions : List FieldDefinition → ℕ → String → List FieldDefinition
list_definitions definitions tenant_id entity_type =
    filter (λ (d : FieldDefinition). d.tenant_id == tenant_id && str_eq d.entity_type entity_type)
      definitions

abbrev pub is_of : ℕ → String → ℕ → FieldValue → Bool
is_of tenant_id entity_type entity_id v =
    v.tenant_id == tenant_id && str_eq v.entity_type entity_type && v.entity_id == entity_id

abbrev pub entry_of : FieldValue → String × Value
entry_of v = (v.field_key, v.value)

-- A field has one row of an entity, so the order of the rows does not matter.
unfoldable pub get_values_map : List FieldValue → ℕ → String → ℕ → Fields
get_values_map rows tenant_id entity_type entity_id =
    map entry_of (filter (is_of tenant_id entity_type entity_id) rows)

-- `all(context.get(key) == val ...)`; a missing key is `None`.
abbrev pub get_or_null : Option Value → Value
get_or_null none = null
get_or_null (some v) = v

unfoldable pub matches_applies_to : Fields → Fields → Bool
matches_applies_to [] context = true
matches_applies_to ((k, v) ∷ rest) context =
    value_eq (get_or_null (get k context)) v && matches_applies_to rest context

-- `if applies_to:`
unfoldable pub applicable : Fields → List FieldDefinition → List FieldDefinition
unfolding matches_applies_to
applicable applies_to definitions =
    if is_empty applies_to
    then definitions
    else filter
        (λ (d : FieldDefinition).
          is_empty d.applies_to || matches_applies_to d.applies_to applies_to)
        definitions

abbrev pub has_key : String → List FieldDefinition → Bool
has_key key [] = false
has_key key (d ∷ ds) = let rest = has_key key ds in if str_eq d.field_key key then true else rest

-- `set(values.keys()) - allowed_keys`
abbrev pub unknown_keys : Fields → List FieldDefinition → List String
unknown_keys [] definitions = []
unknown_keys ((k, v) ∷ rest) definitions =
    let others = unknown_keys rest definitions in
    if has_key k definitions then others else k ∷ others

abbrev pub value_in : Value → List Value → Bool
value_in v [] = false
value_in v (x ∷ xs) = let rest = value_in v xs in if value_eq x v then true else rest

abbrev pub is_true_text : String → Bool
is_true_text s = str_eq s "1" || str_eq s "true" || str_eq s "yes" || str_eq s "on"

module _ (py : Builtins) where
  abbrev pub as_boolean : Value → Value
  as_boolean (truth b) = truth b
  as_boolean raw = truth (is_true_text (py.lower (py.str_of raw)))

  abbrev pub as_list : Value → Result FieldError Value
  as_list (many n) = ok (many n)
  as_list _ = err (core conflict)

  abbrev pub as_choice : List Value → Value → Result FieldError Value
  as_choice choices raw =
      if not (is_empty choices) && not (value_in raw choices) then err (core conflict) else ok raw

  abbrev pub as_decimal : Option String → Result FieldError Value
  as_decimal none = err value_error
  as_decimal (some s) = ok (text s)

  -- A value that is not `None`, by the type of the field.
  unfoldable pub coerce_by : Option FieldType → List Value → Value → Result FieldError Value
  coerce_by none choices raw = ok raw
  coerce_by (some FieldType.string) choices raw = ok (text (py.str_of raw))
  coerce_by (some FieldType.long_text) choices raw = ok (text (py.str_of raw))
  coerce_by (some FieldType.number) choices raw = or_raise (py.float_of raw) value_error
  coerce_by (some FieldType.money) choices raw = as_decimal (py.decimal_text raw)
  coerce_by (some FieldType.boolean) choices raw = ok (as_boolean raw)
  coerce_by (some FieldType.date) choices raw = ok (text (py.iso_of raw))
  coerce_by (some FieldType.datetime) choices raw = ok (text (py.iso_of raw))
  coerce_by (some FieldType.select) choices raw = as_choice choices raw
  coerce_by (some FieldType.multi_select) choices raw = as_list raw
  coerce_by (some FieldType.json) choices raw = ok raw
  coerce_by (some FieldType.reference) choices raw = ok raw
  coerce_by (some FieldType.file) choices raw = ok raw

  unfoldable pub coerce_value : Value → FieldDefinition → Result FieldError Value
  unfolding coerce_by
  coerce_value null d = ok null
  coerce_value (truth b) d = coerce_by d.field_type d.choices (truth b)
  coerce_value (text s) d = coerce_by d.field_type d.choices (text s)
  coerce_value (many n) d = coerce_by d.field_type d.choices (many n)
  coerce_value (other n) d = coerce_by d.field_type d.choices (other n)

  -- The loop over the definitions.
  unfoldable pub prepare_each : Fields → List FieldDefinition → Result FieldError Fields
  unfolding coerce_value
  prepare_each values [] = ok []
  prepare_each values (d ∷ ds) = elim (get d.field_key values) [
    | none ↦ raise_if d.is_required (core conflict) >> prepare_each values ds
    | some raw ↦ do
      v ← coerce_value raw d
      rest ← prepare_each values ds
      ok ((d.field_key, v) ∷ rest)
  ]

  unfoldable pub validate_and_prepare :
      List FieldDefinition → ℕ → String → Fields → Fields → Result FieldError Fields
  unfolding list_definitions applicable prepare_each
  validate_and_prepare all_definitions tenant_id entity_type values applies_to = do
    let definitions = applicable applies_to (list_definitions all_definitions tenant_id entity_type)
    raise_if (not (is_empty (unknown_keys values definitions))) (core conflict)
    prepare_each values definitions

abbrev pub is_field : ℕ → String → ℕ → String → FieldValue → Bool
is_field tenant_id entity_type entity_id field_key v =
    is_of tenant_id entity_type entity_id v && str_eq v.field_key field_key

-- What is done by whether the entity has a row of the field.
abbrev pub upsert_found :
    Option FieldValue → ℕ → String → ℕ → String → Value → List FieldValue → List FieldValue
upsert_found none tenant_id entity_type entity_id key value rows =
    record {
      tenant_id = tenant_id;
      entity_type = entity_type;
      entity_id = entity_id;
      field_key = key;
      value = value;
    }
    ∷ rows
upsert_found (some row) tenant_id entity_type entity_id key value rows =
    update_where (is_field tenant_id entity_type entity_id key)
      (λ (v : FieldValue). record v { value = value }) rows

unfoldable pub upsert_value : ℕ → String → ℕ → String × Value → List FieldValue → List FieldValue
upsert_value tenant_id entity_type entity_id (key, value) rows =
    upsert_found (find? (is_field tenant_id entity_type entity_id key) rows) tenant_id entity_type
      entity_id key value rows

unfoldable pub upsert_values : ℕ → String → ℕ → Fields → List FieldValue → List FieldValue
unfolding upsert_value
upsert_values tenant_id entity_type entity_id [] rows = rows
upsert_values tenant_id entity_type entity_id (field ∷ fields) rows =
    upsert_values tenant_id entity_type entity_id fields
      (upsert_value tenant_id entity_type entity_id field rows)
