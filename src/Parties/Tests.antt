-- ===== src/Parties/Tests.antt =====
-- Custom fields on a work item.
use coreops_platform.Base.{
  ◌≡◌, refl, String, Bool, true, false, none, some, List, [], ◌∷◌, ok, err, str_eq,
}
use coreops_platform.Platform.{conflict}
use coreops_platform.Parties.Values.{Value, null, text, other, Builtins}
use coreops_platform.Parties.CustomFields.{
  FieldType, Fields, FieldDefinition, FieldValue, core, value_error, get, list_definitions,
  get_values_map, applicable, coerce_by, coerce_value, prepare_each, validate_and_prepare,
  upsert_value, upsert_values,
}
use coreops_platform.Parties.Prepared.{IsPrepared, validate_and_prepare-IsPrepared}
use coreops_platform.Parties.FieldRoundTrip.{or_else, get_values_map-upsert_values}

unfoldable field_steps : Unit {0}
unfolding list_definitions get_values_map applicable coerce_by coerce_value prepare_each
    validate_and_prepare upsert_value upsert_values
field_steps = tt

abbrev plain : Builtins
plain = record {
  str_of = λ v. "1";
  float_of = λ v. none;
  decimal_text = λ v. none;
  iso_of = λ v. "2025-01-01";
  strip = λ s. s;
  lower = λ s. s;
}

abbrev definition : String → FieldType → Bool → FieldDefinition
definition key type required = record {
  tenant_id = 1;
  entity_type = "work_item";
  field_key = key;
  field_type = some type;
  is_required = required;
  choices = text "spam" ∷ text "other" ∷ [];
  applies_to = [];
}

abbrev definitions : List FieldDefinition
definitions =
    definition "disposition" FieldType.select true ∷ definition "size" FieldType.number false ∷ []

abbrev row : String → Value → FieldValue
row key v = record {
  tenant_id = 1;
  entity_type = "work_item";
  entity_id = 7;
  field_key = key;
  value = v;
}

accepted_lem :
    validate_and_prepare plain definitions 1 "work_item" (("disposition", text "spam") ∷ []) []
    ≡ ok (("disposition", text "spam") ∷ [])
unfolding field_steps
accepted_lem = refl

not_a_choice_lem :
    validate_and_prepare plain definitions 1 "work_item" (("disposition", text "lost") ∷ []) []
    ≡ err (core conflict)
unfolding field_steps
not_a_choice_lem = refl

not_a_number_lem :
    validate_and_prepare plain definitions 1 "work_item"
      (("disposition", null) ∷ ("size", text "big") ∷ [])
      []
    ≡ err value_error
unfolding field_steps
not_a_number_lem = refl

abbrev two_fields : Fields
two_fields = ("disposition", text "spam") ∷ ("size", other 3) ∷ []

abbrev two_keys : str_eq "disposition" "size" ≡ false
two_keys = refl

get_values_map-upsert_values_example :
    get "size" (
      get_values_map
        (upsert_values 1 "work_item" 7 two_fields (row "size" null ∷ []))
        1
        "work_item"
        7)
    ≡ or_else (some (other 3)) (some null)
get_values_map-upsert_values_example =
    get_values_map-upsert_values 1 "work_item" 7 two_fields (row "size" null ∷ []) "size"
      ((two_keys, tt), (tt, tt))

abbrev given : Fields
given = ("disposition", text "spam") ∷ []

validate_and_prepare-IsPrepared_example :
    IsPrepared plain
      (applicable [] (list_definitions definitions 1 "work_item"))
      given
      "disposition"
      given
validate_and_prepare-IsPrepared_example =
    validate_and_prepare-IsPrepared plain definitions 1 "work_item" given [] given "disposition"
      accepted_lem
