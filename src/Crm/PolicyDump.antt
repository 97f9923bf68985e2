-- ===== src/Crm/PolicyDump.antt =====
-- The fields of a policy of backend/app/modules/process_overlay/policy_schema.py as JSON, in the order of
-- their declaration: what pydantic's `model_dump` is documented to give.
use coreops_platform.Base.{◌≡◌, refl, false, String, List, [], ◌∷◌}
use coreops_platform.Crm.Policy.{
  Json, Elements, Entries, Conditions, Transition, PolicySnapshot, has_forbidden_key,
  element_has_forbidden_key, entry_has_forbidden_key,
}
use coreops_platform.Crm.PolicyKeys.{is_forbidden}

abbrev pub dump_texts : List String → Elements
dump_texts [] = Elements.no_elements
dump_texts (s ∷ ss) = Elements.element (Json.text s) (dump_texts ss)

abbrev pub texts_entry : String → List String → Entries → Entries
texts_entry name ss rest = Entries.entry name (Json.list (dump_texts ss)) rest

abbrev pub dump_conditions : Conditions → Json
dump_conditions c = Json.object (
    texts_entry "required_fields" c.required_fields (
      texts_entry "required_roles" c.required_roles (
        Entries.entry "requires_approval" (Json.truth c.requires_approval) (
          texts_entry "required_task_codes" c.required_task_codes
            (texts_entry "required_document_types" c.required_document_types Entries.no_entries)))))

abbrev pub dump_transitions : List Transition → Elements
dump_transitions [] = Elements.no_elements
dump_transitions (t ∷ ts) =
    Elements.element
      (Json.object (
        Entries.entry "from_stage_code" (Json.text t.from_stage_code) (
          Entries.entry "to_stage_code" (Json.text t.to_stage_code)
            (Entries.entry "conditions" (dump_conditions t.conditions) Entries.no_entries))))
      (dump_transitions ts)

unfoldable pub dumped_fields : PolicySnapshot → Json
dumped_fields p = Json.object (
    Entries.entry "schema_version" (Json.number p.schema_version) (
      Entries.entry "process_template_code" (Json.text p.process_template_code) (
        Entries.entry "pipeline_code" (Json.text p.pipeline_code) (
          texts_entry "stage_codes" p.stage_codes (
            Entries.entry "transitions" (Json.list (dump_transitions p.transitions)) (
              texts_entry "module_requirements" p.module_requirements
                (texts_entry "terminal_stage_codes" p.terminal_stage_codes Entries.no_entries)))))))

texts_allowed : (ss : List String) → element_has_forbidden_key (dump_texts ss) ≡ false
unfolding has_forbidden_key element_has_forbidden_key entry_has_forbidden_key
texts_allowed [] = refl
texts_allowed (s ∷ ss) = texts_allowed ss

conditions_allowed : (c : Conditions) → has_forbidden_key (dump_conditions c) ≡ false
unfolding has_forbidden_key entry_has_forbidden_key is_forbidden
conditions_allowed c =
    rw
      (
        texts_allowed c.required_fields,
        texts_allowed c.required_roles,
        texts_allowed c.required_task_codes,
        texts_allowed c.required_document_types,
      )
      refl

transitions_allowed :
    (ts : List Transition) → element_has_forbidden_key (dump_transitions ts) ≡ false
unfolding has_forbidden_key element_has_forbidden_key entry_has_forbidden_key is_forbidden
transitions_allowed [] = refl
transitions_allowed (t ∷ ts) = rw (conditions_allowed t.conditions) (transitions_allowed ts)

-- No policy is written with a forbidden key.
pub dumped_fields-allowed : (p : PolicySnapshot) → has_forbidden_key (dumped_fields p) ≡ false
unfolding dumped_fields has_forbidden_key entry_has_forbidden_key is_forbidden
dumped_fields-allowed p =
    rw
      (
        texts_allowed p.stage_codes,
        transitions_allowed p.transitions,
        texts_allowed p.module_requirements,
        texts_allowed p.terminal_stage_codes,
      )
      refl
