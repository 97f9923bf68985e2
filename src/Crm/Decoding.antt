-- ===== src/Crm/Decoding.antt =====
-- A decoder of policies for the runs: it reads each field of backend/app/modules/process_overlay's
-- policy_schema.py under its name, and wants the type declared.
use coreops_platform.Base.{
  ℕ, String, Bool, Option, none, some, List, [], ◌∷◌, Result, ok, err, ◌>>=◌, str_eq, if◌then◌else◌,
}
use coreops_platform.Crm.Policy.{
  Json, Elements, Entries, Conditions, Transition, PolicySnapshot, PolicyError,
}

abbrev Decoded : Type 0 → Type 0
Decoded A = Result PolicyError A

abbrev get : String → Entries → Decoded Json
get name Entries.no_entries = err PolicyError.invalid
get name (Entries.entry key value es) =
    let rest = get name es in if str_eq key name then ok value else rest

abbrev entries_of : Json → Decoded Entries
entries_of (Json.object es) = ok es
entries_of _ = err PolicyError.invalid

abbrev elements_of : Json → Decoded Elements
elements_of (Json.list xs) = ok xs
elements_of _ = err PolicyError.invalid

abbrev number_of : Json → Decoded ℕ
number_of (Json.number n) = ok n
number_of _ = err PolicyError.invalid

abbrev text_of : Json → Decoded String
text_of (Json.text s) = ok s
text_of _ = err PolicyError.invalid

abbrev truth_of : Json → Decoded Bool
truth_of (Json.truth b) = ok b
truth_of _ = err PolicyError.invalid

abbrev texts_of : Elements → Decoded (List String)
texts_of Elements.no_elements = ok []
texts_of (Elements.element x xs) = do s ← text_of x; rest ← texts_of xs; ok (s ∷ rest)

abbrev texts_at : String → Entries → Decoded (List String)
texts_at name es = do j ← get name es; xs ← elements_of j; texts_of xs

abbrev text_at : String → Entries → Decoded String
text_at name es = get name es >>= text_of

abbrev conditions_of : Json → Decoded Conditions
conditions_of j = do
  es ← entries_of j
  fields ← texts_at "required_fields" es
  roles ← texts_at "required_roles" es
  flag ← get "requires_approval" es
  approval ← truth_of flag
  tasks ← texts_at "required_task_codes" es
  documents ← texts_at "required_document_types" es
  ok (record {
    required_fields = fields;
    required_roles = roles;
    requires_approval = approval;
    required_task_codes = tasks;
    required_document_types = documents;
  })

abbrev transition_of : Json → Decoded Transition
transition_of j = do
  es ← entries_of j
  from ← text_at "from_stage_code" es
  to ← text_at "to_stage_code" es
  raw ← get "conditions" es
  conditions ← conditions_of raw
  ok (record { from_stage_code = from; to_stage_code = to; conditions = conditions })

abbrev transitions_of : Elements → Decoded (List Transition)
transitions_of Elements.no_elements = ok []
transitions_of (Elements.element x xs) = do
  t ← transition_of x
  rest ← transitions_of xs
  ok (t ∷ rest)

abbrev policy_of : Json → Decoded PolicySnapshot
policy_of j = do
  es ← entries_of j
  raw_version ← get "schema_version" es
  version ← number_of raw_version
  template_code ← text_at "process_template_code" es
  pipeline_code ← text_at "pipeline_code" es
  stage_codes ← texts_at "stage_codes" es
  raw_transitions ← get "transitions" es
  rows ← elements_of raw_transitions
  transitions ← transitions_of rows
  module_requirements ← texts_at "module_requirements" es
  terminal_stage_codes ← texts_at "terminal_stage_codes" es
  ok (record {
    schema_version = version;
    process_template_code = template_code;
    pipeline_code = pipeline_code;
    stage_codes = stage_codes;
    transitions = transitions;
    module_requirements = module_requirements;
    terminal_stage_codes = terminal_stage_codes;
  })

abbrev if_decoded : Decoded PolicySnapshot → Option PolicySnapshot
if_decoded (ok p) = some p
if_decoded (err e) = none

abbrev pub decode : Json → Option PolicySnapshot
decode j = if_decoded (policy_of j)
