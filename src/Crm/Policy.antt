-- ===== src/Crm/Policy.antt =====
-- backend/app/modules/process_overlay/policy_schema.py: the policy of a process and its validation.
use coreops_platform.Base.{
  ℕ, String, Bool, true, false, not, ◌&&◌, ◌||◌, Option, List, [], ◌∷◌, map, filter, length, ltb,
  ◌==◌, str_eq, is_empty, Result, ok, ◌>>=◌, ◌>>◌, raise_if, or_raise,
}
use coreops_platform.Platform.Guard.{str_in}
use coreops_platform.Crm.PolicyKeys.{is_forbidden}

-- A JSON value; a list and an object are two types beside it.
mutual
  pub data Json : Type 0 where
    null : Json
    truth : Bool → Json
    number : ℕ → Json
    text : String → Json
    list : Elements → Json
    object : Entries → Json

  pub data Elements : Type 0 where
    no_elements : Elements
    element : Json → Elements → Elements

  pub data Entries : Type 0 where
    no_entries : Entries
    entry : String → Json → Entries → Entries

-- `TransitionConditionsV1`
pub record Conditions : Type 0 where
  pub required_fields : List String
  pub required_roles : List String
  pub requires_approval : Bool
  pub required_task_codes : List String
  pub required_document_types : List String

-- `PolicyTransitionV1`
pub record Transition : Type 0 where
  pub from_stage_code : String
  pub to_stage_code : String
  pub conditions : Conditions

-- `PolicySnapshotV1`
pub record PolicySnapshot : Type 0 where
  pub schema_version : ℕ
  pub process_template_code : String
  pub pipeline_code : String
  pub stage_codes : List String
  pub transitions : List Transition
  pub module_requirements : List String
  pub terminal_stage_codes : List String

-- `reject_forbidden_policy_keys`: whether a key is forbidden at some depth.
unfoldable mutual
  pub has_forbidden_key : Json → Bool
  has_forbidden_key null = false
  has_forbidden_key (truth b) = false
  has_forbidden_key (number n) = false
  has_forbidden_key (text s) = false
  has_forbidden_key (list xs) = element_has_forbidden_key xs
  has_forbidden_key (object es) = entry_has_forbidden_key es

  pub element_has_forbidden_key : Elements → Bool
  element_has_forbidden_key no_elements = false
  element_has_forbidden_key (element x xs) = has_forbidden_key x || element_has_forbidden_key xs

  pub entry_has_forbidden_key : Entries → Bool
  entry_has_forbidden_key no_entries = false
  entry_has_forbidden_key (entry key value es) =
      is_forbidden key || has_forbidden_key value || entry_has_forbidden_key es

-- `ProcessOverlayValidationError`, for a forbidden key or for a policy that does not validate.
pub data PolicyError : Type 0 where
  forbidden_key invalid : PolicyError

abbrev pub has_repeats : List String → Bool
has_repeats [] = false
has_repeats (x ∷ xs) = str_in x xs || has_repeats xs

abbrev pub has_edge : String × String → List (String × String) → Bool
has_edge e [] = false
has_edge e (x ∷ xs) = (str_eq x.0 e.0 && str_eq x.1 e.1) || has_edge e xs

abbrev pub edge_of : Transition → String × String
edge_of t = (t.from_stage_code, t.to_stage_code)

abbrev pub has_text : String → Bool
has_text s = not (str_eq s "")

abbrev pub all_in : List String → List String → Bool
all_in [] stage_codes = true
all_in (x ∷ xs) stage_codes = str_in x stage_codes && all_in xs stage_codes

-- The loop over the transitions, with the edges seen.
abbrev pub is_graph : List String → List (String × String) → List Transition → Bool
is_graph stage_codes seen [] = true
is_graph stage_codes seen (t ∷ ts) =
    str_in t.from_stage_code stage_codes
    && str_in t.to_stage_code stage_codes
    && not (has_edge (edge_of t) seen)
    && is_graph stage_codes (edge_of t ∷ seen) ts

-- `_validate_graph`
unfoldable pub validate_graph : PolicySnapshot → Result PolicyError (Unit {0})
validate_graph p =
    raise_if (is_empty p.stage_codes) invalid
    >> raise_if (not (all_in p.terminal_stage_codes p.stage_codes)) invalid
    >> raise_if (not (is_graph p.stage_codes [] p.transitions)) invalid

-- `strip` is `str.strip`, `text_length` is `len`.
module _ (strip : String → String) (text_length : String → ℕ) where
  -- `_non_empty_strings`, after the bound on the length of the list.
  unfoldable pub non_empty_strings : ℕ → List String → Result PolicyError (List String)
  non_empty_strings max value = do
    raise_if (ltb max (length value)) invalid
    let cleaned = map strip (filter (λ x. has_text x && has_text (strip x)) value)
    raise_if (not (length cleaned == length value)) invalid
    ok cleaned

  abbrev pub all_have_text : List String → Bool
  all_have_text [] = true
  all_have_text (x ∷ xs) = has_text x && all_have_text xs

  -- `_unique_string_list`, after the bound on the length of the list.
  unfoldable pub unique_string_list : ℕ → List String → Result PolicyError (List String)
  unique_string_list max value = do
    raise_if (ltb max (length value)) invalid
    let normalized = map strip value
    raise_if (not (all_have_text normalized)) invalid
    raise_if (has_repeats normalized) invalid
    ok normalized

  -- `Field(min_length=1, max_length=64)`
  abbrev pub is_code : String → Bool
  is_code s = not (ltb (text_length s) 1) && not (ltb 64 (text_length s))

  unfoldable pub validate_conditions : Conditions → Result PolicyError Conditions
  unfolding non_empty_strings
  validate_conditions c = do
    fields ← non_empty_strings 50 c.required_fields
    roles ← non_empty_strings 20 c.required_roles
    tasks ← non_empty_strings 50 c.required_task_codes
    documents ← non_empty_strings 50 c.required_document_types
    ok (record {
      required_fields = fields;
      required_roles = roles;
      requires_approval = c.requires_approval;
      required_task_codes = tasks;
      required_document_types = documents;
    })

  unfoldable pub validate_transition : Transition → Result PolicyError Transition
  unfolding validate_conditions
  validate_transition t = do
    raise_if (not (is_code t.from_stage_code)) invalid
    raise_if (not (is_code t.to_stage_code)) invalid
    conditions ← validate_conditions t.conditions
    ok (record t { conditions = conditions })

  unfoldable pub validate_transitions : List Transition → Result PolicyError (List Transition)
  unfolding validate_transition
  validate_transitions [] = ok []
  validate_transitions (t ∷ ts) = do
    first ← validate_transition t
    rest ← validate_transitions ts
    ok (first ∷ rest)

  -- `PolicySnapshotV1.model_validate`, of a payload whose fields have the types declared.
  unfoldable pub model_validate : PolicySnapshot → Result PolicyError PolicySnapshot
  unfolding unique_string_list validate_transitions validate_graph
  model_validate p = do
    raise_if (not (p.schema_version == 1)) invalid
    raise_if (not (is_code p.process_template_code)) invalid
    raise_if (not (is_code p.pipeline_code)) invalid
    raise_if (is_empty p.stage_codes) invalid
    stage_codes ← unique_string_list 50 p.stage_codes
    raise_if (ltb 100 (length p.transitions)) invalid
    transitions ← validate_transitions p.transitions
    module_requirements ← unique_string_list 20 p.module_requirements
    terminal_stage_codes ← unique_string_list 50 p.terminal_stage_codes
    let policy : PolicySnapshot = record {
      schema_version = p.schema_version;
      process_template_code = p.process_template_code;
      pipeline_code = p.pipeline_code;
      stage_codes = stage_codes;
      transitions = transitions;
      module_requirements = module_requirements;
      terminal_stage_codes = terminal_stage_codes;
    }
    validate_graph policy >> ok policy

  -- `decode` checks the names and the types of the fields.
  unfoldable pub parse_policy_snapshot :
      (Json → Option PolicySnapshot) → Json → Result PolicyError PolicySnapshot
  unfolding model_validate has_forbidden_key
  parse_policy_snapshot decode payload = do
    raise_if (has_forbidden_key payload) forbidden_key
    p ← or_raise (decode payload) invalid
    model_validate p

-- `validate_policy_against_pipeline`
unfoldable pub validate_policy_against_pipeline :
    PolicySnapshot → String → List String → String → Result PolicyError (Unit {0})
validate_policy_against_pipeline p pipeline_code pipeline_stage_codes process_template_code =
    raise_if
      (not (str_eq p.pipeline_code pipeline_code)
        || not (str_eq p.process_template_code process_template_code)
        || not (all_in p.stage_codes pipeline_stage_codes))
      invalid
