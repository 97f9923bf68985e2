-- ===== src/Crm/Scenario.antt =====
-- A tenant with a pipeline of three stages and an active process on it: the data of the tests of
-- backend/app/modules/workflows and process_overlay.
use coreops_platform.Base.{ℕ, String, Bool, true, false, none, some, [], ◌∷◌, Result, ok, err}
use coreops_platform.Base.Int.{pos}
use coreops_platform.Platform.{Platform}
use coreops_platform.Parties.Values.{text, truth}
use coreops_platform.Parties.CustomFields.{
  FieldType, Fields, FieldDefinition, list_definitions, get_values_map, applicable,
  matches_applies_to, coerce_by, coerce_value, prepare_each, validate_and_prepare, upsert_value,
  upsert_values,
}
use coreops_platform.Crm.PolicyDump.{dumped_fields}
use coreops_platform.Crm.PolicyKeys.{is_forbidden}
use coreops_platform.Crm.Policy.{
  Json, has_forbidden_key, element_has_forbidden_key, entry_has_forbidden_key, Conditions,
  Transition, PolicySnapshot, validate_graph, non_empty_strings, unique_string_list,
  validate_conditions, validate_transition, validate_transitions, model_validate,
  parse_policy_snapshot, validate_policy_against_pipeline,
}
use coreops_platform.Crm.Model.{
  WorkItemStatus, WorkItemCreate, PipelineStage, Configuration, ActivationState, Version, Crm,
  CrmError, Session, Python,
}
use coreops_platform.Crm.Repository.{
  get_pipeline, get_stage, get_stage_by_code, get_work_item, get_party, get_configuration,
  get_configuration_by_pipeline, get_definition_version, get_definition_version_for_configuration,
  get_run, get_active_run_for_work_item, get_template_by_id, max_version_number,
}
use coreops_platform.Crm.Publication.{validate_module_requirements, publish_definition_version}
use coreops_platform.Crm.Guard.{
  parse_policy, check_pinned, check_run, assert_transition_allowed, record_applied_transition,
}
use coreops_platform.Crm.LeadTasks.{
  parse_uuid, sla_minutes, template_code, activity_flag, validate_config,
  load_lead_automation_config, assert_assignee_active_same_tenant, get_existing_automation_task,
  create_unless_existing, maybe_create_process_run_first_contact_task,
}
use coreops_platform.Crm.ProcessRuns.{
  startable_version, new_run, insert_run, start_run, get_active_run_or_raise, complete_run,
  cancel_run,
}
use coreops_platform.Crm.WorkItems.{
  initial_stage, add_participants, write_note, maybe_auto_start_process_run, create_work_item,
  target_stage,
}
use coreops_platform.Crm.Moves.{
  enter_stage, move_stage, update_stage, update_work_item, close_work_item, reopen_work_item,
  add_activity, add_task, delete_work_item,
}

-- All that a run of the operations computes through.
unfoldable pub crm_steps : Unit {0}
unfolding dumped_fields is_forbidden has_forbidden_key element_has_forbidden_key
    entry_has_forbidden_key list_definitions get_values_map applicable matches_applies_to coerce_by
    coerce_value prepare_each validate_and_prepare upsert_value upsert_values validate_graph
    non_empty_strings unique_string_list validate_conditions validate_transition
    validate_transitions model_validate parse_policy_snapshot get_pipeline get_stage
    get_stage_by_code get_work_item get_party get_configuration get_configuration_by_pipeline
    get_definition_version get_definition_version_for_configuration get_run
    get_active_run_for_work_item parse_policy check_pinned check_run assert_transition_allowed
    record_applied_transition parse_uuid sla_minutes template_code activity_flag validate_config
    load_lead_automation_config assert_assignee_active_same_tenant get_existing_automation_task
    create_unless_existing maybe_create_process_run_first_contact_task startable_version new_run
    insert_run start_run get_active_run_or_raise complete_run cancel_run initial_stage
    add_participants write_note maybe_auto_start_process_run create_work_item target_stage
    enter_stage move_stage update_stage update_work_item close_work_item reopen_work_item
    add_activity add_task delete_work_item
crm_steps = tt

-- All that a publication computes through.
unfoldable pub publish_steps : Unit {0}
unfolding dumped_fields get_pipeline get_configuration get_template_by_id max_version_number
    validate_policy_against_pipeline validate_module_requirements publish_definition_version
publish_steps = tt

abbrev pub no_conditions : Conditions
no_conditions = record {
  required_fields = [];
  required_roles = [];
  requires_approval = false;
  required_task_codes = [];
  required_document_types = [];
}

abbrev pub policy_edge : String → String → Transition
policy_edge from to = record {
  from_stage_code = from;
  to_stage_code = to;
  conditions = no_conditions;
}

abbrev pub sales_policy : PolicySnapshot
sales_policy = record {
  schema_version = 1;
  process_template_code = "sales";
  pipeline_code = "leads";
  stage_codes = "new_lead" ∷ "qualified" ∷ "rejected" ∷ [];
  transitions =
      policy_edge "new_lead" "qualified"
      ∷ policy_edge "qualified" "rejected"
      ∷ policy_edge "rejected" "new_lead"
      ∷ [];
  module_requirements = [];
  terminal_stage_codes = "rejected" ∷ [];
}

-- Texts have no spaces around them here, and the stored version is written as one JSON number.
abbrev pub python : Python
python = record {
  builtins = record {
    str_of = λ v. "1";
    float_of = λ v. none;
    decimal_text = λ v. none;
    iso_of = λ v. "2025-01-01";
    strip = λ s. s;
    lower = λ s. s;
  };
  int_of = λ v. some (pos 60);
  uuid_of = λ s. some 7;
  text_length = λ s. 8;
  decode = λ j. some sales_policy;
  dump = λ p. Json.number 1;
}

abbrev pub stage : ℕ → String → Bool → PipelineStage
stage id code is_terminal = record {
  id = id;
  pipeline_id = 10;
  code = code;
  name = code;
  sort_order = id;
  is_terminal = is_terminal;
}

abbrev pub field : String → FieldType → FieldDefinition
field key type = record {
  tenant_id = 1;
  entity_type = "work_item";
  field_key = key;
  field_type = some type;
  is_required = false;
  choices = [];
  applies_to = [];
}

abbrev pub no_platform : Platform
no_platform = record {
  definitions = [];
  modules = [];
  subscriptions = [];
  features = [];
  plan_features = [];
  usage_limits = [];
  usage_events = [];
}

abbrev pub configuration : Configuration
configuration = record {
  id = 20;
  tenant_id = 1;
  process_template_id = 30;
  pipeline_id = 10;
  activation_state = ActivationState.active;
  active_definition_version_id = some 21;
}

abbrev pub version : Version
version = record {
  id = 21;
  tenant_id = 1;
  configuration_id = 20;
  version_number = 1;
  pipeline_id = 10;
  policy_snapshot_json = Json.number 1;
  module_requirements = [];
}

abbrev pub lead_automation : Fields
lead_automation = ("enabled", truth true) ∷ ("default_assignee_user_id", text "7") ∷ []

abbrev pub empty_crm : Crm
empty_crm = record {
  platform = no_platform;
  pipelines =
      record { id = 10; tenant_id = 1; code = "leads"; name = "Leads"; is_default = true } ∷ [];
  stages = stage 11 "new_lead" false ∷ stage 12 "qualified" false ∷ stage 13 "rejected" true ∷ [];
  items = [];
  participants = [];
  activities = [];
  tasks = [];
  field_definitions =
      field "disposition" FieldType.select ∷ field "disposition_note" FieldType.long_text ∷ [];
  field_values = [];
  parties = [];
  templates = [];
  configurations = configuration ∷ [];
  versions = version ∷ [];
  runs = [];
  lead_settings = record { tenant_id = 1; lead_automation = some lead_automation } ∷ [];
  memberships = record { tenant_id = 1; user_id = 7; is_active = true } ∷ [];
  users = record { id = 7; is_active = true } ∷ [];
}

abbrev pub session : ℕ → ℕ → Session
session new_id new_run_id = record {
  tenant_id = 1;
  user_id = 7;
  now = 100;
  new_id = new_id;
  new_run_id = new_run_id;
}

abbrev pub lead : WorkItemCreate
lead = record {
  pipeline_id = 10;
  stage_id = none;
  work_item_type = "lead";
  title = "Lead";
  description = none;
  primary_party_id = none;
  status = WorkItemStatus.opened;
  amount = none;
  currency = none;
  source = none;
  participants = [];
  custom_fields = ("source_note", text "from the site") ∷ [];
}

-- The tables that a call returned.
abbrev pub or_before : Crm → Result CrmError Crm → Crm
or_before c (ok d) = d
or_before c (err e) = c
