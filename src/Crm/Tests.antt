-- ===== src/Crm/Tests.antt =====
-- Runs of the work items and of the process overlay on concrete tables.
use coreops_platform.Base.{
  ◌≡◌, ◌↔◌, refl, true, false, none, some, [], ◌∷◌, Result, ok, err, inl, map, Elem, All, Pairwise,
  arith, str_eq,
}
use coreops_platform.Parties.Values.{text, null}
use coreops_platform.Parties.CustomFields.{FieldDefinition, list_definitions}
use coreops_platform.Crm.Model.{
  Python, PipelineStage, WorkItem, WorkItemStatus, RunState, Run, Task, ProcessTemplate, Version,
  Crm, CrmError, transition_denied, integrity,
}
use coreops_platform.Crm.Repository.{get_work_item}
use coreops_platform.Crm.Guard.{GuardResult, assert_transition_allowed}
use coreops_platform.Crm.GuardLaws.{Allowed, assert_transition_allowed-Allowed}
use coreops_platform.Crm.Process.{ProcessPath, IsPolicyEdge, HasSamePin, process_of}
use coreops_platform.Crm.Consistency.{IsConsistent}
use coreops_platform.Crm.WorkItems.{create_work_item}
use coreops_platform.Crm.Moves.{
  moved_to, move_stage, close_work_item, reopen_work_item, delete_work_item,
}
use coreops_platform.Crm.ProcessRuns.{complete_run}
use coreops_platform.Crm.PolicyKeys.{is_forbidden}
use coreops_platform.Crm.Decoding.{decode}
use coreops_platform.Crm.PolicyDump.{dumped_fields}
use coreops_platform.Crm.Policy.{
  Json, Elements, Entries, model_validate, invalid, has_forbidden_key, element_has_forbidden_key,
  entry_has_forbidden_key,
}
use coreops_platform.Crm.Guard.{parse_policy}
use coreops_platform.Crm.Publication.{publish_definition_version}
use coreops_platform.Crm.Published.{
  is_before, publish_definition_version-parse_policy, publish_definition_version_numbers,
}
use coreops_platform.Crm.LeadTasks.{maybe_create_process_run_first_contact_task}
use coreops_platform.Crm.FirstContact.{maybe_create_again}
use coreops_platform.Crm.Disposition.{field_of, reopen_work_item_clears}
use coreops_platform.Crm.EveryCall.{AnyCall, AnyCalls, AnyCalls-IsConsistent}
use coreops_platform.Crm.Pipelines.{update_pipeline}
use coreops_platform.Crm.Calls.{Call-Keeps, Call, Calls, Calls-ProcessPath}
use coreops_platform.Crm.Scenario.{
  crm_steps, publish_steps, python, empty_crm, session, lead, or_before, sales_policy, version,
}

-- A lead comes in, and the process starts with its first task.
abbrev with_lead : Crm
with_lead = or_before empty_crm (create_work_item python empty_crm (session 40 50) lead)

abbrev qualified : Crm
qualified = or_before with_lead (move_stage python with_lead (session 0 0) 40 12)

abbrev rejected : Crm
rejected = or_before qualified (close_work_item python qualified (session 0 0) 40 "spam" none)

created_lem : create_work_item python empty_crm (session 40 50) lead ≡ ok with_lead
unfolding crm_steps
created_lem = refl

moved_lem : move_stage python with_lead (session 0 0) 40 12 ≡ ok qualified
unfolding crm_steps
moved_lem = refl

closed_lem : close_work_item python qualified (session 0 0) 40 "spam" none ≡ ok rejected
unfolding crm_steps
closed_lem = refl

codes_lem : map (λ (r : Run). r.current_stage_code) rejected.runs ≡ some "rejected" ∷ []
unfolding crm_steps
codes_lem = refl

tasks_lem : map (λ (t : Task). t.process_run_id) rejected.tasks ≡ some 50 ∷ []
unfolding crm_steps
tasks_lem = refl

-- The tables that a call on a run returned.
abbrev or_run : Crm → Result CrmError (Run × Crm) → Crm
or_run c (ok out) = out.1
or_run c (err e) = c

-- The policy has no edge from the first stage to the last.
denied_lem : move_stage python with_lead (session 0 0) 40 13 ≡ err transition_denied
unfolding crm_steps
denied_lem = refl

restricted_lem : delete_work_item with_lead (session 0 0) 40 ≡ err integrity
unfolding crm_steps
restricted_lem = refl

empty-IsConsistent : IsConsistent empty_crm
empty-IsConsistent = (
  tt,
  tt,
  tt,
  tt,
  tt,
  ((λ e. omega arith, (λ e. omega arith, tt)), ((λ e. omega arith, tt), (tt, tt))),
)

two-Calls : Calls python with_lead rejected
two-Calls =
    Calls.one_more (Call.moved (session 0 0) 40 12 moved_lem)
      (Calls.one_more (Call.closed (session 0 0) 40 "spam" none closed_lem) Calls.none_yet)

abbrev the_lead : WorkItem
the_lead = record {
  id = 40;
  tenant_id = 1;
  pipeline_id = 10;
  stage_id = 11;
  work_item_type = "lead";
  title = "Lead";
  description = none;
  primary_party_id = none;
  status = WorkItemStatus.opened;
  amount = none;
  currency = none;
  source = none;
  custom_fields_json = ("source_note", text "from the site") ∷ [];
}

abbrev the_run : Run
the_run = record {
  id = 50;
  tenant_id = 1;
  configuration_id = 20;
  version_id = 21;
  work_item_id = 40;
  run_state = RunState.active;
  completed_at = none;
  completion_reason = none;
  current_stage_code = some "new_lead";
}

run-Elem : Elem the_run with_lead.runs
unfolding crm_steps
run-Elem = inl refl

with_lead-IsConsistent : IsConsistent with_lead
with_lead-IsConsistent =
    (Call-Keeps python empty_crm with_lead (Call.created (session 40 50) lead (tt, tt) created_lem)
      empty-IsConsistent).0

Calls-ProcessPath_example :
    (s : Run) × Elem s rejected.runs
    × HasSamePin the_run s
    × ProcessPath (IsPolicyEdge python with_lead.versions 1 21) (process_of the_run) (process_of s)
Calls-ProcessPath_example =
    Calls-ProcessPath python with_lead rejected the_run two-Calls with_lead-IsConsistent run-Elem

assert_transition_allowed-Allowed_example :
    (assert_transition_allowed python with_lead 1 the_lead (some "new_lead") (some "qualified")
      ≡ ok (GuardResult.enforced the_run version))
    ↔ Allowed python with_lead 1 the_lead "new_lead" "qualified"
        (GuardResult.enforced the_run version)
assert_transition_allowed-Allowed_example =
    assert_transition_allowed-Allowed python with_lead 1 the_lead "new_lead" "qualified"
      (GuardResult.enforced the_run version)

allowed_lem :
    assert_transition_allowed python with_lead 1 the_lead (some "new_lead") (some "qualified")
    ≡ ok (GuardResult.enforced the_run version)
unfolding crm_steps
allowed_lem = refl

abbrev template : ProcessTemplate
template = record { id = 30; code = "sales"; default_pipeline_code = "leads"; is_active = true }

abbrev with_template : Crm
with_template = record empty_crm { templates = template ∷ [] }

abbrev second : Version
second = record {
  id = 60;
  tenant_id = 1;
  configuration_id = 20;
  version_number = 2;
  pipeline_id = 10;
  policy_snapshot_json = dumped_fields sales_policy;
  module_requirements = [];
}

abbrev published : Crm
published = record with_template { versions = second ∷ version ∷ [] }

-- Policies are dumped as their fields, and the decoder reads those.
abbrev pydantic : Python
pydantic = record python { decode = decode; dump = dumped_fields }

published_lem :
    publish_definition_version pydantic with_template (session 60 0) 20 sales_policy "first sale"
    ≡ ok (second, published)
unfolding publish_steps
published_lem = refl

valid_lem : model_validate (λ s. s) (λ s. 8) sales_policy ≡ ok sales_policy
unfolding crm_steps
valid_lem = refl

-- A key is found at any depth.
forbidden_lem :
    has_forbidden_key (
      Json.object (
        Entries.entry "stages"
          (Json.list (
            Elements.element
              (Json.object (Entries.entry "onScript" Json.null Entries.no_entries))
              Elements.no_elements))
          Entries.no_entries))
    ≡ true
unfolding has_forbidden_key element_has_forbidden_key entry_has_forbidden_key is_forbidden
forbidden_lem = refl

decode_lem : pydantic.decode (dumped_fields sales_policy) ≡ some sales_policy
unfolding dumped_fields
decode_lem = refl

publish_definition_version-parse_policy_example :
    parse_policy pydantic (dumped_fields sales_policy) ≡ ok sales_policy
publish_definition_version-parse_policy_example =
    publish_definition_version-parse_policy pydantic with_template published (session 60 0) 20
      sales_policy sales_policy "first sale" second (λ s. refl) refl decode_lem valid_lem
      published_lem

-- The lead is created, then the pipeline is renamed.
abbrev renamed : Crm
renamed =
    or_before with_lead (
      update_pipeline with_lead (session 0 0) 10
        (record { name = some "Sales"; is_default = none }))

renamed_lem :
    update_pipeline with_lead (session 0 0) 10 (record { name = some "Sales"; is_default = none })
    ≡ ok renamed
unfolding crm_steps update_pipeline
renamed_lem = refl

AnyCalls-IsConsistent_example : IsConsistent renamed
AnyCalls-IsConsistent_example =
    AnyCalls-IsConsistent python empty_crm renamed
      (AnyCalls.one_more (AnyCall.called (Call.created (session 40 50) lead (tt, tt) created_lem)) (
        AnyCalls.one_more (AnyCall.called (Call.repiped (session 0 0) 10 _ renamed_lem))
          AnyCalls.none_yet))
      empty-IsConsistent

publish_definition_version_numbers_example :
    (published.versions ≡ second ∷ version ∷ [])
    × (second.configuration_id ≡ 20)
    × All (λ w. is_before 20 2 w ≡ true) with_template.versions
publish_definition_version_numbers_example =
    publish_definition_version_numbers pydantic with_template published (session 60 0) 20
      sales_policy "first sale" second published_lem

-- A policy whose edge leaves its stages is refused.
bad_policy_lem :
    model_validate
      (λ s. s)
      (λ s. 8)
      (record sales_policy { stage_codes = "new_lead" ∷ "rejected" ∷ [] })
    ≡ err invalid
unfolding crm_steps
bad_policy_lem = refl

-- After the lead is opened again, its disposition is empty.
abbrev reopened : Crm
reopened = or_before rejected (reopen_work_item python rejected (session 0 0) 40)

reopened_returns : reopen_work_item python rejected (session 0 0) 40 ≡ ok reopened
unfolding crm_steps
reopened_returns = refl

distinct_fields :
    Pairwise
      (λ (x y : FieldDefinition). str_eq x.field_key y.field_key ≡ false)
      (list_definitions rejected.field_definitions 1 "work_item")
unfolding crm_steps
distinct_fields = ((refl, tt), (tt, tt))

reopen_work_item_clears_example :
    (i : WorkItem) × (s : PipelineStage) × (get_work_item rejected 1 40 ≡ some i)
    × (s.code ≡ "new_lead")
    × (Elem (moved_to s WorkItemStatus.in_progress i) reopened.items
        × (field_of reopened 1 i.id "disposition" ≡ some null)
        × (field_of reopened 1 i.id "disposition_note" ≡ some null))
reopen_work_item_clears_example =
    reopen_work_item_clears python rejected reopened (session 0 0) 40 distinct_fields
      reopened_returns

abbrev tasked : Crm
tasked =
    or_before empty_crm (maybe_create_process_run_first_contact_task python empty_crm 1 50 40 100)

tasked_lem : maybe_create_process_run_first_contact_task python empty_crm 1 50 40 100 ≡ ok tasked
unfolding crm_steps
tasked_lem = refl

maybe_create_again_example :
    maybe_create_process_run_first_contact_task python tasked 1 50 40 900 ≡ ok tasked
maybe_create_again_example = maybe_create_again python empty_crm tasked 1 50 40 100 900 tasked_lem

reopened_lem : map (λ (i : WorkItem). i.stage_id) reopened.items ≡ 11 ∷ []
unfolding crm_steps
reopened_lem = refl

ended_run_lem :
    delete_work_item
      (or_run with_lead (complete_run python with_lead (session 0 0) 50 none))
      (session 0 0)
      40
    ≡ err integrity
unfolding crm_steps
ended_run_lem = refl
