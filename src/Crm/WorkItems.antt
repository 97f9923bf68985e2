-- ===== src/Crm/WorkItems.antt =====
-- The work items of `WorkflowService`, backend/app/modules/workflows/service/workflow_service.py. The
-- response, which is the item read again, is left out.
use coreops_platform.Base.{
  ℕ, String, Bool, not, ◌&&◌, Option, none, some, is_some, List, [], ◌∷◌, Result, ok, err, ◌>>=◌,
  ◌>>◌, raise_if, or_raise, ◌==◌, str_eq, ltb, filter, find?, if◌then◌else◌,
}
use coreops_platform.Platform.{not_found, conflict}
use coreops_platform.Parties.Values.{Value, text}
use coreops_platform.Parties.CustomFields.{
  Fields, FieldError, get, validate_and_prepare, upsert_values,
}
use coreops_platform.Crm.Policy.{has_text}
use coreops_platform.Crm.Model.{
  CrmError, core, integrity, lift_fields, WorkItemCreate, ParticipantCreate, Participant,
  PipelineStage, WorkItem, Configuration, Run, Crm, Session, Python,
}
use coreops_platform.Crm.Repository.{
  get_pipeline, get_stage, stages_of, get_work_item, save_item, get_party,
  get_configuration_by_pipeline,
}
use coreops_platform.Crm.ProcessRuns.{is_active_configuration, start_run}

-- `CustomFieldService.validate_and_prepare` for a work item.
abbrev pub prepare_fields : Python → Crm → ℕ → Fields → Result FieldError Fields
prepare_fields py c tenant_id values =
    validate_and_prepare py.builtins c.field_definitions tenant_id "work_item" values []

abbrev pub write_fields : ℕ → ℕ → Fields → Crm → Crm
write_fields tenant_id work_item_id values c = record c {
  field_values = upsert_values tenant_id "work_item" work_item_id values c.field_values;
}

abbrev pub ensure_party : Crm → ℕ → Option ℕ → Result CrmError (Unit {0})
ensure_party c tenant_id none = ok tt
ensure_party c tenant_id (some party_id) =
    raise_if (not (is_some (get_party c tenant_id party_id))) (core not_found)

abbrev pub earlier : PipelineStage → Option PipelineStage → Option PipelineStage
earlier s none = some s
earlier s (some t) = if ltb t.sort_order s.sort_order then some t else some s

-- `min(pipeline.stages, key=lambda s: s.sort_order)`
abbrev pub first_stage : List PipelineStage → Option PipelineStage
first_stage [] = none
first_stage (s ∷ ss) = earlier s (first_stage ss)

-- The stage of a new item, in its pipeline.
unfoldable pub initial_stage : Crm → ℕ → ℕ → Option ℕ → Result CrmError PipelineStage
unfolding get_stage
initial_stage c tenant_id pipeline_id none =
    or_raise (first_stage (stages_of c pipeline_id)) (core conflict)
initial_stage c tenant_id pipeline_id (some stage_id) = do
  stage ← or_raise (get_stage c tenant_id stage_id) (core conflict)
  raise_if (not (stage.pipeline_id == pipeline_id)) (core conflict)
  ok stage

-- `custom_input.pop("source_note", None)`
abbrev pub without_note : Fields → Fields
without_note values = filter (λ (f : String × Value). not (str_eq f.0 "source_note")) values

abbrev pub stripped_text : Python → Option Value → Option String
stripped_text py (some (text s)) =
    let note = py.builtins.strip s in if has_text note then some note else none
stripped_text py _ = none

abbrev pub new_item : Session → WorkItemCreate → ℕ → PipelineStage → WorkItem
new_item session payload pipeline_id stage = record {
  id = session.new_id;
  tenant_id = session.tenant_id;
  pipeline_id = pipeline_id;
  stage_id = stage.id;
  work_item_type = payload.work_item_type;
  title = payload.title;
  description = payload.description;
  primary_party_id = payload.primary_party_id;
  status = payload.status;
  amount = payload.amount;
  currency = payload.currency;
  source = payload.source;
  custom_fields_json = [];
}

-- The unique constraint on a party in a role of an item.
abbrev pub is_participant : ℕ → ParticipantCreate → Participant → Bool
is_participant work_item_id p row =
    row.work_item_id == work_item_id && row.party_id == p.party_id && str_eq row.role p.role

unfoldable pub add_participants : ℕ → ℕ → List ParticipantCreate → Crm → Result CrmError Crm
unfolding get_party
add_participants tenant_id work_item_id [] c = ok c
add_participants tenant_id work_item_id (p ∷ ps) c =
    ensure_party c tenant_id (some p.party_id)
    >> raise_if (is_some (find? (is_participant work_item_id p) c.participants)) integrity
    >> add_participants tenant_id work_item_id ps (record c {
      participants =
          (record {
            tenant_id = tenant_id;
            work_item_id = work_item_id;
            party_id = p.party_id;
            role = p.role;
          })
          ∷ c.participants;
    })

-- A note that the custom fields do not take is kept in the row itself.
abbrev pub keep_note :
    Session → WorkItem → String → Result FieldError Fields → Crm → Result CrmError Crm
keep_note session item note (ok []) c =
    ok (save_item (record item { custom_fields_json = ("source_note", text note) ∷ [] }) c)
keep_note session item note (ok (v ∷ vs)) c = ok (write_fields session.tenant_id item.id (v ∷ vs) c)
keep_note session item note (err (FieldError.core e)) c =
    ok (save_item (record item { custom_fields_json = ("source_note", text note) ∷ [] }) c)
keep_note session item note (err FieldError.value_error) c = err CrmError.value_error

unfoldable pub write_note : Python → Session → WorkItem → Option String → Crm → Result CrmError Crm
unfolding validate_and_prepare upsert_values
write_note py session item none c = ok c
write_note py session item (some note) c =
    keep_note session item note
      (prepare_fields py c session.tenant_id (("source_note", text note) ∷ [])) c

-- The start of a run, where the pipeline has an active configuration.
abbrev pub start_for :
    Python → Crm → Session → WorkItem → Option Configuration → Result CrmError Crm
start_for py c session item none = ok c
start_for py c session item (some config) =
    if is_active_configuration config.activation_state
    then start_run py c session item.id config.id >>= (λ (out : Run × Crm). ok out.1)
    else ok c

unfoldable pub maybe_auto_start_process_run :
    Python → Crm → Session → WorkItem → Result CrmError Crm
unfolding get_configuration_by_pipeline start_run
maybe_auto_start_process_run py c session item =
    start_for py c session item (get_configuration_by_pipeline c session.tenant_id item.pipeline_id)

unfoldable pub create_work_item : Python → Crm → Session → WorkItemCreate → Result CrmError Crm
unfolding get_pipeline initial_stage get_party validate_and_prepare add_participants upsert_values
    write_note maybe_auto_start_process_run
create_work_item py c session payload = do
  pipeline ← or_raise (get_pipeline c session.tenant_id payload.pipeline_id) (core not_found)
  stage ← initial_stage c session.tenant_id pipeline.id payload.stage_id
  ensure_party c session.tenant_id payload.primary_party_id
  custom_values ←
      lift_fields (prepare_fields py c session.tenant_id (without_note payload.custom_fields))
  let item = new_item session payload pipeline.id stage
  joined ←
      add_participants session.tenant_id item.id payload.participants
        (record c { items = item ∷ c.items })
  noted ←
      write_note py session item (stripped_text py (get "source_note" payload.custom_fields))
        (write_fields session.tenant_id item.id custom_values joined)
  maybe_auto_start_process_run py noted session item

abbrev pub get_work_item_or_404 : Crm → ℕ → ℕ → Result CrmError WorkItem
get_work_item_or_404 c tenant_id work_item_id =
    or_raise (get_work_item c tenant_id work_item_id) (core not_found)

-- The stage of a request, in the pipeline of the item.
unfoldable pub target_stage : Crm → ℕ → WorkItem → ℕ → Result CrmError PipelineStage
unfolding get_stage
target_stage c tenant_id item stage_id = do
  stage ← or_raise (get_stage c tenant_id stage_id) (core conflict)
  raise_if (not (stage.pipeline_id == item.pipeline_id)) (core conflict)
  ok stage
