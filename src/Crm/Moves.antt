-- ===== src/Crm/Moves.antt =====
-- The moves of a work item from stage to stage, and its other changes: `WorkflowService` of
-- backend/app/modules/workflows/service/workflow_service.py. The response, which is the item read
-- again, is left out.
use coreops_platform.Base.{
  ℕ, String, Bool, true, false, not, ◌&&◌, ◌||◌, Option, none, some, is_some, get_or, [], ◌∷◌,
  Result, ok, err, ◌>>=◌, ◌>>◌, raise_if, or_raise, ◌==◌, str_eq, filter, find?, if◌then◌else◌,
}
use coreops_platform.Platform.{conflict}
use coreops_platform.Parties.Values.{Value, null, text}
use coreops_platform.Parties.CustomFields.{Fields, validate_and_prepare, upsert_values}
use coreops_platform.Crm.Policy.{has_text}
use coreops_platform.Crm.Model.{
  CrmError, core, integrity, lift_fields, WorkItemStatus, WorkItemUpdate, TaskCreate, Participant,
  Activity, Task, ActivityType, PipelineStage, WorkItem, Run, Crm, Session, Python,
}
use coreops_platform.Crm.Repository.{
  get_stage, get_stage_by_code, get_work_item, save_item, add_activity_row, get_party, has_item_id,
}
use coreops_platform.Crm.Guard.{
  code_of, GuardResult, assert_transition_allowed, record_applied_transition,
}
use coreops_platform.Crm.LeadTasks.{is_automation_task}
use coreops_platform.Crm.WorkItems.{
  prepare_fields, write_fields, ensure_party, get_work_item_or_404, target_stage,
}

-- `_assert_process_transition`, from the stage that the item is in.
abbrev pub assert_process_transition :
    Python → Crm → Session → WorkItem → PipelineStage → Result CrmError GuardResult
assert_process_transition py c session item stage =
    assert_transition_allowed py c session.tenant_id item
      (code_of (get_stage c session.tenant_id item.stage_id)) (some stage.code)

abbrev pub is_same_stage : Option PipelineStage → PipelineStage → Bool
is_same_stage none stage = false
is_same_stage (some old) stage = old.id == stage.id

abbrev pub is_lost_code : String → Bool
is_lost_code code = str_eq code "lost" || str_eq code "cancelled" || str_eq code "rejected"

-- The status of an item that has entered a stage.
abbrev pub status_in : PipelineStage → WorkItemStatus
status_in stage =
    if stage.is_terminal
    then if is_lost_code stage.code then WorkItemStatus.lost else WorkItemStatus.won
    else WorkItemStatus.in_progress

-- The item in another stage, with another status.
abbrev pub moved_to : PipelineStage → WorkItemStatus → WorkItem → WorkItem
moved_to stage status item = record item { stage_id = stage.id; status = status }

abbrev pub add_status_change : Session → ℕ → Crm → Crm
add_status_change session work_item_id c =
    add_activity_row session.tenant_id work_item_id ActivityType.status_change session.now c

-- The tables after the guard has let the item into a stage; `after` is what the caller has written.
unfoldable pub enter_stage :
    Python → Crm → Session → WorkItem → PipelineStage → Crm → Result CrmError Crm
unfolding get_stage assert_transition_allowed record_applied_transition
enter_stage py c session item stage after =
    assert_process_transition py c session item stage >>= λ guard.
    ok (record_applied_transition guard stage.code after)

abbrev pub after_move : Crm → Session → WorkItem → PipelineStage → Crm
after_move c session item stage =
    add_status_change session item.id (save_item (moved_to stage (status_in stage) item) c)

unfoldable pub move_stage : Python → Crm → Session → ℕ → ℕ → Result CrmError Crm
unfolding get_work_item target_stage get_stage enter_stage
move_stage py c session work_item_id stage_id = do
  item ← get_work_item_or_404 c session.tenant_id work_item_id
  stage ← target_stage c session.tenant_id item stage_id
  if is_same_stage (get_stage c session.tenant_id item.stage_id) stage
      then ok c
      else enter_stage py c session item stage (after_move c session item stage)

abbrev pub with_item : WorkItem → Result CrmError Crm → Result CrmError (WorkItem × Crm)
with_item item (ok c) = ok (item, c)
with_item item (err e) = err e

-- The change of stage of an update.
unfoldable pub update_stage :
    Python → Crm → Session → WorkItem → Option ℕ → Result CrmError (WorkItem × Crm)
unfolding target_stage enter_stage
update_stage py c session item none = ok (item, c)
update_stage py c session item (some stage_id) = do
  stage ← target_stage c session.tenant_id item stage_id
  let moved = moved_to stage item.status item
  if stage.id == item.stage_id
      then ok (item, c)
      else with_item moved (enter_stage py c session item stage (save_item moved c))

abbrev pub or_keep : {A : Type 0} → Option A → Option A → Option A
or_keep none old = old
or_keep (some a) old = some a

abbrev pub updated : WorkItemUpdate → WorkItem → WorkItem
updated payload item = record item {
  work_item_type = get_or payload.work_item_type item.work_item_type;
  title = get_or payload.title item.title;
  description = or_keep payload.description item.description;
  primary_party_id = or_keep payload.primary_party_id item.primary_party_id;
  status = get_or payload.status item.status;
  amount = or_keep payload.amount item.amount;
  currency = or_keep payload.currency item.currency;
  source = or_keep payload.source item.source;
}

abbrev pub prepare_update : Python → Crm → ℕ → Option Fields → Result CrmError Fields
prepare_update py c tenant_id none = ok []
prepare_update py c tenant_id (some values) = lift_fields (prepare_fields py c tenant_id values)

unfoldable pub update_work_item : Python → Crm → Session → ℕ → WorkItemUpdate → Result CrmError Crm
unfolding get_work_item update_stage get_party validate_and_prepare upsert_values
update_work_item py c session work_item_id payload = do
  item ← get_work_item_or_404 c session.tenant_id work_item_id
  entered ← update_stage py c session item payload.stage_id
  ensure_party entered.1 session.tenant_id payload.primary_party_id
  custom_values ← prepare_update py entered.1 session.tenant_id payload.custom_fields
  ok (
      write_fields session.tenant_id item.id custom_values
        (save_item (updated payload entered.0) entered.1))

-- `payload.disposition_note.strip()`, or `None`
abbrev pub note_value : Python → Option String → Value
note_value py none = null
note_value py (some note) = if has_text note then text (py.builtins.strip note) else null

abbrev pub disposition_fields : Value → Value → Fields
disposition_fields disposition note = ("disposition", disposition) ∷ ("disposition_note", note) ∷ []

-- The item in another stage, with its disposition written.
abbrev pub after_disposition :
    Crm → Session → WorkItem → PipelineStage → WorkItemStatus → Fields → Crm
after_disposition c session item stage status values =
    add_status_change session item.id
      (save_item (moved_to stage status item) (write_fields session.tenant_id item.id values c))

unfoldable pub close_work_item :
    Python → Crm → Session → ℕ → String → Option String → Result CrmError Crm
unfolding get_work_item get_stage_by_code get_stage assert_transition_allowed validate_and_prepare
    upsert_values record_applied_transition
close_work_item py c session work_item_id disposition note = do
  item ← get_work_item_or_404 c session.tenant_id work_item_id
  rejected ←
      or_raise (get_stage_by_code c session.tenant_id item.pipeline_id "rejected") (core conflict)
  guard ← assert_process_transition py c session item rejected
  custom_values ← lift_fields (
      prepare_fields py c session.tenant_id
        (disposition_fields (text disposition) (note_value py note)))
  ok (
      record_applied_transition guard rejected.code
        (after_disposition c session item rejected WorkItemStatus.lost custom_values))

unfoldable pub reopen_work_item : Python → Crm → Session → ℕ → Result CrmError Crm
unfolding get_work_item get_stage get_stage_by_code assert_transition_allowed validate_and_prepare
    upsert_values record_applied_transition
reopen_work_item py c session work_item_id = do
  item ← get_work_item_or_404 c session.tenant_id work_item_id
  current ← or_raise (get_stage c session.tenant_id item.stage_id) (core conflict)
  raise_if (not (str_eq current.code "rejected")) (core conflict)
  new_lead ←
      or_raise (get_stage_by_code c session.tenant_id item.pipeline_id "new_lead") (core conflict)
  guard ← assert_process_transition py c session item new_lead
  clear_values ← lift_fields (prepare_fields py c session.tenant_id (disposition_fields null null))
  ok (
      record_applied_transition guard new_lead.code
        (after_disposition c session item new_lead WorkItemStatus.in_progress clear_values))

unfoldable pub add_activity : Crm → Session → ℕ → ActivityType → Option ℕ → Result CrmError Crm
unfolding get_work_item
add_activity c session work_item_id type occurred_at = do
  item ← get_work_item_or_404 c session.tenant_id work_item_id
  ok (add_activity_row session.tenant_id work_item_id type (get_or occurred_at session.now) c)

-- The constraints on the run and the key of a task: both or neither, a key that is not blank, a run
-- of the tenant, and one task of a run under a key.
abbrev pub is_task_accepted : Python → Crm → ℕ → Option ℕ → Option String → Bool
is_task_accepted py c tenant_id none none = true
is_task_accepted py c tenant_id none (some key) = false
is_task_accepted py c tenant_id (some run_id) none = false
is_task_accepted py c tenant_id (some run_id) (some key) =
    has_text (py.builtins.strip key)
    && is_some (find? (λ (r : Run). r.tenant_id == tenant_id && r.id == run_id) c.runs)
    && not (is_some (find? (is_automation_task tenant_id run_id key) c.tasks))

unfoldable pub add_task : Python → Crm → Session → ℕ → TaskCreate → Result CrmError Crm
unfolding get_work_item
add_task py c session work_item_id payload = do
  item ← get_work_item_or_404 c session.tenant_id work_item_id
  raise_if
      (not (is_task_accepted py c session.tenant_id payload.process_run_id payload.automation_key))
      integrity
  let task : Task = record {
    tenant_id = session.tenant_id;
    work_item_id = work_item_id;
    process_run_id = payload.process_run_id;
    automation_key = payload.automation_key;
    status = payload.status;
    due_at = payload.due_at;
    assigned_to_user_id = payload.assigned_to_user_id;
  }
  ok (record c { tasks = task ∷ c.tasks })

-- The rows that the item owns go with it, and a run of the item holds it back.
unfoldable pub delete_work_item : Crm → Session → ℕ → Result CrmError Crm
unfolding get_work_item
delete_work_item c session work_item_id = do
  item ← get_work_item_or_404 c session.tenant_id work_item_id
  raise_if (is_some (find? (λ (r : Run). r.work_item_id == item.id) c.runs)) integrity
  ok (record c {
    items = filter (λ x. not (has_item_id item.id x)) c.items;
    participants = filter (λ (p : Participant). not (p.work_item_id == item.id)) c.participants;
    activities = filter (λ (a : Activity). not (a.work_item_id == item.id)) c.activities;
    tasks = filter (λ (t : Task). not (t.work_item_id == item.id)) c.tasks;
  })
