-- ===== src/Crm/ProcessRuns.antt =====
-- `ProcessOverlayRunService` of backend/app/modules/process_overlay/service/runs.py. The audit trail is
-- left out.
use coreops_platform.Base.{
  ℕ, String, Bool, true, false, not, Option, none, some, is_some, ◌∷◌, Result, ok, ◌>>=◌, ◌>>◌,
  raise_if, or_raise, ◌==◌, find?, if◌then◌else◌,
}
use coreops_platform.Platform.{not_found}
use coreops_platform.Crm.Policy.{has_text}
use coreops_platform.Crm.Model.{
  CrmError, core, validation, activation, isolation, run_conflict, ActivationState, RunState,
  WorkItem, Configuration, Version, Run, Crm, Session, Python,
}
use coreops_platform.Crm.Repository.{
  get_configuration, get_definition_version_for_configuration, get_work_item, get_stage, get_run,
  get_active_run_for_work_item, is_active_run_of, is_active_state, save_run,
}
use coreops_platform.Crm.Guard.{code_of}
use coreops_platform.Crm.LeadTasks.{maybe_create_process_run_first_contact_task}

abbrev pub is_active_configuration : ActivationState → Bool
is_active_configuration ActivationState.inactive = false
is_active_configuration ActivationState.active = true

-- The active version of an active configuration.
unfoldable pub startable_version : Crm → ℕ → Configuration → Result CrmError Version
unfolding get_definition_version_for_configuration
startable_version c tenant_id config = do
  raise_if (not (is_active_configuration config.activation_state)) activation
  version_id ← or_raise config.active_definition_version_id validation
  version ←
      or_raise (get_definition_version_for_configuration c tenant_id config.id version_id)
        validation
  raise_if (not (version.tenant_id == tenant_id)) isolation
  raise_if (not (config.tenant_id == tenant_id)) isolation
  raise_if (not (version.configuration_id == config.id)) validation
  ok version

unfoldable pub new_run : Crm → Session → Configuration → Version → WorkItem → Run
unfolding get_stage
new_run c session config version work_item = record {
  id = session.new_run_id;
  tenant_id = session.tenant_id;
  configuration_id = config.id;
  version_id = version.id;
  work_item_id = work_item.id;
  run_state = RunState.active;
  completed_at = none;
  completion_reason = none;
  current_stage_code = code_of (get_stage c session.tenant_id work_item.stage_id);
}

-- The savepoint: the unique index refuses a second active run of the work item.
unfoldable pub insert_run : Run → Crm → Result CrmError Crm
insert_run run c =
    raise_if (is_some (find? (is_active_run_of run.work_item_id) c.runs)) run_conflict
    >> ok (record c { runs = run ∷ c.runs })

unfoldable pub start_run : Python → Crm → Session → ℕ → ℕ → Result CrmError (Run × Crm)
unfolding get_configuration startable_version get_work_item get_active_run_for_work_item new_run
    insert_run maybe_create_process_run_first_contact_task
start_run py c session work_item_id configuration_id = do
  config ← or_raise (get_configuration c session.tenant_id configuration_id) (core not_found)
  version ← startable_version c session.tenant_id config
  work_item ← or_raise (get_work_item c session.tenant_id work_item_id) (core not_found)
  raise_if (not (work_item.pipeline_id == config.pipeline_id)) validation
  raise_if (is_some (get_active_run_for_work_item c session.tenant_id work_item_id)) run_conflict
  let run = new_run c session config version work_item
  started ← insert_run run c
  tasked ←
      maybe_create_process_run_first_contact_task py started session.tenant_id run.id work_item.id
        session.now
  ok (run, tasked)

-- `_get_active_run_or_raise`
unfoldable pub get_active_run_or_raise : Crm → ℕ → ℕ → Result CrmError Run
unfolding get_run
get_active_run_or_raise c tenant_id run_id = do
  run ← or_raise (get_run c tenant_id run_id) (core not_found)
  raise_if (not (is_active_state run.run_state)) CrmError.run_state
  ok run

-- `reason.strip()`, and no reason for an empty one.
abbrev pub stripped_reason : Python → Option String → Option String
stripped_reason py none = none
stripped_reason py (some reason) =
    let stripped = py.builtins.strip reason in if has_text stripped then some stripped else none

-- `update_run_lifecycle`
abbrev pub ended : RunState → ℕ → Option String → Run → Run
ended state now reason run = record run {
  run_state = state;
  completed_at = some now;
  completion_reason = reason;
}

unfoldable pub complete_run :
    Python → Crm → Session → ℕ → Option String → Result CrmError (Run × Crm)
unfolding get_active_run_or_raise
complete_run py c session run_id reason = do
  run ← get_active_run_or_raise c session.tenant_id run_id
  let completed = ended RunState.completed session.now (stripped_reason py reason) run
  ok (completed, save_run completed c)

unfoldable pub cancel_run : Python → Crm → Session → ℕ → Option String → Result CrmError (Run × Crm)
unfolding get_active_run_or_raise
cancel_run py c session run_id reason = do
  text ← or_raise (stripped_reason py reason) validation
  run ← get_active_run_or_raise c session.tenant_id run_id
  let cancelled = ended RunState.cancelled session.now (some text) run
  ok (cancelled, save_run cancelled c)
