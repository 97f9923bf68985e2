-- ===== src/Crm/Guard.antt =====
-- `ProcessOverlayTransitionGuard` of backend/app/modules/process_overlay/service/transitions.py. The
-- audit trail is left out.
use coreops_platform.Base.{
  ℕ, String, not, Option, none, some, Result, ok, err, ◌>>=◌, ◌>>◌, raise_if, or_raise, ◌==◌,
  str_eq, map, if◌then◌else◌,
}
use coreops_platform.Crm.Policy.{
  PolicySnapshot, PolicyError, edge_of, has_edge, Json, parse_policy_snapshot,
}
use coreops_platform.Crm.Model.{
  CrmError, transition_denied, WorkItem, PipelineStage, Version, Run, Crm, Python,
}
use coreops_platform.Crm.Repository.{get_active_run_for_work_item, get_definition_version, save_run}

-- `TransitionGuardResult`: the stage stays, no run is active, or the policy of the run allows it.
pub data GuardResult : Type 0 where
  noop unenforced : GuardResult
  enforced : Run → Version → GuardResult

-- An error of the policy, raised as another one.
abbrev pub raise_as : {A : Type 0} → CrmError → Result PolicyError A → Result CrmError A
raise_as e (ok a) = ok a
raise_as e (err problem) = err e

abbrev pub code_of : Option PipelineStage → Option String
code_of none = none
code_of (some s) = some s.code

-- `parse_policy_snapshot` of the text of a version.
unfoldable pub parse_policy : Python → Json → Result PolicyError PolicySnapshot
unfolding parse_policy_snapshot
parse_policy py payload = parse_policy_snapshot py.builtins.strip py.text_length py.decode payload

-- The checks of the version pinned by an active run.
unfoldable pub check_pinned :
    Python → Crm → ℕ → WorkItem → String → String → Run → Result CrmError GuardResult
unfolding get_definition_version parse_policy
check_pinned py c tenant_id work_item from to run = do
  version ← or_raise (get_definition_version c tenant_id run.version_id) transition_denied
  raise_if (not (version.tenant_id == tenant_id)) transition_denied
  raise_if (not (version.configuration_id == run.configuration_id)) transition_denied
  raise_if (not (version.pipeline_id == work_item.pipeline_id)) transition_denied
  policy ← raise_as transition_denied (parse_policy py version.policy_snapshot_json)
  raise_if (not (has_edge (from, to) (map edge_of policy.transitions))) transition_denied
  ok (GuardResult.enforced run version)

-- What an active run, if any, has to say.
unfoldable pub check_run :
    Python → Crm → ℕ → WorkItem → String → String → Option Run → Result CrmError GuardResult
unfolding check_pinned
check_run py c tenant_id work_item from to none = ok GuardResult.unenforced
check_run py c tenant_id work_item from to (some run) =
    check_pinned py c tenant_id work_item from to run

unfoldable pub assert_transition_allowed :
    Python → Crm → ℕ → WorkItem → Option String → Option String → Result CrmError GuardResult
unfolding check_run get_active_run_for_work_item
assert_transition_allowed py c tenant_id work_item none to_stage_code = err transition_denied
assert_transition_allowed py c tenant_id work_item (some from) none = err transition_denied
assert_transition_allowed py c tenant_id work_item (some from) (some to) =
    if str_eq from to
    then ok GuardResult.noop
    else check_run py c tenant_id work_item from to
        (get_active_run_for_work_item c tenant_id work_item.id)

unfoldable pub record_applied_transition : GuardResult → String → Crm → Crm
record_applied_transition GuardResult.noop to_stage_code c = c
record_applied_transition GuardResult.unenforced to_stage_code c = c
record_applied_transition (GuardResult.enforced run version) to_stage_code c =
    save_run (record run { current_stage_code = some to_stage_code }) c
