-- ===== src/Crm/Calls.antt =====
-- Any order of the calls of backend/app/modules/workflows and of those on configurations and runs of
-- backend/app/modules/process_overlay, over fixed versions.
use coreops_platform.Base.{ℕ, ◌≡◌, refl, sym, ◌∙◌, String, Option, All, ◌≢◌, Elem, ok}
use coreops_platform.Crm.Model.{
  WorkItemCreate, WorkItemUpdate, TaskCreate, ActivityType, Configuration, Run, Crm, Session,
  Python,
}
use coreops_platform.Crm.Consistency.{IsConsistent, run_id_of}
use coreops_platform.Crm.Process.{ProcessPath, IsPolicyEdge, HasSamePin, Keeps, process_of}
use coreops_platform.Crm.ProcessRuns.{start_run, complete_run, cancel_run}
use coreops_platform.Crm.WorkItems.{create_work_item}
use coreops_platform.Crm.Moves.{
  update_work_item, move_stage, close_work_item, reopen_work_item, add_activity, add_task,
  delete_work_item,
}
use coreops_platform.Crm.MovesConsistent.{
  move_stage-Keeps, close_work_item-Keeps, reopen_work_item-Keeps,
}
use coreops_platform.Crm.Pipelines.{
  PipelineCreate, PipelineUpdate, create_pipeline, update_pipeline,
}
use coreops_platform.Crm.PipelineChanges.{update_pipeline-Keeps}
use coreops_platform.Crm.PipelinesKept.{HasFreshIds, create_pipeline-Keeps}
use coreops_platform.Crm.Publication.{
  create_configuration, activate_configuration, deactivate_configuration,
  set_active_definition_version,
}
use coreops_platform.Crm.ConfigurationsKept.{
  create_configuration-Keeps, activate_configuration-Keeps, deactivate_configuration-Keeps,
  set_active_definition_version-Keeps,
}
use coreops_platform.Crm.RunsKept.{complete_run-Keeps, cancel_run-Keeps}
use coreops_platform.Crm.StartKept.{IsFresh, start_run-Keeps}
use coreops_platform.Crm.ItemsKept.{create_work_item-Keeps}
use coreops_platform.Crm.ChangesKept.{
  update_work_item-Keeps, add_activity-Keeps, add_task-Keeps, delete_work_item-Keeps,
}

-- One call that returned. A call that raises is rolled back. A new row has an identifier of its own.
pub data Call (py : Python) : Crm → Crm → Type 0 where
  created :
      {c d : Crm} (session : Session) (payload : WorkItemCreate)
      → IsFresh session c
      → create_work_item py c session payload ≡ ok d
      → Call py c d
  updated :
      {c d : Crm} (session : Session) (id : ℕ) (payload : WorkItemUpdate)
      → update_work_item py c session id payload ≡ ok d
      → Call py c d
  moved :
      {c d : Crm} (session : Session) (id stage_id : ℕ)
      → move_stage py c session id stage_id ≡ ok d
      → Call py c d
  closed :
      {c d : Crm} (session : Session) (id : ℕ) (disposition : String) (note : Option String)
      → close_work_item py c session id disposition note ≡ ok d
      → Call py c d
  reopened :
      {c d : Crm} (session : Session) (id : ℕ)
      → reopen_work_item py c session id ≡ ok d
      → Call py c d
  noted :
      {c d : Crm} (session : Session) (id : ℕ) (type : ActivityType) (occurred_at : Option ℕ)
      → add_activity c session id type occurred_at ≡ ok d
      → Call py c d
  tasked :
      {c d : Crm} (session : Session) (id : ℕ) (payload : TaskCreate)
      → add_task py c session id payload ≡ ok d
      → Call py c d
  deleted :
      {c d : Crm} (session : Session) (id : ℕ) → delete_work_item c session id ≡ ok d → Call py c d
  piped :
      {c d : Crm} (session : Session) (ids : ℕ → ℕ) (payload : PipelineCreate)
      → HasFreshIds session ids c
      → create_pipeline c session ids payload ≡ ok d
      → Call py c d
  repiped :
      {c d : Crm} (session : Session) (id : ℕ) (payload : PipelineUpdate)
      → update_pipeline c session id payload ≡ ok d
      → Call py c d
  configured :
      {c d : Crm} (session : Session) (code : String) (pipeline_id : ℕ) (out : Configuration)
      → create_configuration c session code pipeline_id ≡ ok (out, d)
      → Call py c d
  activated :
      {c d : Crm} (session : Session) (id : ℕ) (out : Configuration)
      → activate_configuration c session id ≡ ok (out, d)
      → Call py c d
  deactivated :
      {c d : Crm} (session : Session) (id : ℕ) (out : Configuration)
      → deactivate_configuration c session id ≡ ok (out, d)
      → Call py c d
  versioned :
      {c d : Crm} (session : Session) (id version_id : ℕ) (out : Configuration)
      → set_active_definition_version c session id version_id ≡ ok (out, d)
      → Call py c d
  started :
      {c d : Crm} (session : Session) (id configuration_id : ℕ) (run : Run)
      → All (λ r. session.new_run_id ≢ run_id_of r) c.runs
      → start_run py c session id configuration_id ≡ ok (run, d)
      → Call py c d
  completed :
      {c d : Crm} (session : Session) (run_id : ℕ) (reason : Option String) (run : Run)
      → complete_run py c session run_id reason ≡ ok (run, d)
      → Call py c d
  cancelled :
      {c d : Crm} (session : Session) (run_id : ℕ) (reason : Option String) (run : Run)
      → cancel_run py c session run_id reason ≡ ok (run, d)
      → Call py c d

pub data Calls (py : Python) : Crm → Crm → Type 0 where
  none_yet : {c : Crm} → Calls py c c
  one_more : {c d e : Crm} → Call py c d → Calls py d e → Calls py c e

pub Call-Keeps : (py : Python) (c d : Crm) → Call py c d → IsConsistent c → Keeps py c d
Call-Keeps py c d (Call.created session payload fresh h) k =
    create_work_item-Keeps py c d session payload h k fresh
Call-Keeps py c d (Call.updated session id payload h) k =
    update_work_item-Keeps py c d session id payload h k
Call-Keeps py c d (Call.moved session id stage_id h) k =
    move_stage-Keeps py c d session id stage_id h k
Call-Keeps py c d (Call.closed session id disposition note h) k =
    close_work_item-Keeps py c d session id disposition note h k
Call-Keeps py c d (Call.reopened session id h) k = reopen_work_item-Keeps py c d session id h k
Call-Keeps py c d (Call.noted session id type at h) k =
    add_activity-Keeps py c d session id type at h k
Call-Keeps py c d (Call.tasked session id payload h) k =
    add_task-Keeps py c d session id payload h k
Call-Keeps py c d (Call.deleted session id h) k = delete_work_item-Keeps py c d session id h k
Call-Keeps py c d (Call.piped session ids payload fresh h) k =
    create_pipeline-Keeps py c d session ids payload h k fresh
Call-Keeps py c d (Call.repiped session id payload h) k =
    update_pipeline-Keeps py c d session id payload h k
Call-Keeps py c d (Call.configured session code pipeline_id out h) k =
    create_configuration-Keeps py c d session code pipeline_id out h k
Call-Keeps py c d (Call.activated session id out h) k =
    activate_configuration-Keeps py c d session id out h k
Call-Keeps py c d (Call.deactivated session id out h) k =
    deactivate_configuration-Keeps py c d session id out h k
Call-Keeps py c d (Call.versioned session id version_id out h) k =
    set_active_definition_version-Keeps py c d session id version_id out h k
Call-Keeps py c d (Call.started session id configuration_id run fresh h) k =
    start_run-Keeps py c d session id configuration_id run h k fresh
Call-Keeps py c d (Call.completed session run_id reason run h) k =
    complete_run-Keeps py c d session run_id reason run h k
Call-Keeps py c d (Call.cancelled session run_id reason run h) k =
    cancel_run-Keeps py c d session run_id reason run h k

HasSamePin-trans : (r s t : Run) → HasSamePin r s → HasSamePin s t → HasSamePin r t
HasSamePin-trans r s t (a, b, c, d, e) (a2, b2, c2, d2, e2) =
    (a2 ∙ a, b2 ∙ b, c2 ∙ c, d2 ∙ d, e2 ∙ e)

-- Calls other than publications, on consistent tables, move a run along the policy that it has pinned:
-- after them the run is still there with the same version, and the code of its stage has moved along
-- edges of the policy of that version, after which the run may have ended.
pub Calls-ProcessPath :
    (py : Python) (c d : Crm) (r : Run)
    → Calls py c d
    → IsConsistent c
    → Elem r c.runs
    → (s : Run) × Elem s d.runs
      × HasSamePin r s
      × ProcessPath
          (IsPolicyEdge py c.versions r.tenant_id r.version_id)
          (process_of r)
          (process_of s)
Calls-ProcessPath py c _ r Calls.none_yet k m =
    (r, m, (refl, refl, refl, refl, refl), ProcessPath.here)
Calls-ProcessPath py c e r (Calls.one_more {d = d} call rest) k m =
    let (k1, v, f) = Call-Keeps py c d call k in
    let (s, ms, pin, step) = f r m in
    let (t, mt, pin2, path) = Calls-ProcessPath py d e s rest k1 ms in
    let (p1, p2, p3, p4, p5) = pin in
    (
      t,
      mt,
      HasSamePin-trans r s t pin pin2,
      ProcessPath.further step (rw (sym v, sym p2, sym p5) path),
    )
