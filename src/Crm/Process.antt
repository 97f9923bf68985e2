-- ===== src/Crm/Process.antt =====
-- A process as its policy describes it: a stage code that moves along the edges of the policy until the
-- process ends; and what it means that the runs of backend/app/modules/process_overlay follow it.
use coreops_platform.Base.{ℕ, ◌≡◌, refl, String, Option, some, List, Elem, find?, ◌&&◌, ◌==◌, ok}
use coreops_platform.Crm.Policy.{PolicySnapshot}
use coreops_platform.Crm.Model.{Run, RunState, Version, Crm, Python}
use coreops_platform.Crm.Guard.{parse_policy}
use coreops_platform.Crm.GuardLaws.{HasEdge}
use coreops_platform.Crm.Consistency.{IsConsistent}

-- A process at a stage, or one that has ended.
pub data ProcessState : Type 0 where
  working : Option String → ProcessState
  ended : ProcessState

pub data ProcessStep (Edge : String → String → Type 0) : ProcessState → ProcessState → Type 0 where
  stay : {s : ProcessState} → ProcessStep Edge s s
  advance :
      {from to : String}
      → Edge from to
      → ProcessStep Edge (ProcessState.working (some from)) (ProcessState.working (some to))
  finish : {code : Option String} → ProcessStep Edge (ProcessState.working code) ProcessState.ended

pub data ProcessPath (Edge : String → String → Type 0) : ProcessState → ProcessState → Type 0 where
  here : {s : ProcessState} → ProcessPath Edge s s
  further :
      {s t u : ProcessState} → ProcessStep Edge s t → ProcessPath Edge t u → ProcessPath Edge s u

abbrev pub state_at : RunState → Option String → ProcessState
state_at RunState.active code = ProcessState.working code
state_at RunState.completed code = ProcessState.ended
state_at RunState.cancelled code = ProcessState.ended

-- The process that a run stands for.
abbrev pub process_of : Run → ProcessState
process_of r = state_at r.run_state r.current_stage_code

-- An edge of the policy of the version that a run pins.
abbrev pub IsPolicyEdge : Python → List Version → ℕ → ℕ → String → String → Type 0
IsPolicyEdge py versions tenant_id version_id from to =
    (version : Version) × (policy : PolicySnapshot) × (find?
        (λ (v : Version). v.tenant_id == tenant_id && v.id == version_id) versions
      ≡ some version)
    × (parse_policy py version.policy_snapshot_json ≡ ok policy)
    × HasEdge policy from to

abbrev pub HasSamePin : Run → Run → Type 0
HasSamePin r s =
    (s.id ≡ r.id)
    × (s.tenant_id ≡ r.tenant_id)
    × (s.work_item_id ≡ r.work_item_id)
    × (s.configuration_id ≡ r.configuration_id)
    × (s.version_id ≡ r.version_id)

-- Every run is still there with the version it had pinned, a step of its process later at most.
abbrev pub RefinesOf : Python → List Version → List Run → List Run → Type 0
RefinesOf py versions runs after =
    (r : Run)
    → Elem r runs
    → (s : Run) × Elem s after
      × HasSamePin r s
      × ProcessStep (IsPolicyEdge py versions r.tenant_id r.version_id) (process_of r)
          (process_of s)

-- A call keeps the tables consistent and the versions as they are, and moves the runs by steps of
-- their processes.
abbrev pub Keeps : Python → Crm → Crm → Type 0
Keeps py c d = IsConsistent d × (d.versions ≡ c.versions) × RefinesOf py c.versions c.runs d.runs

pub runs_stay :
    (py : Python) (versions : List Version) (runs : List Run) → RefinesOf py versions runs runs
runs_stay py versions runs r m = (r, m, (refl, refl, refl, refl, refl), ProcessStep.stay)
