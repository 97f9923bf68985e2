-- ===== src/Crm/Pipelines.antt =====
-- The pipelines of `WorkflowService`, backend/app/modules/workflows/service/workflow_service.py, and its
-- maps of legacy statuses.
use coreops_platform.Base.{
  ℕ, suc, String, Bool, true, false, ◌&&◌, Option, none, some, is_some, get_or, List, [], ◌∷◌,
  Result, ok, ◌>>=◌, ◌>>◌, raise_if, or_raise, ◌==◌, str_eq, find?, update_where, if◌then◌else◌,
}
use coreops_platform.Platform.{not_found, conflict}
use coreops_platform.Crm.Model.{
  CrmError, core, integrity, WorkItemStatus, Pipeline, PipelineStage, Crm, Session,
}
use coreops_platform.Crm.Repository.{get_pipeline, get_pipeline_by_code}

-- `PipelineStageCreate`
pub record StageCreate : Type 0 where
  pub code : String
  pub name : String
  pub sort_order : ℕ
  pub is_terminal : Bool

pub record PipelineCreate : Type 0 where
  pub code : String
  pub name : String
  pub is_default : Bool
  pub stages : List StageCreate

pub record PipelineUpdate : Type 0 where
  pub name : Option String
  pub is_default : Option Bool

abbrev pub new_stage : ℕ → ℕ → StageCreate → PipelineStage
new_stage id pipeline_id s = record {
  id = id;
  pipeline_id = pipeline_id;
  code = s.code;
  name = s.name;
  sort_order = s.sort_order;
  is_terminal = s.is_terminal;
}

abbrev pub has_code : ℕ → String → PipelineStage → Bool
has_code pipeline_id code s = s.pipeline_id == pipeline_id && str_eq s.code code

-- The stages of the request; `ids n` is the identifier of the stage at place `n`. The unique constraint
-- refuses a code that the pipeline has.
unfoldable pub create_stages : ℕ → (ℕ → ℕ) → ℕ → List StageCreate → Crm → Result CrmError Crm
create_stages pipeline_id ids n [] c = ok c
create_stages pipeline_id ids n (s ∷ ss) c =
    raise_if (is_some (find? (has_code pipeline_id s.code) c.stages)) integrity
    >> create_stages pipeline_id ids (suc n) ss
        (record c { stages = new_stage (ids n) pipeline_id s ∷ c.stages })

abbrev pub new_pipeline : Session → PipelineCreate → Pipeline
new_pipeline session payload = record {
  id = session.new_id;
  tenant_id = session.tenant_id;
  code = payload.code;
  name = payload.name;
  is_default = payload.is_default;
}

unfoldable pub create_pipeline : Crm → Session → (ℕ → ℕ) → PipelineCreate → Result CrmError Crm
unfolding get_pipeline_by_code create_stages
create_pipeline c session ids payload =
    raise_if (is_some (get_pipeline_by_code c session.tenant_id payload.code)) (core conflict)
    >> create_stages session.new_id ids 0 payload.stages
        (record c { pipelines = new_pipeline session payload ∷ c.pipelines })

-- The fields of the request that are not `None`.
abbrev pub apply_update : PipelineUpdate → Pipeline → Pipeline
apply_update payload p = record p {
  name = get_or payload.name p.name;
  is_default = get_or payload.is_default p.is_default;
}

unfoldable pub update_pipeline : Crm → Session → ℕ → PipelineUpdate → Result CrmError Crm
unfolding get_pipeline
update_pipeline c session pipeline_id payload = do
  p ← or_raise (get_pipeline c session.tenant_id pipeline_id) (core not_found)
  ok (record c {
    pipelines = update_where (λ (x : Pipeline). x.id == p.id) (apply_update payload) c.pipelines;
  })

-- A status in upper case and without spaces around it.
unfoldable pub mapped_order_status : String → Option WorkItemStatus
mapped_order_status s =
    if str_eq s "COMPLETED"
    then some WorkItemStatus.won
    else if str_eq s "IN_PROGRESS"
    then some WorkItemStatus.in_progress
    else if str_eq s "CONTRACT_PENDING"
    then some WorkItemStatus.opened
    else if str_eq s "CANCELLED"
    then some WorkItemStatus.cancelled
    else none

abbrev pub or_review : Option WorkItemStatus → WorkItemStatus × Bool
or_review none = (WorkItemStatus.opened, true)
or_review (some s) = (s, false)

-- `upper_stripped` is `status.strip().upper()`. The second component asks for a review.
unfoldable pub map_legacy_order_status : (String → String) → Option String → WorkItemStatus × Bool
unfolding mapped_order_status
map_legacy_order_status upper_stripped none = (WorkItemStatus.opened, true)
map_legacy_order_status upper_stripped (some s) = or_review (mapped_order_status (upper_stripped s))
