-- ===== src/Crm/Repository.antt =====
-- backend/app/modules/workflows/repository.py and process_overlay/repository.py: lookups by tenant
-- and identifier, new rows, and the writes of loaded rows by their primary keys.
use coreops_platform.Base.{
  ℕ, String, Bool, true, false, ◌&&◌, Option, List, ◌∷◌, is_some, ◌==◌, str_eq, ltb, filter, find?,
  update_where, if◌then◌else◌,
}
use coreops_platform.Crm.Model.{
  Pipeline, PipelineStage, WorkItem, ActivityType, PartyRow, ProcessTemplate, Configuration,
  Version, Run, RunState, Crm,
}

unfoldable pub get_pipeline : Crm → ℕ → ℕ → Option Pipeline
get_pipeline c tenant_id pipeline_id =
    find? (λ (p : Pipeline). p.tenant_id == tenant_id && p.id == pipeline_id) c.pipelines

unfoldable pub get_pipeline_by_code : Crm → ℕ → String → Option Pipeline
get_pipeline_by_code c tenant_id code =
    find? (λ (p : Pipeline). p.tenant_id == tenant_id && str_eq p.code code) c.pipelines

-- `pipeline.stages`
abbrev pub stages_of : Crm → ℕ → List PipelineStage
stages_of c pipeline_id = filter (λ (s : PipelineStage). s.pipeline_id == pipeline_id) c.stages

-- The stage's pipeline, which the lookup joins, is one of the tenant.
abbrev pub is_stage_of : List Pipeline → ℕ → PipelineStage → Bool
is_stage_of pipelines tenant_id s =
    is_some (find? (λ (p : Pipeline). p.id == s.pipeline_id && p.tenant_id == tenant_id) pipelines)

abbrev pub find_stage : List Pipeline → List PipelineStage → ℕ → ℕ → Option PipelineStage
find_stage pipelines stages tenant_id stage_id =
    find? (λ s. is_stage_of pipelines tenant_id s && s.id == stage_id) stages

unfoldable pub get_stage : Crm → ℕ → ℕ → Option PipelineStage
get_stage c tenant_id stage_id = find_stage c.pipelines c.stages tenant_id stage_id

unfoldable pub get_stage_by_code : Crm → ℕ → ℕ → String → Option PipelineStage
get_stage_by_code c tenant_id pipeline_id code =
    find?
      (λ s.
        is_stage_of c.pipelines tenant_id s && s.pipeline_id == pipeline_id && str_eq s.code code)
      c.stages

abbrev pub has_item_id : ℕ → WorkItem → Bool
has_item_id id i = i.id == id

-- `get_work_item_for_update` is the same lookup, with a lock.
unfoldable pub get_work_item : Crm → ℕ → ℕ → Option WorkItem
get_work_item c tenant_id work_item_id =
    find? (λ (i : WorkItem). i.tenant_id == tenant_id && i.id == work_item_id) c.items

abbrev pub save_item : WorkItem → Crm → Crm
save_item i c = record c { items = update_where (has_item_id i.id) (λ _. i) c.items }

abbrev pub add_activity_row : ℕ → ℕ → ActivityType → ℕ → Crm → Crm
add_activity_row tenant_id work_item_id type occurred_at c = record c {
  activities =
      (record {
        tenant_id = tenant_id;
        work_item_id = work_item_id;
        activity_type = type;
        occurred_at = occurred_at;
      })
      ∷ c.activities;
}

unfoldable pub get_party : Crm → ℕ → ℕ → Option PartyRow
get_party c tenant_id party_id =
    find? (λ (p : PartyRow). p.tenant_id == tenant_id && p.id == party_id) c.parties

unfoldable pub get_template_by_code : Crm → String → Option ProcessTemplate
get_template_by_code c code = find? (λ (t : ProcessTemplate). str_eq t.code code) c.templates

unfoldable pub get_template_by_id : Crm → ℕ → Option ProcessTemplate
get_template_by_id c template_id = find? (λ (t : ProcessTemplate). t.id == template_id) c.templates

unfoldable pub get_configuration : Crm → ℕ → ℕ → Option Configuration
get_configuration c tenant_id configuration_id =
    find? (λ (x : Configuration). x.tenant_id == tenant_id && x.id == configuration_id)
      c.configurations

unfoldable pub get_configuration_by_pipeline : Crm → ℕ → ℕ → Option Configuration
get_configuration_by_pipeline c tenant_id pipeline_id =
    find? (λ (x : Configuration). x.tenant_id == tenant_id && x.pipeline_id == pipeline_id)
      c.configurations

abbrev pub save_configuration : Configuration → Crm → Crm
save_configuration x c = record c {
  configurations = update_where (λ y. y.id == x.id) (λ _. x) c.configurations;
}

unfoldable pub get_definition_version : Crm → ℕ → ℕ → Option Version
get_definition_version c tenant_id version_id =
    find? (λ (v : Version). v.tenant_id == tenant_id && v.id == version_id) c.versions

unfoldable pub get_definition_version_for_configuration : Crm → ℕ → ℕ → ℕ → Option Version
get_definition_version_for_configuration c tenant_id configuration_id version_id =
    find?
      (λ (v : Version).
        v.tenant_id == tenant_id && v.configuration_id == configuration_id && v.id == version_id)
      c.versions

abbrev pub max_number : ℕ → List Version → ℕ
max_number configuration_id List.[] = 0
max_number configuration_id (v ∷ vs) =
    let rest = max_number configuration_id vs in
    if v.configuration_id == configuration_id && ltb rest v.version_number
    then v.version_number
    else rest

unfoldable pub max_version_number : Crm → ℕ → ℕ
max_version_number c configuration_id = max_number configuration_id c.versions

abbrev pub is_active_state : RunState → Bool
is_active_state RunState.active = true
is_active_state RunState.completed = false
is_active_state RunState.cancelled = false

unfoldable pub get_run : Crm → ℕ → ℕ → Option Run
get_run c tenant_id run_id = find? (λ (r : Run). r.tenant_id == tenant_id && r.id == run_id) c.runs

-- An active run of a work item, which the unique index admits once.
abbrev pub is_active_run_of : ℕ → Run → Bool
is_active_run_of work_item_id r = r.work_item_id == work_item_id && is_active_state r.run_state

-- `get_active_run_for_work_item_for_update` is the same lookup, with a lock.
unfoldable pub get_active_run_for_work_item : Crm → ℕ → ℕ → Option Run
get_active_run_for_work_item c tenant_id work_item_id =
    find? (λ (r : Run). r.tenant_id == tenant_id && is_active_run_of work_item_id r) c.runs

abbrev pub save_run : Run → Crm → Crm
save_run r c = record c { runs = update_where (λ x. x.id == r.id) (λ _. r) c.runs }
