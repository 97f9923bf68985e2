-- ===== src/Crm/Publication.antt =====
-- backend/app/modules/process_overlay/service/configuration.py and publication.py: the configuration of
-- a process on a pipeline, and the versions of its policy. The audit trail and the text of the reason of
-- a publication are left out.
use coreops_platform.Base.{
  ℕ, ◌+◌, String, Bool, not, ◌&&◌, ◌||◌, none, some, is_some, List, [], ◌∷◌, map, Result, ok, ◌>>=◌,
  ◌>>◌, raise_if, or_raise, ◌==◌, str_eq, ltb, find?, is_empty, if◌then◌else◌,
}
use coreops_platform.Platform.{not_found, conflict}
use coreops_platform.Platform.Guard.{get_definition, assert_enabled}
use coreops_platform.Crm.Policy.{PolicySnapshot, has_text, validate_policy_against_pipeline}
use coreops_platform.Crm.Model.{
  CrmError, core, validation, activation, isolation, ActivationState, ProcessTemplate, Pipeline,
  PipelineStage, Configuration, Version, Crm, Session, Python, lift_core,
}
use coreops_platform.Crm.Repository.{
  get_pipeline, stages_of, get_template_by_code, get_template_by_id, get_configuration,
  save_configuration, get_definition_version_for_configuration, max_version_number,
}
use coreops_platform.Crm.Guard.{raise_as}
use coreops_platform.Crm.ProcessRuns.{is_active_configuration}

abbrev pub new_configuration : Session → ProcessTemplate → Pipeline → Configuration
new_configuration session template pipeline = record {
  id = session.new_id;
  tenant_id = session.tenant_id;
  process_template_id = template.id;
  pipeline_id = pipeline.id;
  activation_state = ActivationState.inactive;
  active_definition_version_id = none;
}

-- A configuration of the tenant with the template or on the pipeline.
abbrev pub has_configuration : ℕ → ℕ → ℕ → List Configuration → Bool
has_configuration tenant_id template_id pipeline_id rows = is_some (
    find?
      (λ (x : Configuration).
        x.tenant_id == tenant_id
        && (x.process_template_id == template_id || x.pipeline_id == pipeline_id))
      rows)

unfoldable pub create_configuration :
    Crm → Session → String → ℕ → Result CrmError (Configuration × Crm)
unfolding get_template_by_code get_pipeline
create_configuration c session template_code pipeline_id = do
  template ← or_raise (get_template_by_code c template_code) (core not_found)
  raise_if (not template.is_active) (core not_found)
  pipeline ← or_raise (get_pipeline c session.tenant_id pipeline_id) isolation
  raise_if (not (str_eq pipeline.code template.default_pipeline_code)) validation
  raise_if (has_configuration session.tenant_id template.id pipeline_id c.configurations)
      (core conflict)
  let x = new_configuration session template pipeline
  ok (x, record c { configurations = x ∷ c.configurations })

-- `_assert_module_requirements_met`
unfoldable pub assert_module_requirements_met : Crm → ℕ → List String → Result CrmError (Unit {0})
unfolding get_definition assert_enabled
assert_module_requirements_met c tenant_id [] = ok tt
assert_module_requirements_met c tenant_id (code ∷ codes) =
    raise_if (not (is_some (get_definition c.platform code))) validation
    >> lift_core (assert_enabled c.platform tenant_id code)
    >> assert_module_requirements_met c tenant_id codes

abbrev pub with_state : ActivationState → Configuration → Configuration
with_state state x = record x { activation_state = state }

-- The activation of an inactive configuration.
unfoldable pub activate_inactive : Crm → ℕ → Configuration → Result CrmError (Configuration × Crm)
unfolding get_definition_version_for_configuration get_pipeline assert_module_requirements_met
activate_inactive c tenant_id x = do
  version_id ← or_raise x.active_definition_version_id activation
  version ←
      or_raise (get_definition_version_for_configuration c tenant_id x.id version_id) activation
  pipeline ← or_raise (get_pipeline c tenant_id x.pipeline_id) isolation
  raise_if (is_empty (stages_of c pipeline.id)) activation
  assert_module_requirements_met c tenant_id version.module_requirements
  let active = with_state ActivationState.active x
  ok (active, save_configuration active c)

unfoldable pub activate_configuration : Crm → Session → ℕ → Result CrmError (Configuration × Crm)
unfolding get_configuration activate_inactive
activate_configuration c session configuration_id = do
  x ← or_raise (get_configuration c session.tenant_id configuration_id) (core not_found)
  if is_active_configuration x.activation_state
      then ok (x, c)
      else activate_inactive c session.tenant_id x

unfoldable pub deactivate_configuration : Crm → Session → ℕ → Result CrmError (Configuration × Crm)
unfolding get_configuration
deactivate_configuration c session configuration_id = do
  x ← or_raise (get_configuration c session.tenant_id configuration_id) (core not_found)
  let inactive = with_state ActivationState.inactive x
  if is_active_configuration x.activation_state
      then ok (inactive, save_configuration inactive c)
      else ok (x, c)

abbrev pub stage_codes_of : List PipelineStage → List String
stage_codes_of stages = map (λ (s : PipelineStage). s.code) stages

-- `_validate_module_requirements`
unfoldable pub validate_module_requirements : Crm → List String → Result CrmError (Unit {0})
unfolding get_definition
validate_module_requirements c [] = ok tt
validate_module_requirements c (code ∷ codes) =
    raise_if (not (is_some (get_definition c.platform code))) validation
    >> validate_module_requirements c codes

abbrev pub new_version :
    Python → Crm → Session → Configuration → Pipeline → PolicySnapshot → Version
new_version py c session x pipeline policy = record {
  id = session.new_id;
  tenant_id = session.tenant_id;
  configuration_id = x.id;
  version_number = max_version_number c x.id + 1;
  pipeline_id = pipeline.id;
  policy_snapshot_json = py.dump policy;
  module_requirements = policy.module_requirements;
}

-- `request.policy` has been validated with the request.
unfoldable pub publish_definition_version :
    Python → Crm → Session → ℕ → PolicySnapshot → String → Result CrmError (Version × Crm)
unfolding get_configuration get_template_by_id get_pipeline validate_policy_against_pipeline
    validate_module_requirements max_version_number
publish_definition_version py c session configuration_id policy publish_reason = do
  let reason = py.builtins.strip publish_reason
  raise_if (not (has_text reason)) validation
  raise_if (ltb 2000 (py.text_length reason)) validation
  x ← or_raise (get_configuration c session.tenant_id configuration_id) (core not_found)
  template ← or_raise (get_template_by_id c x.process_template_id) (core not_found)
  pipeline ← or_raise (get_pipeline c session.tenant_id x.pipeline_id) isolation
  raise_as validation (
      validate_policy_against_pipeline policy pipeline.code
        (stage_codes_of (stages_of c pipeline.id)) template.code)
  validate_module_requirements c policy.module_requirements
  let version = new_version py c session x pipeline policy
  ok (version, record c { versions = version ∷ c.versions })

unfoldable pub set_active_definition_version :
    Crm → Session → ℕ → ℕ → Result CrmError (Configuration × Crm)
unfolding get_configuration get_definition_version_for_configuration get_pipeline
set_active_definition_version c session configuration_id version_id = do
  x ← or_raise (get_configuration c session.tenant_id configuration_id) (core not_found)
  version ←
      or_raise
        (get_definition_version_for_configuration c session.tenant_id configuration_id version_id)
        validation
  raise_if (not (version.tenant_id == session.tenant_id)) isolation
  raise_if (not (version.configuration_id == x.id)) validation
  pipeline ← or_raise (get_pipeline c session.tenant_id x.pipeline_id) isolation
  raise_if (not (pipeline.id == version.pipeline_id)) isolation
  let active : Configuration = record x { active_definition_version_id = some version.id }
  ok (active, save_configuration active c)
