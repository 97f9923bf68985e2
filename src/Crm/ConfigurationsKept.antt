-- ===== src/Crm/ConfigurationsKept.antt =====
-- The configurations of processes: a call on them leaves the items and the runs as they are.
use coreops_platform.Base.{
  ℕ, ◌≡◌, ap, subst, String, not, Option, ◌∷◌, inl, inr, ◌==◌, str_eq, Bool-cases, is_empty, Result,
  ok, >>=-eq-ok, raise_if, or_raise, ok_inj,
}
use coreops_platform.Platform.{not_found, conflict}
use coreops_platform.Crm.Model.{
  Configuration, ActivationState, Crm, Session, Python, CrmError, core, validation, activation,
  isolation,
}
use coreops_platform.Crm.Repository.{
  get_template_by_code, get_pipeline, get_configuration, get_definition_version_for_configuration,
  save_configuration, stages_of,
}
use coreops_platform.Crm.Process.{Keeps}
use coreops_platform.Crm.Consistency.{IsConsistent}
use coreops_platform.Crm.ProcessRuns.{is_active_configuration}
use coreops_platform.Crm.Publication.{
  new_configuration, has_configuration, create_configuration, assert_module_requirements_met,
  with_state, activate_inactive, activate_configuration, deactivate_configuration,
  set_active_definition_version,
}
use coreops_platform.Crm.MovesConsistent.{kept}

-- The tables of a call that returned a configuration too.
made_configuration :
    (py : Python) (c : Crm) (x y : Configuration) (after d : Crm)
    → ◌≡◌ {A = Result CrmError (Configuration × Crm)} (ok (x, after)) (ok (y, d))
    → Keeps py c after
    → Keeps py c d
made_configuration py c x y after d e k =
    subst (Keeps py c) (ap (λ (p : Configuration × Crm). p.1) (ok_inj e)) k

pub create_configuration-Keeps :
    (py : Python) (c d : Crm) (session : Session) (code : String) (pipeline_id : ℕ)
    (out : Configuration)
    → create_configuration c session code pipeline_id ≡ ok (out, d)
    → IsConsistent c
    → Keeps py c d
unfolding create_configuration
create_configuration-Keeps py c d session code pipeline_id out h k =
    let (t, e1, h1) = >>=-eq-ok (or_raise (get_template_by_code c code) (core not_found)) _ h in
    let (u2, e2, h2) = >>=-eq-ok (raise_if (not t.is_active) (core not_found)) _ h1 in
    let (p, e3, h3) =
      >>=-eq-ok (or_raise (get_pipeline c session.tenant_id pipeline_id) isolation) _ h2 in
    let (u4, e4, h4) =
      >>=-eq-ok (raise_if (not (str_eq p.code t.default_pipeline_code)) validation) _ h3 in
    let (u5, e5, h5) =
      >>=-eq-ok
        (raise_if (has_configuration session.tenant_id t.id pipeline_id c.configurations)
          (core conflict))
        _ h4 in
    let x = new_configuration session t p in
    made_configuration py c x out (record c { configurations = x ∷ c.configurations }) d h5
      (kept py c k)

activate_inactive-Keeps :
    (py : Python) (c d : Crm) (tenant_id : ℕ) (x out : Configuration)
    → activate_inactive c tenant_id x ≡ ok (out, d)
    → IsConsistent c
    → Keeps py c d
unfolding activate_inactive
activate_inactive-Keeps py c d tenant_id x out h k =
    let (id, e1, h1) = >>=-eq-ok (or_raise x.active_definition_version_id activation) _ h in
    let (v, e2, h2) =
      >>=-eq-ok (or_raise (get_definition_version_for_configuration c tenant_id x.id id) activation)
        _ h1 in
    let (p, e3, h3) =
      >>=-eq-ok (or_raise (get_pipeline c tenant_id x.pipeline_id) isolation) _ h2 in
    let (u4, e4, h4) = >>=-eq-ok (raise_if (is_empty (stages_of c p.id)) activation) _ h3 in
    let (u5, e5, h5) =
      >>=-eq-ok (assert_module_requirements_met c tenant_id v.module_requirements) _ h4 in
    let active = with_state ActivationState.active x in
    made_configuration py c active out (save_configuration active c) d h5 (kept py c k)

pub activate_configuration-Keeps :
    (py : Python) (c d : Crm) (session : Session) (id : ℕ) (out : Configuration)
    → activate_configuration c session id ≡ ok (out, d)
    → IsConsistent c
    → Keeps py c d
unfolding activate_configuration
activate_configuration-Keeps py c d session id out h k =
    let (x, e1, h1) =
      >>=-eq-ok (or_raise (get_configuration c session.tenant_id id) (core not_found)) _ h in
    elim (Bool-cases (is_active_configuration x.activation_state)) [
      | inl y ↦ made_configuration py c x out c d (rw y at h1) (kept py c k)
      | inr n ↦ activate_inactive-Keeps py c d session.tenant_id x out (rw n at h1) k
    ]

pub deactivate_configuration-Keeps :
    (py : Python) (c d : Crm) (session : Session) (id : ℕ) (out : Configuration)
    → deactivate_configuration c session id ≡ ok (out, d)
    → IsConsistent c
    → Keeps py c d
unfolding deactivate_configuration
deactivate_configuration-Keeps py c d session id out h k =
    let (x, e1, h1) =
      >>=-eq-ok (or_raise (get_configuration c session.tenant_id id) (core not_found)) _ h in
    let inactive = with_state ActivationState.inactive x in
    elim (Bool-cases (is_active_configuration x.activation_state)) [
      | inl y ↦
          made_configuration py c inactive out (save_configuration inactive c) d (rw y at h1)
            (kept py c k)
      | inr n ↦ made_configuration py c x out c d (rw n at h1) (kept py c k)
    ]

pub set_active_definition_version-Keeps :
    (py : Python) (c d : Crm) (session : Session) (id version_id : ℕ) (out : Configuration)
    → set_active_definition_version c session id version_id ≡ ok (out, d)
    → IsConsistent c
    → Keeps py c d
unfolding set_active_definition_version
set_active_definition_version-Keeps py c d session id version_id out h k =
    let (x, e1, h1) =
      >>=-eq-ok (or_raise (get_configuration c session.tenant_id id) (core not_found)) _ h in
    let (v, e2, h2) =
      >>=-eq-ok
        (or_raise (get_definition_version_for_configuration c session.tenant_id id version_id)
          validation)
        _ h1 in
    let (u3, e3, h3) =
      >>=-eq-ok (raise_if (not (v.tenant_id == session.tenant_id)) isolation) _ h2 in
    let (u4, e4, h4) = >>=-eq-ok (raise_if (not (v.configuration_id == x.id)) validation) _ h3 in
    let (p, e5, h5) =
      >>=-eq-ok (or_raise (get_pipeline c session.tenant_id x.pipeline_id) isolation) _ h4 in
    let (u6, e6, h6) = >>=-eq-ok (raise_if (not (p.id == v.pipeline_id)) isolation) _ h5 in
    let active : Configuration = record x { active_definition_version_id = Option.some v.id } in
    made_configuration py c active out (save_configuration active c) d h6 (kept py c k)
