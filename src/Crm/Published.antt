-- ===== src/Crm/Published.antt =====
-- What a publication of backend/app/modules/process_overlay/service/publication.py adds: a version with
-- the next number, whose policy the transition guard reads back.
use coreops_platform.Base.{
  ℕ, ◌+◌, ◌≡◌, sym, ap, subst, ◌∙◌, String, Bool, true, not, ◌&&◌, ◌||◌, some, List, [], ◌∷◌, ltb,
  ◌==◌, All, All-map, arith, if◌then◌else◌, ok, >>=-eq-ok, raise_if, or_raise, or_raise-eq-ok,
  ok_inj, find?-eq-some,
}
use coreops_platform.Platform.{not_found}
use coreops_platform.Crm.Policy.{
  PolicySnapshot, has_text, model_validate, parse_policy_snapshot, validate_policy_against_pipeline,
}
use coreops_platform.Crm.PolicyDump.{dumped_fields, dumped_fields-allowed}
use coreops_platform.Crm.PolicyLaws.{model_validate_again}
use coreops_platform.Crm.Model.{
  core, validation, isolation, Configuration, Pipeline, Version, Crm, Session, Python,
}
use coreops_platform.Crm.Consistency.{IsConsistent}
use coreops_platform.Crm.Repository.{
  get_configuration, get_template_by_id, get_pipeline, stages_of, max_number, max_version_number,
}
use coreops_platform.Crm.Guard.{raise_as, parse_policy}
use coreops_platform.Crm.Publication.{
  new_version, publish_definition_version, validate_module_requirements, stage_codes_of,
}

-- What is added, and to which configuration and pipeline.
publication :
    (py : Python) (c d : Crm) (session : Session) (configuration_id : ℕ) (policy : PolicySnapshot)
    (reason : String) (v : Version)
    → publish_definition_version py c session configuration_id policy reason ≡ ok (v, d)
    → (x : Configuration) × (p : Pipeline) × (get_configuration c session.tenant_id configuration_id
        ≡ some x)
      × (v ≡ new_version py c session x p policy)
      × (d ≡ record c { versions = v ∷ c.versions })
unfolding publish_definition_version
publication py c d session configuration_id policy reason v h =
    let stripped = py.builtins.strip reason in
    let (u1, e1, h1) = >>=-eq-ok (raise_if (not (has_text stripped)) validation) _ h in
    let (u2, e2, h2) = >>=-eq-ok (raise_if (ltb 2000 (py.text_length stripped)) validation) _ h1 in
    let (x, e3, h3) =
      >>=-eq-ok (or_raise (get_configuration c session.tenant_id configuration_id) (core not_found))
        _ h2 in
    let (t, e4, h4) =
      >>=-eq-ok (or_raise (get_template_by_id c x.process_template_id) (core not_found)) _ h3 in
    let (p, e5, h5) =
      >>=-eq-ok (or_raise (get_pipeline c session.tenant_id x.pipeline_id) isolation) _ h4 in
    let (u6, e6, h6) =
      >>=-eq-ok
        (raise_as validation (
          validate_policy_against_pipeline policy p.code (stage_codes_of (stages_of c p.id))
            t.code))
        _ h5 in
    let (u7, e7, h7) = >>=-eq-ok (validate_module_requirements c policy.module_requirements) _ h6 in
    let next = new_version py c session x p policy in
    let q : ◌≡◌ {A = Version × Crm} (next, record c { versions = next ∷ c.versions }) (v, d) =
      ok_inj h7 in
    let same : next ≡ v = ap (λ (y : Version × Crm). y.0) q in
    (
      x,
      p,
      or_raise-eq-ok _ _ e3,
      sym same,
      ap (λ (y : Version × Crm). y.1) (sym q)
          ∙ ap (λ (w : Version). record c { versions = w ∷ c.versions }) same,
    )

-- A publication touches no table but that of the versions.
pub publish_definition_version-IsConsistent :
    (py : Python) (c d : Crm) (session : Session) (configuration_id : ℕ) (policy : PolicySnapshot)
    (reason : String) (v : Version)
    → publish_definition_version py c session configuration_id policy reason ≡ ok (v, d)
    → IsConsistent c
    → IsConsistent d
publish_definition_version-IsConsistent py c d session configuration_id policy reason v h k =
    let (x, p, found, same, added) =
      publication py c d session configuration_id policy reason v h in
    subst IsConsistent (sym added) k

parse_dumped :
    (py : Python) (p policy : PolicySnapshot)
    → ((s : String) → py.builtins.strip (py.builtins.strip s) ≡ py.builtins.strip s)
    → py.dump policy ≡ dumped_fields policy
    → py.decode (dumped_fields policy) ≡ some policy
    → model_validate py.builtins.strip py.text_length p ≡ ok policy
    → parse_policy py (py.dump policy) ≡ ok policy
unfolding parse_policy parse_policy_snapshot
parse_dumped py p policy idem dumps read valid =
    rw (dumps, dumped_fields-allowed policy, read)
      (model_validate_again py.builtins.strip idem py.text_length p policy valid)

-- Where a policy that came out of validation is published, stripping is idempotent, and pydantic dumps
-- the policy as its fields and reads those fields back, the transition guard reads from the new version
-- the policy that was published, the same text for text.
pub publish_definition_version-parse_policy :
    (py : Python) (c d : Crm) (session : Session) (configuration_id : ℕ) (p policy : PolicySnapshot)
    (reason : String) (v : Version)
    → ((s : String) → py.builtins.strip (py.builtins.strip s) ≡ py.builtins.strip s)
    → py.dump policy ≡ dumped_fields policy
    → py.decode (dumped_fields policy) ≡ some policy
    → model_validate py.builtins.strip py.text_length p ≡ ok policy
    → publish_definition_version py c session configuration_id policy reason ≡ ok (v, d)
    → parse_policy py v.policy_snapshot_json ≡ ok policy
publish_definition_version-parse_policy py c d session id p policy reason v idem dumps read valid
      h =
    let (x, q, found, same, added) = publication py c d session id policy reason v h in
    subst (λ (w : Version). parse_policy py w.policy_snapshot_json ≡ ok policy) (sym same)
      (parse_dumped py p policy idem dumps read valid)

-- A version that is not of the configuration, or has a smaller number.
abbrev pub is_before : ℕ → ℕ → Version → Bool
is_before configuration_id number v =
    not (v.configuration_id == configuration_id) || ltb v.version_number number

max_number_bounds :
    (configuration_id : ℕ) (vs : List Version)
    → All (λ v. is_before configuration_id (max_number configuration_id vs + 1) v ≡ true) vs
max_number_bounds id [] = tt
max_number_bounds id (v ∷ vs) = (
  first (max_number id vs),
  All-map (λ w. is_before id (max_number id vs + 1) w ≡ true)
      (λ w. is_before id (max_number id (v ∷ vs) + 1) w ≡ true) vs (later (max_number id vs))
      (max_number_bounds id vs),
)
  where
    larger : ℕ → ℕ
    larger rest =
        if v.configuration_id == id && ltb rest v.version_number then v.version_number else rest

    first : (rest : ℕ) → is_before id (larger rest + 1) v ≡ true
    first rest = ground arith

    later :
        (rest : ℕ) (w : Version)
        → is_before id (rest + 1) w ≡ true
        → is_before id (larger rest + 1) w ≡ true
    later rest w h = ground arith

-- A publication adds one version before the others, of the configuration asked for, and its number is
-- larger than that of every version that the configuration had.
pub publish_definition_version_numbers :
    (py : Python) (c d : Crm) (session : Session) (configuration_id : ℕ) (policy : PolicySnapshot)
    (reason : String) (v : Version)
    → publish_definition_version py c session configuration_id policy reason ≡ ok (v, d)
    → (d.versions ≡ v ∷ c.versions)
      × (v.configuration_id ≡ configuration_id)
      × All (λ w. is_before configuration_id v.version_number w ≡ true) c.versions
unfolding get_configuration max_version_number
publish_definition_version_numbers py c d session id policy reason v h =
    let (x, p, found, same, added) = publication py c d session id policy reason v h in
    let (t, m) =
      find?-eq-some (λ (y : Configuration). y.tenant_id == session.tenant_id && y.id == id)
        c.configurations x found in
    let e : x.id ≡ id = ground arith in
    (
      ap (λ (y : Crm). y.versions) added,
      ap (λ (w : Version). w.configuration_id) same ∙ e,
      subst (λ (w : Version). All (λ z. is_before id w.version_number z ≡ true) c.versions)
          (sym same)
          (subst (λ n. All (λ z. is_before id (max_number n c.versions + 1) z ≡ true) c.versions)
            (sym e) (max_number_bounds id c.versions)),
    )
