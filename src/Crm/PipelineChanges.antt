-- ===== src/Crm/PipelineChanges.antt =====
-- A change of a pipeline by `update_pipeline` of
-- backend/app/modules/workflows/service/workflow_service.py keeps the tables consistent.
use coreops_platform.Base.{
  ℕ, ◌≡◌, refl, ap, subst, Bool, ◌&&◌, is_some, List, [], ◌∷◌, inl, inr, ◌==◌, Bool-cases,
  All-of_Elem, Elem, find?, update_where, ok, >>=-eq-ok, or_raise, ok_inj,
}
use coreops_platform.Platform.{not_found}
use coreops_platform.Crm.Model.{Pipeline, WorkItem, Crm, Session, Python, core}
use coreops_platform.Crm.Repository.{get_pipeline, is_stage_of}
use coreops_platform.Crm.Guard.{code_of}
use coreops_platform.Crm.Process.{Keeps}
use coreops_platform.Crm.Consistency.{IsConsistent, stage_code}
use coreops_platform.Crm.Pipelines.{PipelineUpdate, apply_update, update_pipeline}
use coreops_platform.Crm.PipelinesKept.{find?_ext, restaged}
use coreops_platform.Crm.MovesConsistent.{kept}
use coreops_platform.Crm.ItemsKept.{Prepared-Keeps}

-- A change that a test does not see leaves what the test finds.
is_found_after :
    {A : Type 0} (p q : A → Bool) (f : A → A) (rows : List A)
    → ((x : A) → q (f x) ≡ q x)
    → is_some (find? q (update_where p f rows)) ≡ is_some (find? q rows)
is_found_after p q f [] h = refl
is_found_after p q f (x ∷ rows) h =
    let ih = is_found_after p q f rows h in
    elim (Bool-cases (p x)) [
      | inl t ↦ elim (Bool-cases (q x)) [ inl y ↦ rw (t, h x, y) refl | inr n ↦ rw (t, h x, n) ih ]
      | inr u ↦ elim (Bool-cases (q x)) [ inl y ↦ rw (u, y) refl | inr n ↦ rw (u, n) ih ]
    ]

changed-IsConsistent :
    (c : Crm) (test : Pipeline → Bool) (payload : PipelineUpdate)
    → IsConsistent c
    → IsConsistent (record c { pipelines = update_where test (apply_update payload) c.pipelines })
changed-IsConsistent c test payload h =
    (h.0, h.1, h.2, h.3, restaged c.pipelines after c.stages c.stages c.items c.runs same h.4, h.5)
  where
    after : List Pipeline
    after = update_where test (apply_update payload) c.pipelines

    same :
        (i : WorkItem)
        → Elem i c.items
        → stage_code after c.stages i ≡ stage_code c.pipelines c.stages i
    same i m = ap code_of (
        find?_ext (λ s. is_stage_of after i.tenant_id s && s.id == i.stage_id)
          (λ s. is_stage_of c.pipelines i.tenant_id s && s.id == i.stage_id) c.stages
          (All-of_Elem
            (λ s.
              (is_stage_of after i.tenant_id s && s.id == i.stage_id)
              ≡ (is_stage_of c.pipelines i.tenant_id s && s.id == i.stage_id))
            c.stages
            (λ s ms.
              ap (λ b. b && s.id == i.stage_id)
                (is_found_after test
                  (λ (p : Pipeline). p.id == s.pipeline_id && p.tenant_id == i.tenant_id)
                  (apply_update payload) c.pipelines (λ x. refl)))))

pub update_pipeline-Keeps :
    (py : Python) (c d : Crm) (session : Session) (pipeline_id : ℕ) (payload : PipelineUpdate)
    → update_pipeline c session pipeline_id payload ≡ ok d
    → IsConsistent c
    → Keeps py c d
unfolding update_pipeline
update_pipeline-Keeps py c d session pipeline_id payload h k =
    let (p, f, h1) =
      >>=-eq-ok (or_raise (get_pipeline c session.tenant_id pipeline_id) (core not_found)) _ h in
    let next : Crm = record c {
      pipelines = update_where (λ (x : Pipeline). x.id == p.id) (apply_update payload) c.pipelines;
    } in
    subst (Keeps py c) (ok_inj h1) (
      Prepared-Keeps py c next next refl refl
        (kept py next (changed-IsConsistent c (λ (x : Pipeline). x.id == p.id) payload k)))
