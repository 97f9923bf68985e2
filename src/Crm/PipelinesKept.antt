-- ===== src/Crm/PipelinesKept.antt =====
-- New pipelines and stages keep the tables consistent, and the runs to their processes.
use coreops_platform.Base.{
  ℕ, suc, ◌≤◌, ◌≡◌, ◌≢◌, refl, sym, ap, subst, ◌∙◌, Bool, true, false, ◌&&◌, is_some, List, [], ◌∷◌,
  inl, inr, ◌==◌, ==_iff, Bool-cases, All, All-Elem, All-map, Elem, find?, arith, ok, >>=-eq-ok,
  raise_if, ok_inj,
}
use coreops_platform.Platform.{conflict}
use coreops_platform.Crm.Model.{
  Pipeline, PipelineStage, WorkItem, Run, Crm, Session, Python, core, integrity,
}
use coreops_platform.Crm.Repository.{get_pipeline_by_code, is_stage_of}
use coreops_platform.Crm.Guard.{code_of}
use coreops_platform.Crm.Process.{Keeps}
use coreops_platform.Crm.Consistency.{IsConsistent, IsSynced, HasItsStage, stage_code, stage_id_of}
use coreops_platform.Crm.Pipelines.{
  StageCreate, PipelineCreate, new_stage, has_code, create_stages, new_pipeline, create_pipeline,
}
use coreops_platform.Crm.MovesConsistent.{kept}
use coreops_platform.Crm.ItemsKept.{Prepared-Keeps}

pub find?_ext :
    {A : Type 0} (p q : A → Bool) (xs : List A) → All (λ x. p x ≡ q x) xs → find? p xs ≡ find? q xs
find?_ext p q [] h = refl
find?_ext p q (x ∷ xs) h = elim (Bool-cases (q x)) [
  | inl y ↦ rw (h.0, y) refl
  | inr n ↦ rw (h.0, n) (find?_ext p q xs h.1)
]

-- The runs stay in step where the items keep the codes of their stages.
pub restaged :
    (ps qs : List Pipeline) (ss ts : List PipelineStage) (items : List WorkItem) (runs : List Run)
    → ((i : WorkItem) → Elem i items → stage_code qs ts i ≡ stage_code ps ss i)
    → All (IsSynced ps ss items) runs
    → All (IsSynced qs ts items) runs
restaged ps qs ss ts items runs f = All-map (IsSynced ps ss items) (IsSynced qs ts items) runs one
  where
    one : (r : Run) → IsSynced ps ss items r → IsSynced qs ts items r
    one r (inl off) = inl off
    one r (inr (i, m, e, t, k)) = inr (i, m, e, t, k ∙ sym (f i m))

staged :
    (c : Crm) (s : PipelineStage)
    → IsConsistent c
    → All (λ x. s.id ≢ stage_id_of x) c.stages
    → IsConsistent (record c { stages = s ∷ c.stages })
staged c s h fresh = (
  h.0,
  All-map (HasItsStage c.stages) (HasItsStage (s ∷ c.stages)) c.items
      (λ i (x, m, e, p). (x, inr m, e, p)) h.1,
  h.2,
  h.3,
  restaged c.pipelines c.pipelines c.stages (s ∷ c.stages) c.items c.runs same h.4,
  (fresh, h.5),
)
  where
    same :
        (i : WorkItem)
        → Elem i c.items
        → stage_code c.pipelines (s ∷ c.stages) i ≡ stage_code c.pipelines c.stages i
    same i m =
        let (x, mx, e, p) = All-Elem (HasItsStage c.stages) i c.items h.1 m in
        let apart = All-Elem (λ y. s.id ≢ stage_id_of y) x c.stages fresh mx in
        let off : (is_stage_of c.pipelines i.tenant_id s && s.id == i.stage_id) ≡ false =
          elim (Bool-cases (s.id == i.stage_id)) [
            | inl y ↦ absurd (apart ((==_iff s.id i.stage_id).0 y ∙ sym e))
            | inr n ↦ ground arith
          ] in
        rw off refl

piped :
    (c : Crm) (p : Pipeline)
    → IsConsistent c
    → All (λ (s : PipelineStage). p.id ≢ s.pipeline_id) c.stages
    → IsConsistent (record c { pipelines = p ∷ c.pipelines })
piped c p h fresh = (
  h.0,
  h.1,
  h.2,
  h.3,
  restaged c.pipelines (p ∷ c.pipelines) c.stages c.stages c.items c.runs same h.4,
  h.5,
)
  where
    test :
        (tenant_id : ℕ) (s : PipelineStage)
        → p.id ≢ s.pipeline_id
        → is_stage_of (p ∷ c.pipelines) tenant_id s ≡ is_stage_of c.pipelines tenant_id s
    test tenant_id s n =
        let off : (p.id == s.pipeline_id && p.tenant_id == tenant_id) ≡ false = ground arith in
        rw off refl

    same :
        (i : WorkItem)
        → Elem i c.items
        → stage_code (p ∷ c.pipelines) c.stages i ≡ stage_code c.pipelines c.stages i
    same i m = ap code_of (
        find?_ext (λ s. is_stage_of (p ∷ c.pipelines) i.tenant_id s && s.id == i.stage_id)
          (λ s. is_stage_of c.pipelines i.tenant_id s && s.id == i.stage_id) c.stages
          (All-map (λ (s : PipelineStage). p.id ≢ s.pipeline_id)
            (λ s.
              (is_stage_of (p ∷ c.pipelines) i.tenant_id s && s.id == i.stage_id)
              ≡ (is_stage_of c.pipelines i.tenant_id s && s.id == i.stage_id))
            c.stages (λ s n. ap (λ b. b && s.id == i.stage_id) (test i.tenant_id s n)) fresh))

-- What the creation of stages leaves as it was.
abbrev IsStaged : Crm → Crm → Type 0
IsStaged c d = IsConsistent d × (d.versions ≡ c.versions) × (d.runs ≡ c.runs)

stages_created :
    (pipeline_id : ℕ) (ids : ℕ → ℕ) (n : ℕ) (ss : List StageCreate) (c d : Crm)
    → ((j k : ℕ) → (ids j == ids k) ≡ (j == k))
    → ((k : ℕ) → n ≤ k → All (λ x. ids k ≢ stage_id_of x) c.stages)
    → create_stages pipeline_id ids n ss c ≡ ok d
    → IsConsistent c
    → IsStaged c d
unfolding create_stages
stages_created pipeline_id ids n [] c d inj fresh h k =
    subst (IsStaged c) (ok_inj h) (k, refl, refl)
stages_created pipeline_id ids n (s ∷ ss) c d inj fresh h k =
    let (u, e, h1) =
      >>=-eq-ok (raise_if (is_some (find? (has_code pipeline_id s.code) c.stages)) integrity) _ h in
    let row = new_stage (ids n) pipeline_id s in
    stages_created pipeline_id ids (suc n) ss (record c { stages = row ∷ c.stages }) d inj
      (λ j le. (
        λ q.
            let y : (ids j == ids n) ≡ true = (==_iff (ids j) (ids n)).1 q in
            let z : j ≡ n = (==_iff j n).0 (sym (inj j n) ∙ y) in omega (arith, z, le),
        fresh j (omega (arith, le)),
      ))
      h1 (staged c row k (fresh n (omega arith)))

-- The identifiers that a call takes for a pipeline and its stages are not in use, and differ.
abbrev pub HasFreshIds : Session → (ℕ → ℕ) → Crm → Type 0
HasFreshIds session ids c =
    All (λ (s : PipelineStage). session.new_id ≢ s.pipeline_id) c.stages
    × ((k : ℕ) → All (λ s. ids k ≢ stage_id_of s) c.stages)
    × ((j k : ℕ) → (ids j == ids k) ≡ (j == k))

pub create_pipeline-Keeps :
    (py : Python) (c d : Crm) (session : Session) (ids : ℕ → ℕ) (payload : PipelineCreate)
    → create_pipeline c session ids payload ≡ ok d
    → IsConsistent c
    → HasFreshIds session ids c
    → Keeps py c d
unfolding create_pipeline
create_pipeline-Keeps py c d session ids payload h k (a, b, inj) =
    let (u, e, h1) =
      >>=-eq-ok
        (raise_if (is_some (get_pipeline_by_code c session.tenant_id payload.code)) (core conflict))
        _ h in
    let added : Crm = record c { pipelines = new_pipeline session payload ∷ c.pipelines } in
    let (k1, v, r) =
      stages_created session.new_id ids 0 payload.stages added d inj (λ j le. b j) h1
        (piped c (new_pipeline session payload) k a) in
    Prepared-Keeps py c d d v r (kept py d k1)
