-- ===== src/Crm/MovesConsistent.antt =====
-- The operations of backend/app/modules/workflows/service/workflow_service.py that move a work item
-- keep the tables
-- consistent, and the runs to their processes.
use coreops_platform.Base.{
  ℕ, ◌≡◌, ◌≢◌, refl, sym, ap, subst, ◌∙◌, String, Bool, true, false, not, ◌&&◌, Option, some, List,
  inl, inr, ◌==◌, ==_iff, ==_refl, Bool-cases, Option-cases, All-Elem, Pairwise, Elem, find?,
  find?-eq-some, find?-eq-none, update_where, same_by_key, arith, str_eq, Result, ok, >>=-eq-ok,
  raise_if, or_raise, or_raise-eq-ok, ok_inj,
}
use coreops_platform.Platform.{conflict}
use coreops_platform.Parties.Values.{null, text}
use coreops_platform.Parties.CustomFields.{Fields}
use coreops_platform.Crm.Model.{
  PipelineStage, WorkItem, WorkItemStatus, Crm, Session, Python, CrmError, core, lift_fields,
}
use coreops_platform.Crm.Repository.{
  get_work_item, get_stage, get_stage_by_code, find_stage, is_stage_of, has_item_id,
}
use coreops_platform.Crm.Guard.{
  code_of, GuardResult, assert_transition_allowed, record_applied_transition,
}
use coreops_platform.Crm.GuardLaws.{Allowed, passed-Allowed, raise_ne-eq-ok}
use coreops_platform.Crm.Consistency.{
  IsConsistent, IsConsistentOf, stage_code, stage_id_of, entered,
}
use coreops_platform.Crm.Process.{RefinesOf, Keeps, runs_stay}
use coreops_platform.Crm.Following.{applied_runs, applied, followed, followed-RefinesOf}
use coreops_platform.Crm.WorkItems.{target_stage, prepare_fields, get_work_item_or_404}
use coreops_platform.Crm.Moves.{
  assert_process_transition, move_stage, close_work_item, reopen_work_item, is_same_stage,
  enter_stage, after_move, after_disposition, disposition_fields, note_value, moved_to, status_in,
}

-- A lookup by a key finds the one row of the key.
pub find?_unique :
    {A : Type 0} (key : A → ℕ) (p : A → Bool) (a : A) (xs : List A)
    → Pairwise (λ x y. key x ≢ key y) xs
    → Elem a xs
    → p a ≡ true
    → ((x : A) → p x ≡ true → key x ≡ key a)
    → find? p xs ≡ some a
find?_unique key p a xs d m t same = elim (Option-cases (find? p xs)) [
  | inl n ↦ let z = All-Elem (λ x. p x ≡ false) a xs (find?-eq-none p xs n) m in cc
  | inr (x, f) ↦
      let (tx, mx) = find?-eq-some p xs x f in
      f ∙ ap some (same_by_key key a x xs d m mx (same x tx))
]

pub get_work_item-Elem :
    (c : Crm) (tenant_id work_item_id : ℕ) (i : WorkItem)
    → get_work_item_or_404 c tenant_id work_item_id ≡ ok i
    → Elem i c.items × (i.tenant_id ≡ tenant_id) × (i.id ≡ work_item_id)
unfolding get_work_item
get_work_item-Elem c tenant_id work_item_id i h =
    let (t, m) =
      find?-eq-some (λ (x : WorkItem). x.tenant_id == tenant_id && x.id == work_item_id) c.items i
        (or_raise-eq-ok _ _ h) in
    (m, ground arith, ground arith)

-- A stage of the tenant, in the pipeline of the item.
abbrev pub IsTarget : Crm → ℕ → WorkItem → PipelineStage → Type 0
IsTarget c tenant_id i s =
    Elem s c.stages × (s.pipeline_id ≡ i.pipeline_id) × (is_stage_of c.pipelines tenant_id s ≡ true)

and_left : (a b : Bool) → (a && b) ≡ true → a ≡ true
and_left true b h = refl
and_left false b h = cc

pub and_right : (a b : Bool) → (a && b) ≡ true → b ≡ true
and_right true b h = h
and_right false b h = cc

pub target_stage-IsTarget :
    (c : Crm) (tenant_id : ℕ) (i : WorkItem) (stage_id : ℕ) (s : PipelineStage)
    → target_stage c tenant_id i stage_id ≡ ok s
    → IsTarget c tenant_id i s
unfolding target_stage get_stage
target_stage-IsTarget c tenant_id i stage_id s h =
    let (x, found, h1) = >>=-eq-ok _ _ h in
    let (u, same, h2) = >>=-eq-ok _ _ h1 in
    let (t, m) =
      find?-eq-some (λ y. is_stage_of c.pipelines tenant_id y && y.id == stage_id) c.stages x
        (or_raise-eq-ok _ _ found) in
    subst (IsTarget c tenant_id i) (ok_inj h2) (
      m,
      raise_ne-eq-ok _ _ _ same,
      and_left (is_stage_of c.pipelines tenant_id x) (x.id == stage_id) t,
    )

pub get_stage_by_code-IsTarget :
    (c : Crm) (tenant_id : ℕ) (i : WorkItem) (code : String) (e : CrmError) (s : PipelineStage)
    → or_raise (get_stage_by_code c tenant_id i.pipeline_id code) e ≡ ok s
    → IsTarget c tenant_id i s
unfolding get_stage_by_code
get_stage_by_code-IsTarget c tenant_id i code e s h =
    let (t, m) =
      find?-eq-some
        (λ (y : PipelineStage).
          is_stage_of c.pipelines tenant_id y
          && y.pipeline_id == i.pipeline_id
          && str_eq y.code code)
        c.stages s (or_raise-eq-ok _ _ h) in
    let k =
      and_left (is_stage_of c.pipelines tenant_id s && s.pipeline_id == i.pipeline_id)
        (str_eq s.code code) t in
    (
      m,
      (==_iff _ _).0 (and_right (is_stage_of c.pipelines tenant_id s) _ k),
      and_left (is_stage_of c.pipelines tenant_id s) _ k,
    )

-- An item that the guard lets into a stage keeps the tables consistent,
-- and the runs to their processes.
pub passed-Keeps :
    (py : Python) (c : Crm) (session : Session) (i moved : WorkItem) (s : PipelineStage)
    (g : GuardResult)
    → IsConsistent c
    → Elem i c.items
    → i.tenant_id ≡ session.tenant_id
    → IsTarget c session.tenant_id i s
    → assert_process_transition py c session i s ≡ ok g
    → moved.id ≡ i.id
    → moved.tenant_id ≡ i.tenant_id
    → moved.pipeline_id ≡ i.pipeline_id
    → moved.stage_id ≡ s.id
    → IsConsistentOf c.pipelines c.stages
        (update_where (has_item_id moved.id) (λ _. moved) c.items)
        (applied_runs g s.code c.runs)
      × RefinesOf py c.versions c.runs (applied_runs g s.code c.runs)
unfolding get_stage assert_transition_allowed
passed-Keeps py c session i moved s g h m t (ms, ps, ts) passed e1 e2 e3 e4 =
    elim (Option-cases (stage_code c.pipelines c.stages i)) [
      | inl n ↦ let z = rw (sym t, n) at passed in cc
      | inr (from, f) ↦
          let why : Allowed py c i.tenant_id i from s.code g =
            passed-Allowed py c i.tenant_id i from s.code g (rw (sym t, f) at passed) in
          let found : find_stage c.pipelines c.stages moved.tenant_id moved.stage_id ≡ some s =
            find?_unique stage_id_of
              (λ x. is_stage_of c.pipelines moved.tenant_id x && x.id == moved.stage_id) s c.stages
              h.5 ms (rw (e2, t, ts, e4) (==_refl s.id))
              (λ x y.
                (==_iff _ _).0 (and_right (is_stage_of c.pipelines moved.tenant_id x) _ y) ∙ e4) in
          let code : stage_code c.pipelines c.stages moved ≡ some s.code = ap code_of found in
          (
            entered c.pipelines c.stages c.items i moved m e1 e2 c.runs
                (applied_runs g s.code c.runs) (s, ms, sym e4, ps ∙ sym e3)
                (rw code (followed c h i m py from s.code g f why)) h,
            followed-RefinesOf c h i m py from s.code g f why,
          )
    ]

-- What a call has made is what it returned.
pub made :
    (py : Python) (c after d : Crm)
    → ◌≡◌ {A = Result CrmError Crm} (ok after) (ok d)
    → Keeps py c after
    → Keeps py c d
made py c after d e k = subst (Keeps py c) (ok_inj e) k

-- A call that has left the tables as they are.
pub kept : (py : Python) (c : Crm) → IsConsistent c → Keeps py c c
kept py c h = (h, refl, runs_stay py c.versions c.runs)

pub enter_stage-Keeps :
    (py : Python) (c after d : Crm) (session : Session) (i moved : WorkItem) (s : PipelineStage)
    → enter_stage py c session i s after ≡ ok d
    → ((g : GuardResult)
        → assert_process_transition py c session i s ≡ ok g
        → Keeps py c (record_applied_transition g s.code after))
    → Keeps py c d
unfolding enter_stage
enter_stage-Keeps py c after d session i moved s h k =
    let (g, passed, h3) =
      >>=-eq-ok (assert_process_transition py c session i s)
        (λ guard. ok (record_applied_transition guard s.code after)) h in
    made py c (record_applied_transition g s.code after) d h3 (k g passed)

pub move_stage-Keeps :
    (py : Python) (c d : Crm) (session : Session) (work_item_id stage_id : ℕ)
    → move_stage py c session work_item_id stage_id ≡ ok d
    → IsConsistent c
    → Keeps py c d
unfolding move_stage
move_stage-Keeps py c d session work_item_id stage_id h k =
    let (i, found, h1) = >>=-eq-ok (get_work_item_or_404 c session.tenant_id work_item_id) _ h in
    let (s, target, h2) = >>=-eq-ok (target_stage c session.tenant_id i stage_id) _ h1 in
    let (m, t, e) = get_work_item-Elem c session.tenant_id work_item_id i found in
    elim (Bool-cases (is_same_stage (get_stage c session.tenant_id i.stage_id) s)) [
      | inl y ↦ let z : ok c ≡ ok d = rw y at h2 in made py c c d z (kept py c k)
      | inr n ↦
          let z : enter_stage py c session i s (after_move c session i s) ≡ ok d = rw n at h2 in
          enter_stage-Keeps py c (after_move c session i s) d session i i s z (λ g passed.
            let kept_by =
              passed-Keeps py c session i (moved_to s (status_in s) i) s g k m t
                (target_stage-IsTarget c session.tenant_id i stage_id s target) passed refl refl
                refl refl in
            applied py c (after_move c session i s) g s.code kept_by.0 refl kept_by.1)
    ]

disposed :
    (py : Python) (c d : Crm) (session : Session) (i : WorkItem) (s : PipelineStage)
    (status : WorkItemStatus) (values : Fields) (g : GuardResult)
    → ◌≡◌ {A = Result CrmError Crm}
        (ok (record_applied_transition g s.code (after_disposition c session i s status values)))
        (ok d)
    → IsConsistent c
    → Elem i c.items
    → i.tenant_id ≡ session.tenant_id
    → IsTarget c session.tenant_id i s
    → assert_process_transition py c session i s ≡ ok g
    → Keeps py c d
disposed py c d session i s status values g h k m t target passed =
    let kept_by =
      passed-Keeps py c session i (moved_to s status i) s g k m t target passed refl refl refl
        refl in
    let after = after_disposition c session i s status values in
    made py c (record_applied_transition g s.code after) d h
      (applied py c after g s.code kept_by.0 refl kept_by.1)

pub close_work_item-Keeps :
    (py : Python) (c d : Crm) (session : Session) (work_item_id : ℕ) (disposition : String)
    (note : Option String)
    → close_work_item py c session work_item_id disposition note ≡ ok d
    → IsConsistent c
    → Keeps py c d
unfolding close_work_item
close_work_item-Keeps py c d session work_item_id disposition note h k =
    let (i, found, h1) = >>=-eq-ok (get_work_item_or_404 c session.tenant_id work_item_id) _ h in
    let (s, target, h2) =
      >>=-eq-ok
        (or_raise (get_stage_by_code c session.tenant_id i.pipeline_id "rejected") (core conflict))
        _ h1 in
    let (g, passed, h3) = >>=-eq-ok (assert_process_transition py c session i s) _ h2 in
    let (values, prepared, h4) =
      >>=-eq-ok
        (lift_fields (
          prepare_fields py c session.tenant_id
            (disposition_fields (text disposition) (note_value py note))))
        _ h3 in
    let (m, t, e) = get_work_item-Elem c session.tenant_id work_item_id i found in
    disposed py c d session i s WorkItemStatus.lost values g h4 k m t
      (get_stage_by_code-IsTarget c session.tenant_id i "rejected" (core conflict) s target) passed

pub reopen_work_item-Keeps :
    (py : Python) (c d : Crm) (session : Session) (work_item_id : ℕ)
    → reopen_work_item py c session work_item_id ≡ ok d
    → IsConsistent c
    → Keeps py c d
unfolding reopen_work_item
reopen_work_item-Keeps py c d session work_item_id h k =
    let (i, found, h1) = >>=-eq-ok (get_work_item_or_404 c session.tenant_id work_item_id) _ h in
    let (current, u0, h2) =
      >>=-eq-ok (or_raise (get_stage c session.tenant_id i.stage_id) (core conflict)) _ h1 in
    let (u1, rejected, h3) =
      >>=-eq-ok (raise_if (not (str_eq current.code "rejected")) (core conflict)) _ h2 in
    let (s, target, h4) =
      >>=-eq-ok
        (or_raise (get_stage_by_code c session.tenant_id i.pipeline_id "new_lead") (core conflict))
        _ h3 in
    let (g, passed, h5) = >>=-eq-ok (assert_process_transition py c session i s) _ h4 in
    let (values, prepared, h6) =
      >>=-eq-ok (lift_fields (prepare_fields py c session.tenant_id (disposition_fields null null)))
        _ h5 in
    let (m, t, e) = get_work_item-Elem c session.tenant_id work_item_id i found in
    disposed py c d session i s WorkItemStatus.in_progress values g h6 k m t
      (get_stage_by_code-IsTarget c session.tenant_id i "new_lead" (core conflict) s target) passed
