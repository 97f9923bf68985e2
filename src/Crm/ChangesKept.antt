-- ===== src/Crm/ChangesKept.antt =====
-- The update and the deletion of a work item, and its new activities and tasks, keep the tables
-- consistent, and the runs to their processes.
use coreops_platform.Base.{
  ℕ, ◌≡◌, ◌≢◌, refl, sym, ap, subst, String, true, false, not, Option, none, some, is_some, get_or,
  ◌∷◌, inl, inr, ◌==◌, ==_refl, Bool-cases, All, All-Elem, All-of_Elem, All-map, All-filter,
  Pairwise-filter, Elem, Elem-filter, filter, find?, find?-eq-none, Result, ok, err, >>=-eq-ok,
  raise_if, raise_if-eq-ok, ok_inj,
}
use coreops_platform.Crm.Model.{
  WorkItem, WorkItemUpdate, TaskCreate, Task, Participant, Activity, ActivityType, Run, Crm,
  Session, Python, CrmError, integrity,
}
use coreops_platform.Crm.Repository.{save_item, has_item_id, add_activity_row}
use coreops_platform.Crm.Guard.{GuardResult, record_applied_transition}
use coreops_platform.Crm.Process.{Keeps, runs_stay}
use coreops_platform.Crm.Consistency.{IsConsistent, IsSynced, HasItsStage, id_of, Elem-written}
use coreops_platform.Crm.Following.{applied}
use coreops_platform.Crm.WorkItems.{write_fields, ensure_party, get_work_item_or_404, target_stage}
use coreops_platform.Crm.Moves.{
  enter_stage, assert_process_transition, with_item, update_stage, updated, prepare_update,
  update_work_item, moved_to, add_activity, add_task, is_task_accepted, delete_work_item,
}
use coreops_platform.Crm.MovesConsistent.{
  get_work_item-Elem, target_stage-IsTarget, passed-Keeps, made, kept,
}
use coreops_platform.Crm.ItemsKept.{save_item-IsConsistent}
use coreops_platform.Crm.StartKept.{none_of}

-- The tables after the change of stage of an update, and the item in them.
abbrev IsEntered : Python → Crm → WorkItem × Crm → Type 0
IsEntered py c out = Keeps py c out.1 × Elem out.0 out.1.items

with_item-eq-ok :
    (i : WorkItem) (r : Result CrmError Crm) (out : WorkItem × Crm)
    → with_item i r ≡ ok out
    → (r ≡ ok out.1) × (out.0 ≡ i)
with_item-eq-ok i (ok c) out h =
    let e = ok_inj h in
    (ap ok (ap (λ (p : WorkItem × Crm). p.1) e), sym (ap (λ (p : WorkItem × Crm). p.0) e))
with_item-eq-ok i (err e) out h = cc

recorded-Elem :
    (g : GuardResult) (code : String) (c : Crm) (i : WorkItem)
    → Elem i c.items
    → Elem i (record_applied_transition g code c).items
unfolding record_applied_transition
recorded-Elem GuardResult.noop code c i m = m
recorded-Elem GuardResult.unenforced code c i m = m
recorded-Elem (GuardResult.enforced run version) code c i m = m

update_stage-IsEntered :
    (py : Python) (c : Crm) (session : Session) (i : WorkItem) (o : Option ℕ) (out : WorkItem × Crm)
    → update_stage py c session i o ≡ ok out
    → IsConsistent c
    → Elem i c.items
    → i.tenant_id ≡ session.tenant_id
    → IsEntered py c out
unfolding update_stage enter_stage
update_stage-IsEntered py c session i none out h k m t =
    subst (IsEntered py c) (ok_inj {a = (i, c)} h) (kept py c k, m)
update_stage-IsEntered py c session i (some stage_id) out h k m t =
    let (s, target, h1) = >>=-eq-ok (target_stage c session.tenant_id i stage_id) _ h in
    elim (Bool-cases (s.id == i.stage_id)) [
      | inl y ↦
          let z : ◌≡◌ {A = Result CrmError (WorkItem × Crm)} (ok (i, c)) (ok out) = rw y at h1 in
          subst (IsEntered py c) (ok_inj {a = (i, c)} z) (kept py c k, m)
      | inr n ↦
          let moved = moved_to s i.status i in
          let after = save_item moved c in
          let z : with_item moved (enter_stage py c session i s after) ≡ ok out = rw n at h1 in
          let (z1, e) = with_item-eq-ok moved (enter_stage py c session i s after) out z in
          let (g, passed, h3) =
            >>=-eq-ok (assert_process_transition py c session i s)
              (λ guard. ok (record_applied_transition guard s.code after)) z1 in
          let kept_by =
            passed-Keeps py c session i moved s g k m t
              (target_stage-IsTarget c session.tenant_id i stage_id s target) passed refl refl refl
              refl in
          let final : Crm = record_applied_transition g s.code after in
          (
            made py c final out.1 h3 (applied py c after g s.code kept_by.0 refl kept_by.1),
            subst (λ x. Elem x out.1.items) (sym e)
                (subst (λ (d : Crm). Elem moved d.items) (ok_inj {a = final} h3)
                  (recorded-Elem g s.code after moved
                    (Elem-written (has_item_id moved.id) moved i c.items m (==_refl i.id)))),
          )
    ]

pub update_work_item-Keeps :
    (py : Python) (c d : Crm) (session : Session) (work_item_id : ℕ) (payload : WorkItemUpdate)
    → update_work_item py c session work_item_id payload ≡ ok d
    → IsConsistent c
    → Keeps py c d
unfolding update_work_item
update_work_item-Keeps py c d session work_item_id payload h k =
    let (i, found, h1) = >>=-eq-ok (get_work_item_or_404 c session.tenant_id work_item_id) _ h in
    let (out, e2, h2) = >>=-eq-ok (update_stage py c session i payload.stage_id) _ h1 in
    let (u3, e3, h3) =
      >>=-eq-ok (ensure_party out.1 session.tenant_id payload.primary_party_id) _ h2 in
    let (values, e4, h4) =
      >>=-eq-ok (prepare_update py out.1 session.tenant_id payload.custom_fields) _ h3 in
    let (m, t, e) = get_work_item-Elem c session.tenant_id work_item_id i found in
    let ((k1, v1, f1), m1) = update_stage-IsEntered py c session i payload.stage_id out e2 k m t in
    let saved = updated payload out.0 in
    made py c (write_fields session.tenant_id i.id values (save_item saved out.1)) d h4
      (save_item-IsConsistent out.1 out.0 saved k1 m1 refl refl refl refl, v1, f1)

pub add_activity-Keeps :
    (py : Python) (c d : Crm) (session : Session) (work_item_id : ℕ) (type : ActivityType)
    (occurred_at : Option ℕ)
    → add_activity c session work_item_id type occurred_at ≡ ok d
    → IsConsistent c
    → Keeps py c d
unfolding add_activity
add_activity-Keeps py c d session work_item_id type occurred_at h k =
    let (i, found, h1) = >>=-eq-ok (get_work_item_or_404 c session.tenant_id work_item_id) _ h in
    made py c
      (add_activity_row session.tenant_id work_item_id type (get_or occurred_at session.now) c) d h1
      (kept py c k)

pub add_task-Keeps :
    (py : Python) (c d : Crm) (session : Session) (work_item_id : ℕ) (payload : TaskCreate)
    → add_task py c session work_item_id payload ≡ ok d
    → IsConsistent c
    → Keeps py c d
unfolding add_task
add_task-Keeps py c d session work_item_id payload h k =
    let (i, found, h1) = >>=-eq-ok (get_work_item_or_404 c session.tenant_id work_item_id) _ h in
    let (u, accepted, h2) =
      >>=-eq-ok
        (raise_if
          (not
            (is_task_accepted py c session.tenant_id payload.process_run_id payload.automation_key))
          integrity)
        _ h1 in
    let task : Task = record {
      tenant_id = session.tenant_id;
      work_item_id = work_item_id;
      process_run_id = payload.process_run_id;
      automation_key = payload.automation_key;
      status = payload.status;
      due_at = payload.due_at;
      assigned_to_user_id = payload.assigned_to_user_id;
    } in
    made py c (record c { tasks = task ∷ c.tasks }) d h2 (kept py c k)

-- An item that no run refers to goes.
deleted-IsConsistent :
    (c : Crm) (i : WorkItem)
    → IsConsistent c
    → All (λ (r : Run). (r.work_item_id == i.id) ≡ false) c.runs
    → IsConsistent (record c { items = filter (λ x. not (has_item_id i.id x)) c.items })
deleted-IsConsistent c i h free =
    let keep = λ (x : WorkItem). not (has_item_id i.id x) in
    (
      Pairwise-filter keep (λ x y. id_of x ≢ id_of y) c.items h.0,
      All-filter keep (HasItsStage c.stages) c.items (
          All-map (HasItsStage c.stages) (λ x. keep x ≡ true → HasItsStage c.stages x) c.items
            (λ x s y. s) h.1),
      h.2,
      h.3,
      All-of_Elem (IsSynced c.pipelines c.stages (filter keep c.items)) c.runs (λ r mr.
          still r (All-Elem (λ (x : Run). (x.work_item_id == i.id) ≡ false) r c.runs free mr)
            (All-Elem (IsSynced c.pipelines c.stages c.items) r c.runs h.4 mr)),
      h.5,
    )
  where
    still :
        (r : Run)
        → (r.work_item_id == i.id) ≡ false
        → IsSynced c.pipelines c.stages c.items r
        → IsSynced c.pipelines c.stages (filter (λ x. not (has_item_id i.id x)) c.items) r
    still r n (inl off) = inl off
    still r n (inr (j, mj, e, t, k)) =
        inr (j, Elem-filter (λ x. not (has_item_id i.id x)) c.items j mj (rw (e, n) refl), e, t, k)

pub delete_work_item-Keeps :
    (py : Python) (c d : Crm) (session : Session) (work_item_id : ℕ)
    → delete_work_item c session work_item_id ≡ ok d
    → IsConsistent c
    → Keeps py c d
unfolding delete_work_item
delete_work_item-Keeps py c d session work_item_id h k =
    let (i, found, h1) = >>=-eq-ok (get_work_item_or_404 c session.tenant_id work_item_id) _ h in
    let (u, free, h2) =
      >>=-eq-ok (raise_if (is_some (find? (λ (r : Run). r.work_item_id == i.id) c.runs)) integrity)
        _ h1 in
    made py c
      (record c {
        items = filter (λ x. not (has_item_id i.id x)) c.items;
        participants = filter (λ (p : Participant). not (p.work_item_id == i.id)) c.participants;
        activities = filter (λ (a : Activity). not (a.work_item_id == i.id)) c.activities;
        tasks = filter (λ (t : Task). not (t.work_item_id == i.id)) c.tasks;
      })
      d h2
      (
        deleted-IsConsistent c i k (
            find?-eq-none (λ (r : Run). r.work_item_id == i.id) c.runs
              (none_of _ (raise_if-eq-ok _ _ free))),
        refl,
        runs_stay py c.versions c.runs,
      )
