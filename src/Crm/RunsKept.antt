-- ===== src/Crm/RunsKept.antt =====
-- The operations of backend/app/modules/process_overlay/service/runs.py keep the tables consistent, and
-- the runs to their processes.
use coreops_platform.Base.{
  ℕ, ◌≡◌, refl, sym, ap, subst, ◌∙◌, String, Bool, true, false, not, ◌&&◌, Option, some, ◌⊎◌, inl,
  inr, ◌==◌, ==_iff, Bool-cases, All-Elem, All-of_Elem, All-update_where, Pairwise-saved,
  Pairwise-Pointwise, Pointwise-update_where, Elem, find?-eq-some, update_where, same_by_key,
  Result, ok, >>=-eq-ok, raise_if, or_raise, or_raise-eq-ok, ok_inj,
}
use coreops_platform.Platform.{not_found}
use coreops_platform.Crm.Model.{Run, RunState, Crm, Session, Python, CrmError, core, validation}
use coreops_platform.Crm.Repository.{is_active_state, get_run, save_run}
use coreops_platform.Crm.Process.{
  ProcessStep, IsPolicyEdge, HasSamePin, Keeps, process_of, state_at,
}
use coreops_platform.Crm.Consistency.{
  IsConsistent, IsSynced, run_id_of, are_exclusive, Elem-written, Elem-kept,
}
use coreops_platform.Crm.ProcessRuns.{
  get_active_run_or_raise, ended, stripped_reason, complete_run, cancel_run,
}
use coreops_platform.Crm.GuardLaws.{raise_not-eq-ok}

get_active_run_or_raise-Elem :
    (c : Crm) (tenant_id run_id : ℕ) (run : Run)
    → get_active_run_or_raise c tenant_id run_id ≡ ok run
    → Elem run c.runs × (is_active_state run.run_state ≡ true)
unfolding get_active_run_or_raise get_run
get_active_run_or_raise-Elem c tenant_id run_id run h =
    let (x, found, h1) = >>=-eq-ok (or_raise (get_run c tenant_id run_id) (core not_found)) _ h in
    let (u, on, h2) =
      >>=-eq-ok (raise_if (not (is_active_state x.run_state)) CrmError.run_state) _ h1 in
    let (t, m) =
      find?-eq-some (λ (r : Run). r.tenant_id == tenant_id && r.id == run_id) c.runs x
        (or_raise-eq-ok _ _ found) in
    subst (λ z. Elem z c.runs × (is_active_state z.run_state ≡ true)) (ok_inj h2)
      (m, raise_not-eq-ok _ _ on)

not_both : (a b : Bool) → not (a && false && b) ≡ true
not_both true b = refl
not_both false b = refl

-- A run that ends.
module _ (py : Python) (c : Crm) (h : IsConsistent c) (run next : Run) (m : Elem run c.runs)
    (on : is_active_state run.run_state ≡ true) (pin : HasSamePin run next)
    (off : is_active_state next.run_state ≡ false)
    (step : ProcessStep
      (IsPolicyEdge py c.versions run.tenant_id run.version_id)
      (process_of run)
      (process_of next)) where
  abbrev is_saved : Run → Bool
  is_saved x = x.id == next.id

  is_run : (x : Run) → Elem x c.runs → is_saved x ≡ true → x ≡ run
  is_run x mx y = same_by_key run_id_of run x c.runs h.2 m mx ((==_iff x.id next.id).0 y ∙ pin.0)

  abbrev IsLeft : Run → Run → Type 0
  IsLeft x u = (u ≡ x) ⊎ (is_active_state u.run_state ≡ false)

  still_exclusive :
      (x y u v : Run)
      → IsLeft x u
      → IsLeft y v
      → are_exclusive x y ≡ true
      → are_exclusive u v ≡ true
  still_exclusive x y u v (inr n) q d = rw n refl
  still_exclusive x y u v (inl e) (inr n) d = rw n (not_both (is_active_state u.run_state) _)
  still_exclusive x y u v (inl e) (inl f) d = rw (e, f) d

  pub ended-Keeps : Keeps py c (save_run next c)
  ended-Keeps = (
    (
      h.0,
      h.1,
      Pairwise-saved run_id_of next c.runs h.2,
      Pairwise-Pointwise IsLeft (λ r s. are_exclusive r s ≡ true) still_exclusive c.runs
          (update_where is_saved (λ _. next) c.runs)
          (Pointwise-update_where IsLeft (λ x. inl refl) is_saved (λ _. next) c.runs
            (All-of_Elem (λ x. is_saved x ≡ true → IsLeft x next) c.runs (λ x mx y. inr off)))
          h.3,
      All-update_where (IsSynced c.pipelines c.stages c.items) is_saved (λ _. next) c.runs
          (All-of_Elem (λ x. is_saved x ≡ true → IsSynced c.pipelines c.stages c.items next) c.runs
            (λ x mx y. inl off))
          (All-of_Elem (λ x. is_saved x ≡ false → IsSynced c.pipelines c.stages c.items x) c.runs
            (λ x mx y. All-Elem (IsSynced c.pipelines c.stages c.items) x c.runs h.4 mx)),
      h.5,
    ),
    refl,
    λ x mx. elim (Bool-cases (is_saved x)) [
      | inr n ↦ (
        x,
        Elem-kept is_saved next x c.runs mx n,
        (refl, refl, refl, refl, refl),
        ProcessStep.stay,
      )
      | inl y ↦
          subst
            (λ z.
              (u : Run) × Elem u (update_where is_saved (λ _. next) c.runs)
              × HasSamePin z u
              × ProcessStep (IsPolicyEdge py c.versions z.tenant_id z.version_id) (process_of z)
                  (process_of u))
            (sym (is_run x mx y)) (next, Elem-written is_saved next x c.runs mx y, pin, step)
    ],
  )

finished :
    {Edge : String → String → Type 0} (run : Run) (state : RunState)
    → is_active_state run.run_state ≡ true
    → is_active_state state ≡ false
    → ProcessStep Edge (process_of run) (state_at state run.current_stage_code)
finished {Edge} run state a b = go run.run_state state a b
  where
    go :
        (x y : RunState)
        → is_active_state x ≡ true
        → is_active_state y ≡ false
        → ProcessStep Edge (state_at x run.current_stage_code) (state_at y run.current_stage_code)
    go RunState.active RunState.completed p q = ProcessStep.finish
    go RunState.active RunState.cancelled p q = ProcessStep.finish
    go RunState.active RunState.active p q = cc
    go RunState.completed y p q = cc
    go RunState.cancelled y p q = cc

-- The tables of a call that returned a run too.
pub made_run :
    (py : Python) (c : Crm) (r s : Run) (after d : Crm)
    → ◌≡◌ {A = Result CrmError (Run × Crm)} (ok (r, after)) (ok (s, d))
    → Keeps py c after
    → Keeps py c d
made_run py c r s after d e k = subst (Keeps py c) (ap (λ (p : Run × Crm). p.1) (ok_inj e)) k

pub complete_run-Keeps :
    (py : Python) (c d : Crm) (session : Session) (run_id : ℕ) (reason : Option String) (out : Run)
    → complete_run py c session run_id reason ≡ ok (out, d)
    → IsConsistent c
    → Keeps py c d
unfolding complete_run
complete_run-Keeps py c d session run_id reason out h k =
    let (run, found, h1) = >>=-eq-ok (get_active_run_or_raise c session.tenant_id run_id) _ h in
    let (m, a) = get_active_run_or_raise-Elem c session.tenant_id run_id run found in
    let next = ended RunState.completed session.now (stripped_reason py reason) run in
    made_run py c next out (save_run next c) d h1 (
      ended-Keeps py c k run next m a (refl, refl, refl, refl, refl) refl
        (finished run RunState.completed a refl))

pub cancel_run-Keeps :
    (py : Python) (c d : Crm) (session : Session) (run_id : ℕ) (reason : Option String) (out : Run)
    → cancel_run py c session run_id reason ≡ ok (out, d)
    → IsConsistent c
    → Keeps py c d
unfolding cancel_run
cancel_run-Keeps py c d session run_id reason out h k =
    let (text, given, h1) = >>=-eq-ok (or_raise (stripped_reason py reason) validation) _ h in
    let (run, found, h2) = >>=-eq-ok (get_active_run_or_raise c session.tenant_id run_id) _ h1 in
    let (m, a) = get_active_run_or_raise-Elem c session.tenant_id run_id run found in
    let next = ended RunState.cancelled session.now (some text) run in
    made_run py c next out (save_run next c) d h2 (
      ended-Keeps py c k run next m a (refl, refl, refl, refl, refl) refl
        (finished run RunState.cancelled a refl))
