-- ===== src/Crm/Following.antt =====
-- A move that the guard let through keeps the tables consistent: the runs follow the work item.
use coreops_platform.Base.{
  ℕ, ◌≡◌, refl, sym, ap, subst, ◌∙◌, String, Bool, true, false, ◌&&◌, Option, some, List, [], ◌∷◌,
  inl, inr, ◌==◌, ==_iff, ==_refl, Bool-cases, All, All-of_Elem, All-Elem, Pointwise, Elem,
  find?-eq-some, find?-eq-none, update_where, same_by_key, arith,
}
use coreops_platform.Crm.Model.{WorkItem, Run, RunState, Crm, Python}
use coreops_platform.Crm.Repository.{
  is_active_state, is_active_run_of, get_active_run_for_work_item, get_definition_version,
}
use coreops_platform.Crm.Guard.{GuardResult, record_applied_transition}
use coreops_platform.Crm.GuardLaws.{Allowed}
use coreops_platform.Crm.Process.{
  ProcessStep, IsPolicyEdge, HasSamePin, RefinesOf, Keeps, process_of, state_at, runs_stay,
}
use coreops_platform.Crm.Consistency.{
  IsConsistent, IsConsistentOf, IsSynced, Follows, stage_code, id_of, run_id_of, Elem-written,
  Elem-kept, are_exclusive, Pairwise-related,
}

-- The runs after a change of stage has been recorded.
abbrev pub applied_runs : GuardResult → String → List Run → List Run
applied_runs GuardResult.noop to runs = runs
applied_runs GuardResult.unenforced to runs = runs
applied_runs (GuardResult.enforced run version) to runs =
    update_where (λ x. x.id == run.id) (λ _. record run { current_stage_code = some to }) runs

pub applied :
    (py : Python) (c after : Crm) (g : GuardResult) (to : String)
    → IsConsistentOf after.pipelines after.stages after.items (applied_runs g to after.runs)
    → after.versions ≡ c.versions
    → RefinesOf py c.versions c.runs (applied_runs g to after.runs)
    → Keeps py c (record_applied_transition g to after)
unfolding record_applied_transition
applied py c after GuardResult.noop to h v r = (h, v, r)
applied py c after GuardResult.unenforced to h v r = (h, v, r)
applied py c after (GuardResult.enforced run version) to h v r = (h, v, r)

module _ {A : Type 0} (R : A → A → Type 0) (p : A → Bool) (b : A) where
  replaced :
      (xs : List A)
      → All (λ x. p x ≡ true → R x b) xs
      → All (λ x. p x ≡ false → R x x) xs
      → Pointwise R xs (update_where p (λ _. b) xs)
  replaced [] h k = tt
  replaced (x ∷ xs) h k =
      (elim (Bool-cases (p x)) [ inl t ↦ rw t (h.0 t) | inr n ↦ rw n (k.0 n) ], replaced xs h.1 k.1)

pub unchanged :
    {A : Type 0} (R : A → A → Type 0) (xs : List A) → All (λ x. R x x) xs → Pointwise R xs xs
unchanged R [] h = tt
unchanged R (x ∷ xs) h = (h.0, unchanged R xs h.1)

-- The active run of an item, among the runs of the tables.
pub get_active_run-Elem :
    (c : Crm) (tenant_id work_item_id : ℕ) (run : Run)
    → get_active_run_for_work_item c tenant_id work_item_id ≡ some run
    → Elem run c.runs
      × (run.tenant_id ≡ tenant_id)
      × (run.work_item_id ≡ work_item_id)
      × (is_active_state run.run_state ≡ true)
unfolding get_active_run_for_work_item
get_active_run-Elem c tenant_id work_item_id run h =
    let (t, m) =
      find?-eq-some (λ (r : Run). r.tenant_id == tenant_id && is_active_run_of work_item_id r)
        c.runs run h in
    (m, ground arith, ground arith, ground arith)

module _ (c : Crm) (h : IsConsistent c) (i : WorkItem) (m : Elem i c.items) where
  -- A run that is active on the item is of its tenant.
  pub active_tenant :
      (r : Run)
      → Elem r c.runs
      → r.work_item_id ≡ i.id
      → is_active_state r.run_state ≡ true
      → (r.tenant_id ≡ i.tenant_id) × (r.current_stage_code ≡ stage_code c.pipelines c.stages i)
  active_tenant r mr w a = elim (All-Elem (IsSynced c.pipelines c.stages c.items) r c.runs h.4 mr) [
    | inl off ↦ cc
    | inr (j, mj, e, t, k) ↦
        let q : j ≡ i = same_by_key id_of i j c.items h.0 m mj (e ∙ w) in
        let y : j.tenant_id ≡ i.tenant_id = ap (λ (x : WorkItem). x.tenant_id) q in
        (sym t ∙ y, k ∙ ap (stage_code c.pipelines c.stages) q)
  ]

  -- A run of another item, or one that is not active, stays.
  pub stays :
      (code : Option String) (r : Run)
      → ((r.work_item_id ≡ i.id) → is_active_state r.run_state ≡ true → r.current_stage_code ≡ code)
      → Follows i.id code r r
  stays code r f = elim (Bool-cases (is_active_state r.run_state)) [
    | inr off ↦ (refl, refl, refl, refl, inr (inr off))
    | inl on ↦ elim (Bool-cases (r.work_item_id == i.id)) [
      | inl y ↦
          let w = (==_iff r.work_item_id i.id).0 y in (refl, refl, refl, refl, inl (w, f w on))
      | inr n ↦ (
        refl,
        refl,
        refl,
        refl,
        inr (inl (λ w. let z = (==_iff r.work_item_id i.id).1 w in cc, refl)),
      )
    ]
  ]

  pub followed :
      (py : Python) (from to : String) (g : GuardResult)
      → stage_code c.pipelines c.stages i ≡ some from
      → Allowed py c i.tenant_id i from to g
      → Pointwise (Follows i.id (some to)) c.runs (applied_runs g to c.runs)
  unfolding get_active_run_for_work_item
  followed py from to _ s (Allowed.same_stage e) = unchanged (Follows i.id (some to)) c.runs (
      All-of_Elem (λ r. Follows i.id (some to) r r) c.runs
        (λ r mr. stays (some to) r (λ w a. (active_tenant r mr w a).1 ∙ (s ∙ ap some e))))
  followed py from to _ s (Allowed.no_run n none_found) =
      unchanged (Follows i.id (some to)) c.runs (
        All-of_Elem (λ r. Follows i.id (some to) r r) c.runs
          (λ r mr. stays (some to) r (λ w a. absurd (unseen r mr w a))))
    where
      unseen :
          (r : Run) → Elem r c.runs → r.work_item_id ≡ i.id → is_active_state r.run_state ≡ true → ⊥
      unseen r mr w a =
          let p = λ (r : Run). r.tenant_id == i.tenant_id && is_active_run_of i.id r in
          let f : p r ≡ false =
            All-Elem (λ r. p r ≡ false) r c.runs (find?-eq-none p c.runs none_found) mr in
          let t = (active_tenant r mr w a).0 in ground arith
  followed py from to _ s (Allowed.edge n {run} {version} policy found v p e t1 t2 t3) =
      let (mr, t, w, a) = get_active_run-Elem c i.tenant_id i.id run found in
      replaced (Follows i.id (some to)) (λ x. x.id == run.id)
        (record run { current_stage_code = some to }) c.runs
        (All-of_Elem
          (λ x.
            (x.id == run.id) ≡ true
            → Follows i.id (some to) x (record run { current_stage_code = some to }))
          c.runs
          (λ x mx y.
            let q : x ≡ run =
              same_by_key run_id_of run x c.runs h.2 mr mx ((==_iff x.id run.id).0 y) in
            subst (λ z. Follows i.id (some to) z (record run { current_stage_code = some to }))
              (sym q) (refl, refl, refl, refl, inl (w, refl))))
        (All-of_Elem (λ x. (x.id == run.id) ≡ false → Follows i.id (some to) x x) c.runs
          (λ x mx y. stays (some to) x (λ w2 a2. absurd (apart x mx y w2 a2 mr w a))))
    where
      apart :
          (x : Run)
          → Elem x c.runs
          → (x.id == run.id) ≡ false
          → x.work_item_id ≡ i.id
          → is_active_state x.run_state ≡ true
          → Elem run c.runs
          → run.work_item_id ≡ i.id
          → is_active_state run.run_state ≡ true
          → ⊥
      apart x mx y w2 a2 mr w a =
          elim (Pairwise-related (λ r s. are_exclusive r s ≡ true) x run c.runs h.3 mx mr) [
            | inl e ↦ let z : x.id ≡ run.id = ap run_id_of e in ground arith
            | inr (inl z) ↦ ground arith
            | inr (inr z) ↦ ground arith
          ]

  at_stage :
      (run : Run) (from to : String)
      → is_active_state run.run_state ≡ true
      → run.current_stage_code ≡ some from
      → {Edge : String → String → Type 0} → Edge from to
      → ProcessStep Edge (process_of run) (state_at run.run_state (some to))
  at_stage run from to a k {Edge} e = go run.run_state a
    where
      go :
          (st : RunState)
          → is_active_state st ≡ true
          → ProcessStep Edge (state_at st run.current_stage_code) (state_at st (some to))
      go RunState.active b = rw k (ProcessStep.advance e)
      go RunState.completed b = cc
      go RunState.cancelled b = cc

  -- The runs move by steps of their processes.
  pub followed-RefinesOf :
      (py : Python) (from to : String) (g : GuardResult)
      → stage_code c.pipelines c.stages i ≡ some from
      → Allowed py c i.tenant_id i from to g
      → RefinesOf py c.versions c.runs (applied_runs g to c.runs)
  unfolding get_definition_version
  followed-RefinesOf py from to _ s (Allowed.same_stage e) x mx =
      runs_stay py c.versions c.runs x mx
  followed-RefinesOf py from to _ s (Allowed.no_run n f) x mx = runs_stay py c.versions c.runs x mx
  followed-RefinesOf py from to _ s (Allowed.edge n {run} {version} policy found v p e t1 t2 t3) x
        mx =
      let (mr, t, w, a) = get_active_run-Elem c i.tenant_id i.id run found in
      let next : Run = record run { current_stage_code = some to } in
      elim (Bool-cases (x.id == run.id)) [
        | inr f ↦ (
          x,
          Elem-kept (λ y. y.id == run.id) next x c.runs mx f,
          (refl, refl, refl, refl, refl),
          ProcessStep.stay,
        )
        | inl y ↦
            let q : x ≡ run =
              same_by_key run_id_of run x c.runs h.2 mr mx ((==_iff x.id run.id).0 y) in
            subst
              (λ z.
                (u : Run) × Elem u (update_where (λ b. b.id == run.id) (λ _. next) c.runs)
                × HasSamePin z u
                × ProcessStep (IsPolicyEdge py c.versions z.tenant_id z.version_id) (process_of z)
                    (process_of u))
              (sym q)
              (
                next,
                Elem-written (λ b. b.id == run.id) next run c.runs mr (==_refl run.id),
                (refl, refl, refl, refl, refl),
                at_stage run from to a ((active_tenant run mr w a).1 ∙ s)
                    (version, policy, rw t v, p, e),
              )
      ]
