-- ===== src/Crm/GuardLaws.antt =====
-- What the transition guard of backend/app/modules/process_overlay/service/transitions.py lets through,
-- and how the runs follow a move that it has let through.
use coreops_platform.Base.{
  ℕ, ◌≡◌, ◌≢◌, ◌↔◌, refl, ap, subst, String, Bool, true, false, not, Option, none, some, inl, inr,
  ◌==◌, ==_iff, str_eq, str_eq_iff, Bool-cases, map, Result, ok, err, >>=-eq-ok, raise_if,
  or_raise-eq-ok, ok_inj,
}
use coreops_platform.Crm.Policy.{PolicySnapshot, PolicyError, has_edge, edge_of}
use coreops_platform.Crm.Model.{WorkItem, Run, Version, Crm, Python, CrmError}
use coreops_platform.Crm.Repository.{get_active_run_for_work_item, get_definition_version}
use coreops_platform.Crm.Guard.{
  GuardResult, raise_as, parse_policy, check_pinned, check_run, assert_transition_allowed,
}

-- What a policy allows.
abbrev pub HasEdge : PolicySnapshot → String → String → Type 0
HasEdge policy from to = has_edge (from, to) (map edge_of policy.transitions) ≡ true

-- The reasons for which a change from one stage code to another is let through.
pub data Allowed (py : Python) (c : Crm) (tenant_id : ℕ) (i : WorkItem) (from to : String)
    : GuardResult → Type 0 where
  same_stage : from ≡ to → Allowed py c tenant_id i from to GuardResult.noop
  no_run :
      from ≢ to
      → get_active_run_for_work_item c tenant_id i.id ≡ none
      → Allowed py c tenant_id i from to GuardResult.unenforced
  edge :
      from ≢ to
      → {run : Run} {version : Version} (policy : PolicySnapshot)
      → get_active_run_for_work_item c tenant_id i.id ≡ some run
      → get_definition_version c tenant_id run.version_id ≡ some version
      → parse_policy py version.policy_snapshot_json ≡ ok policy
      → HasEdge policy from to
      → version.tenant_id ≡ tenant_id
      → version.configuration_id ≡ run.configuration_id
      → version.pipeline_id ≡ i.pipeline_id
      → Allowed py c tenant_id i from to (GuardResult.enforced run version)

pub raise_as-eq-ok :
    {A : Type 0} (e : CrmError) (m : Result PolicyError A) {a : A} → raise_as e m ≡ ok a → m ≡ ok a
raise_as-eq-ok e (ok a) h = ap ok (ok_inj h)
raise_as-eq-ok e (err x) h = cc

pub raise_not-eq-ok : {E : Type 0} (t : Bool) (e : E) → raise_if (not t) e ≡ ok tt → t ≡ true
raise_not-eq-ok true e h = refl
raise_not-eq-ok false e h = cc

pub raise_ne-eq-ok : {E : Type 0} (a b : ℕ) (e : E) → raise_if (not (a == b)) e ≡ ok tt → a ≡ b
raise_ne-eq-ok a b e h = (==_iff a b).0 (raise_not-eq-ok (a == b) e h)

module _ (py : Python) (c : Crm) (tenant_id : ℕ) (i : WorkItem) (from to : String)
    (n : from ≢ to) where
  check_pinned-Allowed :
      (run : Run) (g : GuardResult)
      → get_active_run_for_work_item c tenant_id i.id ≡ some run
      → check_pinned py c tenant_id i from to run ≡ ok g
      → Allowed py c tenant_id i from to g
  unfolding check_pinned
  check_pinned-Allowed run g s h =
      let (version, found, h1) = >>=-eq-ok _ _ h in
      let (u1, ten, h2) = >>=-eq-ok _ _ h1 in
      let (u2, con, h3) = >>=-eq-ok _ _ h2 in
      let (u3, pip, h4) = >>=-eq-ok _ _ h3 in
      let (policy, parsed, h5) = >>=-eq-ok _ _ h4 in
      let (u5, e, h6) = >>=-eq-ok _ _ h5 in
      subst (Allowed py c tenant_id i from to) (ok_inj h6) (
        Allowed.edge n policy s (or_raise-eq-ok _ _ found) (raise_as-eq-ok _ _ parsed)
          (raise_not-eq-ok _ _ e) (raise_ne-eq-ok _ _ _ ten) (raise_ne-eq-ok _ _ _ con)
          (raise_ne-eq-ok _ _ _ pip))

  check_run-Allowed :
      (o : Option Run) (g : GuardResult)
      → get_active_run_for_work_item c tenant_id i.id ≡ o
      → check_run py c tenant_id i from to o ≡ ok g
      → Allowed py c tenant_id i from to g
  unfolding check_run
  check_run-Allowed none g s h =
      subst (Allowed py c tenant_id i from to) (ok_inj h) (Allowed.no_run n s)
  check_run-Allowed (some run) g s h = check_pinned-Allowed run g s h

-- A change let through has one of the reasons.
pub passed-Allowed :
    (py : Python) (c : Crm) (tenant_id : ℕ) (i : WorkItem) (from to : String) (g : GuardResult)
    → assert_transition_allowed py c tenant_id i (some from) (some to) ≡ ok g
    → Allowed py c tenant_id i from to g
unfolding assert_transition_allowed
passed-Allowed py c tenant_id i from to g h = elim (Bool-cases (str_eq from to)) [
  | inl y ↦
      let k : ok GuardResult.noop ≡ ok g = rw y at h in
      subst (Allowed py c tenant_id i from to) (ok_inj k)
        (Allowed.same_stage ((str_eq_iff from to).0 y))
  | inr f ↦
      let k : check_run py c tenant_id i from to (get_active_run_for_work_item c tenant_id i.id)
          ≡ ok g =
        rw f at h in
      check_run-Allowed py c tenant_id i from to (λ e. let z = (str_eq_iff from to).1 e in cc)
        (get_active_run_for_work_item c tenant_id i.id) g refl k
]

-- A change that has a reason is let through.
pub Allowed-passes :
    (py : Python) (c : Crm) (tenant_id : ℕ) (i : WorkItem) (from to : String) (g : GuardResult)
    → Allowed py c tenant_id i from to g
    → assert_transition_allowed py c tenant_id i (some from) (some to) ≡ ok g
unfolding assert_transition_allowed check_run check_pinned
Allowed-passes py c tenant_id i from to _ (Allowed.same_stage e) =
    rw ((str_eq_iff from to).1 e) refl
Allowed-passes py c tenant_id i from to _ (Allowed.no_run n s) =
    let f : str_eq from to ≡ false = elim (Bool-cases (str_eq from to)) [
      | inr f ↦ f
      | inl y ↦ absurd (n ((str_eq_iff from to).0 y))
    ] in
    rw (f, s) refl
Allowed-passes py c tenant_id i from to _ (Allowed.edge n {run} {version} policy s v p e t1 t2 t3) =
    let f : str_eq from to ≡ false = elim (Bool-cases (str_eq from to)) [
      | inr f ↦ f
      | inl y ↦ absurd (n ((str_eq_iff from to).0 y))
    ] in
    rw (f, s, v, (==_iff _ _).1 t1, (==_iff _ _).1 t2, (==_iff _ _).1 t3, p, e) refl

-- The guard lets a change of stage code through exactly where the code stays, where no run of the item
-- is active, or where the policy of the version pinned by the active run has the change as an edge and
-- that version is of the tenant, of the configuration of the run and of the pipeline of the item.
pub assert_transition_allowed-Allowed :
    (py : Python) (c : Crm) (tenant_id : ℕ) (i : WorkItem) (from to : String) (g : GuardResult)
    → (assert_transition_allowed py c tenant_id i (some from) (some to) ≡ ok g)
      ↔ Allowed py c tenant_id i from to g
assert_transition_allowed-Allowed py c tenant_id i from to g =
    (passed-Allowed py c tenant_id i from to g, Allowed-passes py c tenant_id i from to g)
