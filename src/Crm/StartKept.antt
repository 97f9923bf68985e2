-- ===== src/Crm/StartKept.antt =====
-- The start of a run keeps the tables consistent, and the runs to their processes.
use coreops_platform.Base.{
  ℕ, ◌≡◌, ◌≢◌, refl, true, false, not, Option, none, some, is_some, ◌∷◌, inl, inr, ◌==◌, Bool-cases,
  All, All-map, Elem, find?, find?-eq-none, arith, ok, >>=-eq-ok, raise_if, raise_if-eq-ok,
  or_raise,
}
use coreops_platform.Platform.{not_found}
use coreops_platform.Crm.Model.{
  WorkItem, Run, Version, Configuration, Crm, Session, Python, core, validation, run_conflict, Task,
}
use coreops_platform.Crm.Repository.{
  is_active_run_of, get_work_item, get_configuration, get_active_run_for_work_item, get_stage,
}
use coreops_platform.Crm.Process.{ProcessStep, Keeps}
use coreops_platform.Crm.Consistency.{IsConsistent, IsSynced, run_id_of, id_of, are_exclusive}
use coreops_platform.Crm.LeadTasks.{
  LeadConfig, first_contact, create_unless_existing, load_lead_automation_config,
  assert_assignee_active_same_tenant, get_existing_automation_task,
  maybe_create_process_run_first_contact_task,
}
use coreops_platform.Crm.ProcessRuns.{startable_version, new_run, insert_run, start_run}
use coreops_platform.Crm.MovesConsistent.{get_work_item-Elem, made}
use coreops_platform.Crm.RunsKept.{made_run}

-- The identifiers that a call takes for a new item and a new run are not in use.
abbrev pub IsFresh : Session → Crm → Type 0
IsFresh session c =
    All (λ i. session.new_id ≢ id_of i) c.items × All (λ r. session.new_run_id ≢ run_id_of r) c.runs

module _ (py : Python) (c0 : Crm) where
  create_unless_existing-Keeps :
      (tenant_id run_id item_id : ℕ) (config : LeadConfig) (now : ℕ) (o : Option Task) (c : Crm)
      → Keeps py c0 c
      → Keeps py c0 (create_unless_existing tenant_id run_id item_id config now o c)
  unfolding create_unless_existing
  create_unless_existing-Keeps tenant_id run_id item_id config now (some task) c k = k
  create_unless_existing-Keeps tenant_id run_id item_id config now none c k =
      elim (Bool-cases config.create_activity) [ inl y ↦ rw y k | inr n ↦ rw n k ]

  first_contact-Keeps :
      (c d : Crm) (tenant_id run_id item_id now : ℕ) (o : Option LeadConfig)
      → first_contact c tenant_id run_id item_id now o ≡ ok d
      → Keeps py c0 c
      → Keeps py c0 d
  first_contact-Keeps c d tenant_id run_id item_id now none h k = made py c0 c d h k
  first_contact-Keeps c d tenant_id run_id item_id now (some config) h k =
      let existing = get_existing_automation_task c tenant_id run_id config.task_template_code in
      let (u, active, h1) =
        >>=-eq-ok (assert_assignee_active_same_tenant c tenant_id config.default_assignee_user_id)
          (λ done. ok (create_unless_existing tenant_id run_id item_id config now existing c)) h in
      made py c0 (create_unless_existing tenant_id run_id item_id config now existing c) d h1
        (create_unless_existing-Keeps tenant_id run_id item_id config now existing c k)

  maybe_create-Keeps :
      (c d : Crm) (tenant_id run_id item_id now : ℕ)
      → maybe_create_process_run_first_contact_task py c tenant_id run_id item_id now ≡ ok d
      → Keeps py c0 c
      → Keeps py c0 d
  unfolding maybe_create_process_run_first_contact_task
  maybe_create-Keeps c d tenant_id run_id item_id now h k =
      let (config, loaded, h1) = >>=-eq-ok (load_lead_automation_config py c tenant_id) _ h in
      first_contact-Keeps c d tenant_id run_id item_id now config h1 k

-- A run of an item that has no active one.
module _ (py : Python) (c : Crm) (session : Session) (config : Configuration) (version : Version)
    (i : WorkItem) (h : IsConsistent c) (m : Elem i c.items) (t : i.tenant_id ≡ session.tenant_id)
    (fresh : All (λ r. session.new_run_id ≢ run_id_of r) c.runs)
    (free : find? (is_active_run_of i.id) c.runs ≡ none) where
  new_run-IsSynced : IsSynced c.pipelines c.stages c.items (new_run c session config version i)
  unfolding new_run get_stage
  new_run-IsSynced = inr (i, m, refl, t, rw t refl)

  exclusive_new :
      (s : Run)
      → is_active_run_of i.id s ≡ false
      → are_exclusive (new_run c session config version i) s ≡ true
  unfolding new_run
  exclusive_new s n = ground arith

  inserted-Keeps : Keeps py c (record c { runs = new_run c session config version i ∷ c.runs })
  unfolding new_run
  inserted-Keeps = (
    (
      h.0,
      h.1,
      (fresh, h.2),
      (
        All-map (λ s. is_active_run_of i.id s ≡ false)
            (λ s. are_exclusive (new_run c session config version i) s ≡ true) c.runs exclusive_new
            (find?-eq-none (is_active_run_of i.id) c.runs free),
        h.3,
      ),
      (new_run-IsSynced, h.4),
      h.5,
    ),
    refl,
    λ r mr. (r, inr mr, (refl, refl, refl, refl, refl), ProcessStep.stay),
  )

pub none_of : {A : Type 0} (o : Option A) → is_some o ≡ false → o ≡ none
none_of none h = refl
none_of (some a) h = cc

pub start_run-Keeps :
    (py : Python) (c d : Crm) (session : Session) (work_item_id configuration_id : ℕ) (out : Run)
    → start_run py c session work_item_id configuration_id ≡ ok (out, d)
    → IsConsistent c
    → All (λ r. session.new_run_id ≢ run_id_of r) c.runs
    → Keeps py c d
unfolding start_run insert_run
start_run-Keeps py c d session work_item_id configuration_id out h k fresh =
    let (config, e1, h1) =
      >>=-eq-ok (or_raise (get_configuration c session.tenant_id configuration_id) (core not_found))
        _ h in
    let (version, e2, h2) = >>=-eq-ok (startable_version c session.tenant_id config) _ h1 in
    let (i, found, h3) =
      >>=-eq-ok (or_raise (get_work_item c session.tenant_id work_item_id) (core not_found)) _ h2 in
    let (u4, e4, h4) =
      >>=-eq-ok (raise_if (not (i.pipeline_id == config.pipeline_id)) validation) _ h3 in
    let (u5, e5, h5) =
      >>=-eq-ok
        (raise_if (is_some (get_active_run_for_work_item c session.tenant_id work_item_id))
          run_conflict)
        _ h4 in
    let run = new_run c session config version i in
    let (started, inserted, h6) = >>=-eq-ok (insert_run run c) _ h5 in
    let (tasked, made_tasks, h7) =
      >>=-eq-ok
        (maybe_create_process_run_first_contact_task py started session.tenant_id run.id i.id
          session.now)
        _ h6 in
    let (u8, free, h8) =
      >>=-eq-ok (raise_if (is_some (find? (is_active_run_of run.work_item_id) c.runs)) run_conflict)
        _ inserted in
    let (m, t, e) = get_work_item-Elem c session.tenant_id work_item_id i found in
    made_run py c run out tasked d h7 (
      maybe_create-Keeps py c started tasked session.tenant_id run.id i.id session.now made_tasks (
        made py c (record c { runs = run ∷ c.runs }) started h8
          (inserted-Keeps py c session config version i k m t fresh
            (none_of _ (raise_if-eq-ok _ _ free)))))
