-- ===== src/Crm/FirstContact.antt =====
-- The task of the first contact, backend/app/modules/workflows/service/lead_automation.py: asked for
-- again, it is there.
use coreops_platform.Base.{
  ℕ, ◌+◌, ◌*◌, ◌≡◌, refl, subst, ◌∙◌, Option, none, some, ◌∷◌, inl, inr, ==_refl, str_eq_iff,
  Bool-cases, find?, ok, >>=-eq-ok, ok_inj,
}
use coreops_platform.Crm.Model.{Task, Crm, Python}
use coreops_platform.Crm.LeadTasks.{
  LeadConfig, load_lead_automation_config, assert_assignee_active_same_tenant,
  get_existing_automation_task, create_unless_existing, first_contact, is_automation_task,
  first_contact_task, maybe_create_process_run_first_contact_task,
}

-- What the automation reads.
abbrev HasSameSettings : Crm → Crm → Type 0
HasSameSettings c d =
    (d.lead_settings ≡ c.lead_settings) × (d.memberships ≡ c.memberships) × (d.users ≡ c.users)

load_same :
    (py : Python) (c d : Crm) (tenant_id : ℕ)
    → HasSameSettings c d
    → load_lead_automation_config py d tenant_id ≡ load_lead_automation_config py c tenant_id
unfolding load_lead_automation_config
load_same py c d tenant_id (s, m, u) = rw s refl

assert_same :
    (c d : Crm) (tenant_id user_id : ℕ)
    → HasSameSettings c d
    → assert_assignee_active_same_tenant d tenant_id user_id
      ≡ assert_assignee_active_same_tenant c tenant_id user_id
unfolding assert_assignee_active_same_tenant
assert_same c d tenant_id user_id (s, m, u) = rw (m, u) refl

-- The task is there after it has been asked for.
created_existing :
    (tenant_id run_id item_id now : ℕ) (config : LeadConfig) (c : Crm) (o : Option Task)
    → get_existing_automation_task c tenant_id run_id config.task_template_code ≡ o
    → let d = create_unless_existing tenant_id run_id item_id config now o c in
      HasSameSettings c d
      × ((task : Task) × (get_existing_automation_task d tenant_id run_id config.task_template_code
            ≡ some task))
unfolding create_unless_existing get_existing_automation_task
created_existing tenant_id run_id item_id now config c (some task) e =
    ((refl, refl, refl), (task, e))
created_existing tenant_id run_id item_id now config c none e =
    let key = config.task_template_code in
    let task =
      first_contact_task tenant_id run_id item_id config
        (now + config.first_contact_sla_minutes * 60000000) in
    let found : find? (is_automation_task tenant_id run_id key) (task ∷ c.tasks) ≡ some task =
      rw (==_refl tenant_id, ==_refl run_id, (str_eq_iff key key).1 refl) refl in
    elim (Bool-cases config.create_activity) [
      | inl y ↦ rw y ((refl, refl, refl), (task, found))
      | inr n ↦ rw n ((refl, refl, refl), (task, found))
    ]

existing_returns :
    (d : Crm) (tenant_id run_id item_id now : ℕ) (config : LeadConfig) (task : Task)
    → assert_assignee_active_same_tenant d tenant_id config.default_assignee_user_id ≡ ok tt
    → get_existing_automation_task d tenant_id run_id config.task_template_code ≡ some task
    → first_contact d tenant_id run_id item_id now (some config) ≡ ok d
unfolding create_unless_existing
existing_returns d tenant_id run_id item_id now config task a e = rw (a, e) refl

first_contact_again :
    (py : Python) (c d : Crm) (tenant_id run_id item_id now later : ℕ) (o : Option LeadConfig)
    → first_contact c tenant_id run_id item_id now o ≡ ok d
    → HasSameSettings c d × (first_contact d tenant_id run_id item_id later o ≡ ok d)
first_contact_again py c d tenant_id run_id item_id now later none h =
    subst (λ x. HasSameSettings c x × (first_contact x tenant_id run_id item_id later none ≡ ok x))
      (ok_inj h) ((refl, refl, refl), refl)
first_contact_again py c d tenant_id run_id item_id now later (some config) h =
    let user = config.default_assignee_user_id in
    let existing = get_existing_automation_task c tenant_id run_id config.task_template_code in
    let next = create_unless_existing tenant_id run_id item_id config now existing c in
    let (u, active, h1) =
      >>=-eq-ok (assert_assignee_active_same_tenant c tenant_id user) (λ done. ok next) h in
    let (same, (task, found)) =
      created_existing tenant_id run_id item_id now config c existing refl in
    subst
      (λ x.
        HasSameSettings c x × (first_contact x tenant_id run_id item_id later (some config) ≡ ok x))
      (ok_inj {a = next} h1)
      (
        same,
        existing_returns next tenant_id run_id item_id later config task
            (assert_same c next tenant_id user same ∙ active) found,
      )

-- Once the automation of a run has returned, it returns again at any instant and changes
-- nothing.
pub maybe_create_again :
    (py : Python) (c d : Crm) (tenant_id run_id item_id now later : ℕ)
    → maybe_create_process_run_first_contact_task py c tenant_id run_id item_id now ≡ ok d
    → maybe_create_process_run_first_contact_task py d tenant_id run_id item_id later ≡ ok d
unfolding maybe_create_process_run_first_contact_task
maybe_create_again py c d tenant_id run_id item_id now later h =
    let (config, loaded, h1) = >>=-eq-ok (load_lead_automation_config py c tenant_id) _ h in
    let (same, again) = first_contact_again py c d tenant_id run_id item_id now later config h1 in
    rw (load_same py c d tenant_id same, loaded) again
