-- ===== src/Crm/LeadTasks.antt =====
-- backend/app/modules/workflows/service/lead_automation.py: the task of the first contact with a lead,
-- which the start of a run creates.
use coreops_platform.Base.{
  ℕ, ◌+◌, ◌*◌, String, Bool, true, false, not, ◌&&◌, ◌||◌, Option, none, some, ◌∷◌, Result, ok, err,
  ◌>>=◌, ◌>>◌, raise_if, or_raise, ◌==◌, str_eq, find?, ltb, if◌then◌else◌,
}
use coreops_platform.Base.Int.{ℤ, pos, negsuc}
use coreops_platform.Parties.Values.{Value, null, truth, text, many, other}
use coreops_platform.Parties.CustomFields.{Fields, get}
use coreops_platform.Crm.Policy.{has_text}
use coreops_platform.Crm.Model.{
  CrmError, lead_config, Python, Crm, LeadSettings, Membership, User, Task, TaskStatus,
  ActivityType,
}
use coreops_platform.Crm.Repository.{add_activity_row}

-- `LeadAutomationConfig`, which is enabled
pub record LeadConfig : Type 0 where
  pub default_assignee_user_id : ℕ
  pub first_contact_sla_minutes : ℕ
  pub task_template_code : String
  pub create_activity : Bool

abbrev pub is_true : Option Value → Bool
is_true (some (truth b)) = b
is_true (some null) = false
is_true (some (text s)) = false
is_true (some (many n)) = false
is_true (some (other n)) = false
is_true none = false

-- `_parse_uuid`, and the refusal of a value that is missing.
unfoldable pub parse_uuid : Python → Option Value → Result CrmError ℕ
parse_uuid py (some (text s)) =
    if str_eq s "" then err lead_config else or_raise (py.uuid_of (py.builtins.strip s)) lead_config
parse_uuid py (some null) = err lead_config
parse_uuid py (some (truth b)) = err lead_config
parse_uuid py (some (many n)) = err lead_config
parse_uuid py (some (other n)) = err lead_config
parse_uuid py none = err lead_config

abbrev pub in_bounds : Option ℤ → Result CrmError ℕ
in_bounds none = err lead_config
in_bounds (some (negsuc n)) = err lead_config
in_bounds (some (pos n)) = if ltb n 1 || ltb 10080 n then err lead_config else ok n

-- `int(sla_raw)`, with its default, and the bounds on it.
unfoldable pub sla_minutes : Python → Option Value → Result CrmError ℕ
sla_minutes py none = ok 240
sla_minutes py (some v) = in_bounds (py.int_of v)

unfoldable pub template_code : Python → Option Value → Result CrmError String
template_code py none = ok "consulting_first_contact"
template_code py (some (text s)) =
    let code = py.builtins.strip s in
    if not (has_text code) || ltb 64 (py.text_length code) then err lead_config else ok code
template_code py (some null) = err lead_config
template_code py (some (truth b)) = err lead_config
template_code py (some (many n)) = err lead_config
template_code py (some (other n)) = err lead_config

unfoldable pub activity_flag : Option Value → Result CrmError Bool
activity_flag none = ok true
activity_flag (some (truth b)) = ok b
activity_flag (some null) = err lead_config
activity_flag (some (text s)) = err lead_config
activity_flag (some (many n)) = err lead_config
activity_flag (some (other n)) = err lead_config

-- An enabled configuration, validated.
unfoldable pub validate_config : Python → Fields → Result CrmError (Option LeadConfig)
unfolding parse_uuid sla_minutes template_code activity_flag
validate_config py raw = do
  assignee ← parse_uuid py (get "default_assignee_user_id" raw)
  minutes ← sla_minutes py (get "first_contact_sla_minutes" raw)
  code ← template_code py (get "task_template_code" raw)
  flag ← activity_flag (get "create_activity" raw)
  ok (
      some (record {
        default_assignee_user_id = assignee;
        first_contact_sla_minutes = minutes;
        task_template_code = code;
        create_activity = flag;
      }))

abbrev pub automation_of : Option LeadSettings → Option Fields
automation_of none = none
automation_of (some s) = s.lead_automation

abbrev pub load_from : Python → Option Fields → Result CrmError (Option LeadConfig)
load_from py none = ok none
load_from py (some raw) = if is_true (get "enabled" raw) then validate_config py raw else ok none

unfoldable pub load_lead_automation_config : Python → Crm → ℕ → Result CrmError (Option LeadConfig)
unfolding validate_config
load_lead_automation_config py c tenant_id =
    load_from py
      (automation_of (find? (λ (s : LeadSettings). s.tenant_id == tenant_id) c.lead_settings))

unfoldable pub assert_assignee_active_same_tenant : Crm → ℕ → ℕ → Result CrmError (Unit {0})
assert_assignee_active_same_tenant c tenant_id user_id = do
  membership ←
      or_raise
        (find? (λ (m : Membership). m.tenant_id == tenant_id && m.user_id == user_id) c.memberships)
        lead_config
  raise_if (not membership.is_active) lead_config
  user ← or_raise (find? (λ (u : User). u.id == user_id) c.users) lead_config
  raise_if (not user.is_active) lead_config

abbrev pub same_run : Option ℕ → ℕ → Bool
same_run none run_id = false
same_run (some id) run_id = id == run_id

abbrev pub same_key : Option String → String → Bool
same_key none key = false
same_key (some k) key = str_eq k key

abbrev pub is_automation_task : ℕ → ℕ → String → Task → Bool
is_automation_task tenant_id process_run_id automation_key t =
    t.tenant_id == tenant_id
    && same_run t.process_run_id process_run_id
    && same_key t.automation_key automation_key

unfoldable pub get_existing_automation_task : Crm → ℕ → ℕ → String → Option Task
get_existing_automation_task c tenant_id process_run_id automation_key =
    find? (is_automation_task tenant_id process_run_id automation_key) c.tasks

abbrev pub first_contact_task : ℕ → ℕ → ℕ → LeadConfig → ℕ → Task
first_contact_task tenant_id process_run_id work_item_id config due_at = record {
  tenant_id = tenant_id;
  work_item_id = work_item_id;
  process_run_id = some process_run_id;
  automation_key = some config.task_template_code;
  status = TaskStatus.pending;
  due_at = some due_at;
  assigned_to_user_id = some config.default_assignee_user_id;
}

-- The task, and the note of it.
abbrev pub add_first_contact : ℕ → ℕ → ℕ → LeadConfig → ℕ → Crm → Crm
add_first_contact tenant_id process_run_id work_item_id config now c =
    let due_at = now + config.first_contact_sla_minutes * 60000000 in
    let tasked : Crm = record c {
      tasks = first_contact_task tenant_id process_run_id work_item_id config due_at ∷ c.tasks;
    } in
    if config.create_activity
    then add_activity_row tenant_id work_item_id ActivityType.note now tasked
    else tasked

unfoldable pub create_unless_existing : ℕ → ℕ → ℕ → LeadConfig → ℕ → Option Task → Crm → Crm
create_unless_existing tenant_id process_run_id work_item_id config now (some task) c = c
create_unless_existing tenant_id process_run_id work_item_id config now none c =
    add_first_contact tenant_id process_run_id work_item_id config now c

abbrev pub first_contact : Crm → ℕ → ℕ → ℕ → ℕ → Option LeadConfig → Result CrmError Crm
first_contact c tenant_id process_run_id work_item_id now none = ok c
first_contact c tenant_id process_run_id work_item_id now (some config) =
    assert_assignee_active_same_tenant c tenant_id config.default_assignee_user_id
    >> ok (
        create_unless_existing tenant_id process_run_id work_item_id config now
          (get_existing_automation_task c tenant_id process_run_id config.task_template_code) c)

unfoldable pub maybe_create_process_run_first_contact_task :
    Python → Crm → ℕ → ℕ → ℕ → ℕ → Result CrmError Crm
unfolding load_lead_automation_config assert_assignee_active_same_tenant create_unless_existing
    get_existing_automation_task
maybe_create_process_run_first_contact_task py c tenant_id process_run_id work_item_id now = do
  config ← load_lead_automation_config py c tenant_id
  first_contact c tenant_id process_run_id work_item_id now config
