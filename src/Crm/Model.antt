-- ===== src/Crm/Model.antt =====
-- The rows of backend/app/modules/workflows/models.py and process_overlay/models.py, the requests of
-- workflows/schemas.py, and the errors of process_overlay/exceptions.py.
use coreops_platform.Base.{ℕ, Bool, Option, List, String, Result, ok, err}
use coreops_platform.Base.Int.{ℤ}
use coreops_platform.Platform.{Platform, CoreError}
use coreops_platform.Parties.Values.{Value, Builtins}
use coreops_platform.Parties.CustomFields.{Fields, FieldDefinition, FieldValue, FieldError}
use coreops_platform.Crm.Policy.{Json, PolicySnapshot}

-- `opened` is OPEN.
pub data WorkItemStatus : Type 0 where
  opened in_progress won lost cancelled archived : WorkItemStatus

pub data ActivityType : Type 0 where
  call email meeting note status_change other : ActivityType

pub data TaskStatus : Type 0 where
  pending in_progress done cancelled : TaskStatus

pub data RunState : Type 0 where
  active completed cancelled : RunState

pub data ActivationState : Type 0 where
  inactive active : ActivationState

-- An exception: of the platform, a `ValueError`, one of the overlay, one of the lead automation, or
-- the database's refusal of a write.
pub data CrmError : Type 0 where
  core : CoreError → CrmError
  value_error validation activation isolation run_conflict run_state transition_denied lead_config
        integrity :
      CrmError

pub record Pipeline : Type 0 where
  pub id : ℕ
  pub tenant_id : ℕ
  pub code : String
  pub name : String
  pub is_default : Bool

pub record PipelineStage : Type 0 where
  pub id : ℕ
  pub pipeline_id : ℕ
  pub code : String
  pub name : String
  pub sort_order : ℕ
  pub is_terminal : Bool

pub record WorkItem : Type 0 where
  pub id : ℕ
  pub tenant_id : ℕ
  pub pipeline_id : ℕ
  pub stage_id : ℕ
  pub work_item_type : String
  pub title : String
  pub description : Option String
  pub primary_party_id : Option ℕ
  pub status : WorkItemStatus
  pub amount : Option ℤ
  pub currency : Option String
  pub source : Option String
  pub custom_fields_json : Fields

pub record Participant : Type 0 where
  pub tenant_id : ℕ
  pub work_item_id : ℕ
  pub party_id : ℕ
  pub role : String

-- The texts of the activities that the code writes itself are left out.
pub record Activity : Type 0 where
  pub tenant_id : ℕ
  pub work_item_id : ℕ
  pub activity_type : ActivityType
  pub occurred_at : ℕ

pub record Task : Type 0 where
  pub tenant_id : ℕ
  pub work_item_id : ℕ
  pub process_run_id : Option ℕ
  pub automation_key : Option String
  pub status : TaskStatus
  pub due_at : Option ℕ
  pub assigned_to_user_id : Option ℕ

-- A row of another module's table.
pub record PartyRow : Type 0 where
  pub id : ℕ
  pub tenant_id : ℕ

pub record ProcessTemplate : Type 0 where
  pub id : ℕ
  pub code : String
  pub default_pipeline_code : String
  pub is_active : Bool

pub record Configuration : Type 0 where
  pub id : ℕ
  pub tenant_id : ℕ
  pub process_template_id : ℕ
  pub pipeline_id : ℕ
  pub activation_state : ActivationState
  pub active_definition_version_id : Option ℕ

-- `ProcessDefinitionVersion`
pub record Version : Type 0 where
  pub id : ℕ
  pub tenant_id : ℕ
  pub configuration_id : ℕ
  pub version_number : ℕ
  pub pipeline_id : ℕ
  pub policy_snapshot_json : Json
  pub module_requirements : List String

-- `ProcessRun`
pub record Run : Type 0 where
  pub id : ℕ
  pub tenant_id : ℕ
  pub configuration_id : ℕ
  pub version_id : ℕ
  pub work_item_id : ℕ
  pub run_state : RunState
  pub completed_at : Option ℕ
  pub completion_reason : Option String
  pub current_stage_code : Option String

-- `TenantSettings`: the dict at `["consulting"]["lead_automation"]`, where there is one.
pub record LeadSettings : Type 0 where
  pub tenant_id : ℕ
  pub lead_automation : Option Fields

pub record Membership : Type 0 where
  pub tenant_id : ℕ
  pub user_id : ℕ
  pub is_active : Bool

pub record User : Type 0 where
  pub id : ℕ
  pub is_active : Bool

-- The tables. A new row is put first.
pub record Crm : Type 0 where
  pub platform : Platform
  pub pipelines : List Pipeline
  pub stages : List PipelineStage
  pub items : List WorkItem
  pub participants : List Participant
  pub activities : List Activity
  pub tasks : List Task
  pub field_definitions : List FieldDefinition
  pub field_values : List FieldValue
  pub parties : List PartyRow
  pub templates : List ProcessTemplate
  pub configurations : List Configuration
  pub versions : List Version
  pub runs : List Run
  pub lead_settings : List LeadSettings
  pub memberships : List Membership
  pub users : List User

-- What a call takes from its surroundings: the tenant and the user of the session, the instant, and
-- the identifiers of a new row and of a new run.
pub record Session : Type 0 where
  pub tenant_id : ℕ
  pub user_id : ℕ
  pub now : ℕ
  pub new_id : ℕ
  pub new_run_id : ℕ

-- What the code takes from Python and from pydantic: the builtins of the custom fields, `int`,
-- `uuid.UUID`, `len` of a text, and the conversion of a policy from JSON, before its own validators
-- run, and to JSON.
pub record Python : Type 0 where
  pub builtins : Builtins
  pub int_of : Value → Option ℤ
  pub uuid_of : String → Option ℕ
  pub text_length : String → ℕ
  pub decode : Json → Option PolicySnapshot
  pub dump : PolicySnapshot → Json

pub record ParticipantCreate : Type 0 where
  pub party_id : ℕ
  pub role : String

pub record WorkItemCreate : Type 0 where
  pub pipeline_id : ℕ
  pub stage_id : Option ℕ
  pub work_item_type : String
  pub title : String
  pub description : Option String
  pub primary_party_id : Option ℕ
  pub status : WorkItemStatus
  pub amount : Option ℤ
  pub currency : Option String
  pub source : Option String
  pub participants : List ParticipantCreate
  pub custom_fields : Fields

pub record WorkItemUpdate : Type 0 where
  pub stage_id : Option ℕ
  pub work_item_type : Option String
  pub title : Option String
  pub description : Option String
  pub primary_party_id : Option ℕ
  pub status : Option WorkItemStatus
  pub amount : Option ℤ
  pub currency : Option String
  pub source : Option String
  pub custom_fields : Option Fields

pub record TaskCreate : Type 0 where
  pub status : TaskStatus
  pub due_at : Option ℕ
  pub assigned_to_user_id : Option ℕ
  pub process_run_id : Option ℕ
  pub automation_key : Option String

abbrev pub lift_core : {A : Type 0} → Result CoreError A → Result CrmError A
lift_core (ok a) = ok a
lift_core (err e) = err (core e)

abbrev pub lift_fields : {A : Type 0} → Result FieldError A → Result CrmError A
lift_fields (ok a) = ok a
lift_fields (err (FieldError.core e)) = err (core e)
lift_fields (err FieldError.value_error) = err value_error
