-- ===== src/Personnel/Rows.antt =====
-- The rows of src/personnel/domain/store.ts with the enumerations of src/personnel/contract/dto.ts,
-- and the errors of src/personnel/contract/errors.ts without their Chinese message.
use dsh_backend_team.Base.{Option, List, Text, Bool, true, false}

pub data PersonStatus : Type 0 where
  draft active inactive : PersonStatus

pub data EmploymentType : Type 0 where
  full_time part_time contract intern other : EmploymentType

pub data AssignmentStatus : Type 0 where
  pending current closed retracted : AssignmentStatus

pub data ChangeAction : Type 0 where
  create update assignment_change assignment_retract status_change delete_attempt : ChangeAction

pub record PersonRow : Type 0 where
  pub id : Text
  pub employee_no : Text
  pub full_name : Text
  pub mobile : Option Text
  pub email : Option Text
  pub employment_type : EmploymentType
  pub employment_start_date : Text
  pub employment_end_date : Option Text
  pub status : PersonStatus
  pub deactivated_on : Option Text
  pub deactivation_reason : Option Text
  pub created_at : Text
  pub updated_at : Text

pub record AssignmentRow : Type 0 where
  pub id : Text
  pub person_id : Text
  pub department_id : Text
  pub department_name : Text
  pub position_id : Option Text
  pub position_name : Text
  pub reports_to_person_id : Option Text
  pub effective_from : Text
  pub effective_to : Option Text
  pub status : AssignmentStatus
  pub created_at : Text
  pub updated_at : Text

pub record ChangeRecordRow : Type 0 where
  pub id : Text
  pub person_id : Text
  pub action : ChangeAction
  pub field_name : Text
  pub old_value : Option Text
  pub new_value : Option Text
  pub operator_id : Text
  pub operator_name : Option Text
  pub occurred_at : Text
  pub effective_from : Option Text
  pub effective_to : Option Text

pub data ErrorCode : Type 0 where
  validation_failed duplicate_employee_no overlapping_assignment invalid_report_line : ErrorCode
  invalid_status_transition not_yet_retractable referenced_by_business unauthorized : ErrorCode
  forbidden not_found conflict internal_error : ErrorCode

-- `field_errors` keeps the names of the fields, in order.
pub record PersonnelError : Type 0 where
  pub code : ErrorCode
  pub field_errors : List Text
  pub conflict_ref : Option Text

-- `status === 'draft'` and so on
abbrev pub is_draft : PersonStatus → Bool
is_draft PersonStatus.draft = true
is_draft _ = false

abbrev pub is_active : PersonStatus → Bool
is_active PersonStatus.active = true
is_active _ = false

abbrev pub is_inactive : PersonStatus → Bool
is_inactive PersonStatus.inactive = true
is_inactive _ = false

abbrev pub is_pending : AssignmentStatus → Bool
is_pending AssignmentStatus.pending = true
is_pending _ = false

abbrev pub is_current : AssignmentStatus → Bool
is_current AssignmentStatus.current = true
is_current _ = false

abbrev pub is_retracted : AssignmentStatus → Bool
is_retracted AssignmentStatus.retracted = true
is_retracted _ = false
