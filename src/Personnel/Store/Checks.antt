-- ===== src/Personnel/Store/Checks.antt =====
-- What the checks of a row establish, stated without them (the CHECK constraints of the
-- migrations that src/personnel/domain/store.ts mirrors).
use dsh_backend_team.Base.{
  ℕ, ◌≤◌, ◌≡◌, ◌≢◌, false, Option, none, some, Text, text_lt, length, arith, ==_iff,
}
use dsh_backend_team.Personnel.Rows.{PersonRow, PersonStatus, AssignmentRow, ChangeRecordRow}
use dsh_backend_team.Personnel.Action.{ok}
use dsh_backend_team.Personnel.Store.{
  assert_person_row, assert_assignment_row, assert_change_record_row, refers_to,
}

-- A nullable text has at most `max` code units.
abbrev pub FitsIn : ℕ → Option Text → Type 0
FitsIn max none = Unit
FitsIn max (some t) = length t ≤ max

-- A nullable end is not before the start.
abbrev pub EndsFrom : Text → Option Text → Type 0
EndsFrom start none = Unit
EndsFrom start (some end) = text_lt end start ≡ false

-- A reason is there, and has a code unit.
abbrev pub IsGiven : Option Text → Type 0
IsGiven none = ⊥
IsGiven (some t) = 1 ≤ length t

abbrev pub HasReason : PersonStatus → Option Text → Type 0
HasReason PersonStatus.inactive reason = IsGiven reason
HasReason _ reason = Unit

pub record PersonChecked (row : PersonRow) : Type 0 where
  pub id_given : 1 ≤ length row.id
  pub employee_no_given : 1 ≤ length row.employee_no
  pub employee_no_short : length row.employee_no ≤ 32
  pub full_name_given : 1 ≤ length row.full_name
  pub full_name_short : length row.full_name ≤ 64
  pub mobile_short : FitsIn 32 row.mobile
  pub employment_ordered : EndsFrom row.employment_start_date row.employment_end_date
  pub inactive_has_reason : HasReason row.status row.deactivation_reason
  pub reason_short : FitsIn 200 row.deactivation_reason

-- A nullable reference is not to this row.
abbrev pub RefersElsewhere : Text → Option Text → Type 0
RefersElsewhere id none = Unit
RefersElsewhere id (some t) = t ≢ id

pub record AssignmentChecked (row : AssignmentRow) : Type 0 where
  pub id_given : 1 ≤ length row.id
  pub department_id_given : 1 ≤ length row.department_id
  pub department_id_short : length row.department_id ≤ 64
  pub department_name_given : 1 ≤ length row.department_name
  pub position_name_given : 1 ≤ length row.position_name
  pub interval_ordered : EndsFrom row.effective_from row.effective_to
  pub not_own_manager : RefersElsewhere row.person_id row.reports_to_person_id

pub record ChangeRecordChecked (row : ChangeRecordRow) : Type 0 where
  pub id_given : 1 ≤ length row.id
  pub person_id_given : 1 ≤ length row.person_id
  pub field_name_given : 1 ≤ length row.field_name
  pub operator_id_given : 1 ≤ length row.operator_id

pub assert_person_row-PersonChecked :
    (row : PersonRow) → assert_person_row row ≡ ok tt → PersonChecked row
unfolding assert_person_row
assert_person_row-PersonChecked row h = record {
  id_given = ground arith;
  employee_no_given = ground arith;
  employee_no_short = ground arith;
  full_name_given = ground arith;
  full_name_short = ground arith;
  mobile_short = ground arith;
  employment_ordered = ground arith;
  inactive_has_reason = ground arith;
  reason_short = ground arith;
}

RefersElsewhere-of_test :
    (m : Option Text) (id : Text) → refers_to m id ≡ false → RefersElsewhere id m
RefersElsewhere-of_test none id h = tt
RefersElsewhere-of_test (some t) id h = λ e. cc ((==_iff t id).1 e)

pub assert_assignment_row-AssignmentChecked :
    (row : AssignmentRow) → assert_assignment_row row ≡ ok tt → AssignmentChecked row
unfolding assert_assignment_row
assert_assignment_row-AssignmentChecked row h = record {
  id_given = ground arith;
  department_id_given = ground arith;
  department_id_short = ground arith;
  department_name_given = ground arith;
  position_name_given = ground arith;
  interval_ordered = ground arith;
  not_own_manager = RefersElsewhere-of_test row.reports_to_person_id row.person_id (ground arith);
}

pub assert_change_record_row-ChangeRecordChecked :
    (row : ChangeRecordRow) → assert_change_record_row row ≡ ok tt → ChangeRecordChecked row
unfolding assert_change_record_row
assert_change_record_row-ChangeRecordChecked row h = ground arith
