-- ===== src/Personnel/Tests.antt =====
-- An office to run the code of src/personnel on; the children run it.
mod UseCases
mod Reads
use dsh_backend_team.Base.{
  ◌≡◌, refl, ℕ, ◌+◌, Bool, true, false, Option, none, some, List, [], ◌∷◌, Text, codes,
}
use dsh_backend_team.Personnel.Rows.{
  PersonRow, PersonStatus, EmploymentType, AssignmentRow, AssignmentStatus, ChangeRecordRow,
  ErrorCode,
}
use dsh_backend_team.Personnel.Action.{
  World, Context, Result, ok, err, throw, error, transaction, ◌>>◌,
}
use dsh_backend_team.Personnel.Action.Rules.{SameTables, transaction_atomic}
use dsh_backend_team.Json.{Json, Fields}
use dsh_backend_team.Personnel.Store.{insert_person}
use dsh_backend_team.Personnel.Store.Invariant.{IsValid}
use dsh_backend_team.Personnel.Action.{
  pure, gets, or_throw, lift, ◌>>=◌, throw_if, next_id, read_clock,
}
use dsh_backend_team.Base.{◌≢◌, ◌⊎◌, All, take, ◌*◌}
use dsh_backend_team.Personnel.Rows.{ChangeAction}
use dsh_backend_team.Personnel.Assignment.{is_skipped, existing_end}
use dsh_backend_team.Personnel.Assignment.Overlap.{covers, check_no_overlap_sound}
use dsh_backend_team.Personnel.Assignment.ReportLine.Chain.{
  walk_managers_ends, Accepted, check_report_line_sound,
}
use dsh_backend_team.Personnel.Effective.{is_effective, starts_earlier}
use dsh_backend_team.Personnel.Effective.Laws.{
  effective_assignment_at_sound, effective_assignment_at-none,
}
use dsh_backend_team.Personnel.Lifecycle.{Page, page_of, check_page, list_person_history}
use dsh_backend_team.Personnel.Laws.History.{
  Listed, list_person_history-Listed, first_pages, first_pages_lem,
}
use dsh_backend_team.Base.{◌==◌, text_lt, sort, trim, is_space}
use dsh_backend_team.Personnel.Audit.{record_each, record_changes}
use dsh_backend_team.Personnel.Store.{
  insert_change_record, update_assignment, insert_assignment, update_person, delete_person,
  assert_person_row, assert_assignment_row, assert_change_record_row, overlaps_stored,
}
use dsh_backend_team.Personnel.Effective.{effective_assignment_at}
use dsh_backend_team.Personnel.Assignment.{
  retract_assignment_tx, create_assignment_tx, business_date, check_no_overlap, ranges_overlap,
  close_current_assignment,
}
use dsh_backend_team.Personnel.Assignment.ReportLine.{enough_fuel, check_report_line, walk_managers}
use dsh_backend_team.Personnel.Input.{
  required_text, required_date, optional_text, optional_date, is_iso_calendar_date,
}
use dsh_backend_team.Personnel.Status.{transition_tx, is_allowed}
use dsh_backend_team.Base.{text_le, if◌then◌else◌}
use dsh_backend_team.Personnel.Action.Inversion.{Returns}
use dsh_backend_team.Personnel.Input.{AssignmentCreateRequest, validate_assignment_create}
use dsh_backend_team.Personnel.Assignment.{create_assignment, retract_assignment}
use dsh_backend_team.Personnel.Status.{
  StatusTransitionRequest, as_request, transition_person_status,
}
use dsh_backend_team.Personnel.Lifecycle.{remove_person}
use dsh_backend_team.Personnel.Laws.Outcomes.{
  Retracted, retract_assignment-Retracted, Moved, transition_person_status-Moved, Assigned,
  create_assignment-Assigned, Removable, remove_person-Removable,
}
use dsh_backend_team.Personnel.Laws.Validity.{
  Call, after_all, after_all-IsValid, after_all-Logs, Logs,
}

abbrev person : Text → PersonStatus → PersonRow
person id status = record {
  id = id;
  employee_no = id;
  full_name = codes "Li";
  mobile = none;
  email = none;
  employment_type = EmploymentType.full_time;
  employment_start_date = codes "2024-01-01";
  employment_end_date = none;
  status = status;
  deactivated_on = none;
  deactivation_reason = none;
  created_at = codes "t";
  updated_at = codes "t";
}

abbrev assignment :
    Text → Text → Option Text → Text → Option Text → AssignmentStatus → AssignmentRow
assignment id owner manager from end status = record {
  id = id;
  person_id = owner;
  department_id = codes "d";
  department_name = codes "D";
  position_id = none;
  position_name = codes "P";
  reports_to_person_id = manager;
  effective_from = from;
  effective_to = end;
  status = status;
  created_at = codes "t";
  updated_at = codes "t";
}

abbrev empty_world : World
empty_world = record { persons = []; assignments = []; change_records = []; drawn = 0; ticks = 0 }

-- Ann, who is active with a pending assignment, Bo, who is active, and Cy, who is active without
-- any assignment.
abbrev office : World
office = record {
  persons =
      person (codes "a") PersonStatus.active
      ∷ person (codes "b") PersonStatus.active
      ∷ person (codes "c") PersonStatus.active
      ∷ [];
  assignments =
      assignment (codes "1") (codes "a") (some (codes "b")) (codes "2024-01-01")
        (some (codes "2024-06-01")) AssignmentStatus.closed
      ∷ assignment (codes "2") (codes "a") none (codes "2030-01-01") none AssignmentStatus.pending
      ∷ assignment (codes "3") (codes "b") none (codes "2024-01-01") none AssignmentStatus.current
      ∷ [];
  change_records = [];
  drawn = 0;
  ticks = 0;
}

-- Identifiers and clock readings are single code units.
abbrev context : Context
context = record {
  operator_id = none;
  operator_name = none;
  id_factory = λ n. (1000 + n) ∷ [];
  clock = λ n. (2000 + n) ∷ [];
  today = some (codes "2025-01-01");
}
