-- ===== src/Personnel/Tests/UseCases.antt =====
-- Runs of the writing use cases of src/personnel/domain, and their theorems at concrete inputs.
use dsh_backend_team.Personnel.Laws.Keeping.{KeepsAssignments, after_all-KeepsAssignments}
use dsh_backend_team.Personnel.Tests.{person, assignment, empty_world, office, context}
use dsh_backend_team.Base.{suc, ◌≡◌, refl, true, false, none, some, List, [], ◌∷◌, Text, codes}
use dsh_backend_team.Personnel.Rows.{PersonRow, PersonStatus, AssignmentRow, AssignmentStatus}
use dsh_backend_team.Personnel.Action.{World, Context, ok, throw, transaction, ◌>>◌}
use dsh_backend_team.Personnel.Action.Rules.{SameTables}
use dsh_backend_team.Json.{Json, Fields}
use dsh_backend_team.Personnel.Store.Invariant.{IsValid}
use dsh_backend_team.Personnel.Action.{
  pure, gets, or_throw, lift, ◌>>=◌, throw_if, next_id, read_clock,
}
use dsh_backend_team.Base.{◌==◌, text_lt, sort, trim, is_space}
use dsh_backend_team.Personnel.Audit.{record_each, record_changes}
use dsh_backend_team.Personnel.Store.{
  insert_change_record, update_assignment, insert_assignment, update_person, delete_person,
  assert_person_row, assert_assignment_row, assert_change_record_row, overlaps_stored,
}
use dsh_backend_team.Personnel.Effective.{effective_assignment_at}
use dsh_backend_team.Personnel.Assignment.{
  retract_assignment_tx, create_assignment_tx, business_date, check_no_overlap, ranges_overlap,
  close_current_assignment,
}
use dsh_backend_team.Personnel.Assignment.ReportLine.{check_report_line, walk_managers}
use dsh_backend_team.Personnel.Input.{
  required_text, required_date, optional_text, optional_date, is_iso_calendar_date,
}
use dsh_backend_team.Personnel.Status.{transition_tx, is_allowed}
use dsh_backend_team.Base.{text_le, if◌then◌else◌}
use dsh_backend_team.Personnel.Action.Inversion.{Returns}
use dsh_backend_team.Personnel.Input.{AssignmentCreateRequest, validate_assignment_create}
use dsh_backend_team.Personnel.Assignment.{create_assignment, retract_assignment}
use dsh_backend_team.Personnel.Status.{
  StatusTransitionRequest, as_request, transition_person_status,
}
use dsh_backend_team.Personnel.Lifecycle.{remove_person}
use dsh_backend_team.Personnel.Laws.Outcomes.{
  IsToday, Retracted, retract_assignment-Retracted, Moved, transition_person_status-Moved, Assigned,
  create_assignment-Assigned, Removable, remove_person-Removable,
}
use dsh_backend_team.Personnel.Laws.Validity.{
  Call, after_all, after_all-IsValid, after_all-Logs, Logs,
}

empty_world-IsValid : IsValid empty_world
empty_world-IsValid = record {
  persons_checked = tt;
  persons_distinct = tt;
  assignments_checked = tt;
  assignments_distinct = tt;
  owners_known = tt;
  records_checked = tt;
  records_distinct = tt;
}

abbrev text_fields : List (Text × Text) → Fields
text_fields [] = Fields.end
text_fields ((k, v) ∷ rest) = Fields.field k (Json.str v) (text_fields rest)

abbrev new_person_input : Json
new_person_input = Json.obj (
    text_fields (
      (codes "employeeNo", codes "E1")
      ∷ (codes "fullName", codes "Ann")
      ∷ (codes "employmentType", codes "full_time")
      ∷ (codes "employmentStartDate", codes "2024-01-01")
      ∷ (codes "departmentId", codes "d")
      ∷ (codes "departmentName", codes "D")
      ∷ (codes "positionName", codes "P")
      ∷ (codes "effectiveFrom", codes "2024-01-01")
      ∷ []))

abbrev new_assignment_input : Json
new_assignment_input = Json.obj (
    text_fields (
      (codes "departmentId", codes "d")
      ∷ (codes "departmentName", codes "D")
      ∷ (codes "positionName", codes "P")
      ∷ (codes "effectiveFrom", codes "2026-01-01")
      ∷ (codes "reportsToPersonId", codes "b")
      ∷ []))

abbrev deactivation_input : Json
deactivation_input = Json.obj (
    text_fields (
      (codes "toStatus", codes "inactive")
      ∷ (codes "effectiveFrom", codes "2025-01-01")
      ∷ (codes "reason", codes "left")
      ∷ []))

abbrev calls : List (Context × Call)
calls =
    (context, Call.creates_person (some new_person_input))
    ∷ (context, Call.applies_due (codes "2025-01-01"))
    ∷ []

after_all-IsValid_example : IsValid (after_all calls empty_world)
after_all-IsValid_example = after_all-IsValid calls empty_world empty_world-IsValid

after_all-Logs_example : Logs empty_world (after_all calls empty_world)
after_all-Logs_example = after_all-Logs calls empty_world

abbrev retracted_row : AssignmentRow
retracted_row =
    record (assignment (codes "2") (codes "a") none (codes "2030-01-01") none
      AssignmentStatus.retracted) { updated_at = 2000 ∷ [] }

retract_run : Returns (retract_assignment context (codes "a") (codes "2")) office retracted_row
unfolding pure throw gets or_throw lift ◌>>=◌ ◌>>◌ throw_if next_id read_clock transaction ◌==◌
    text_lt sort record_each record_changes insert_change_record update_assignment
    assert_assignment_row assert_change_record_row retract_assignment retract_assignment_tx
retract_run = refl

retract_assignment_example :
    (now : Text) × Retracted (codes "a") (codes "2") now office retracted_row
retract_assignment_example =
    retract_assignment-Retracted context (codes "a") (codes "2") office retracted_row retract_run

abbrev left_person : PersonRow
left_person = record (person (codes "b") PersonStatus.inactive) {
  deactivated_on = some (codes "2025-01-01");
  deactivation_reason = some (codes "left");
  updated_at = 2000 ∷ [];
}

transition_run :
    Returns
      (transition_person_status context (codes "b") (some deactivation_input))
      office
      (record { person = left_person; current_assignment = none })
unfolding pure throw gets or_throw lift ◌>>=◌ ◌>>◌ throw_if next_id read_clock transaction ◌==◌
    text_lt sort record_each record_changes insert_change_record update_assignment
    assert_assignment_row assert_change_record_row trim is_space transition_person_status
    transition_tx as_request is_allowed is_iso_calendar_date update_person assert_person_row
    effective_assignment_at
transition_run = refl

transition_person_status_example :
    (request : StatusTransitionRequest) × ((as_request (some deactivation_input) ≡ ok request)
      × Moved
          (codes "b")
          request
          (context.clock office.ticks)
          office
          (record { person = left_person; current_assignment = none }))
transition_person_status_example =
    transition_person_status-Moved context (codes "b") (some deactivation_input) office
      (record { person = left_person; current_assignment = none }) transition_run

abbrev created_row : AssignmentRow
created_row =
    record (assignment (1000 ∷ []) (codes "c") (some (codes "b")) (codes "2026-01-01") none
      AssignmentStatus.pending) { created_at = 2000 ∷ []; updated_at = 2000 ∷ [] }

create_run :
    Returns (create_assignment context (codes "c") (some new_assignment_input)) office created_row
unfolding pure throw gets or_throw lift ◌>>=◌ ◌>>◌ throw_if next_id read_clock transaction ◌==◌
    text_lt sort record_each record_changes insert_change_record update_assignment
    assert_assignment_row assert_change_record_row create_assignment create_assignment_tx
    business_date validate_assignment_create required_text required_date optional_text optional_date
    is_iso_calendar_date trim is_space check_report_line walk_managers check_no_overlap
    ranges_overlap effective_assignment_at insert_assignment overlaps_stored
    close_current_assignment
create_run = refl

create_assignment_example :
    (request : AssignmentCreateRequest) × (today : Text) × (v : World)
    × ((validate_assignment_create (some new_assignment_input) ≡ ok request)
        × IsToday context (suc office.ticks) today
        × SameTables office v
        × Assigned
            (codes "c")
            request
            (if text_le request.effective_from today
              then AssignmentStatus.current
              else AssignmentStatus.pending)
            v
            created_row)
create_assignment_example =
    create_assignment-Assigned context (codes "c") (some new_assignment_input) office created_row
      create_run

remove_run : Returns (remove_person context true (λ _. false) (codes "c")) office tt
unfolding pure throw gets or_throw lift ◌>>=◌ ◌>>◌ throw_if next_id read_clock transaction ◌==◌
    remove_person delete_person
remove_run = refl

remove_person_example : Removable (codes "c") true (λ _. false) office
remove_person_example =
    remove_person-Removable context true (λ _. false) (codes "c") office remove_run

after_all-KeepsAssignments_example : KeepsAssignments office (after_all calls office)
after_all-KeepsAssignments_example = after_all-KeepsAssignments calls office
