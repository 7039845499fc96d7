-- ===== src/Personnel/Tests/Reads.antt =====
-- Runs of the checks and the reading use cases of src/personnel/domain, and their theorems at
-- concrete inputs.
use dsh_backend_team.Personnel.Effective.Start.{effective_assignment_at_start}
use dsh_backend_team.Personnel.Store.Invariant.{IsValid}
use dsh_backend_team.Personnel.Tests.{empty_world}
use dsh_backend_team.Personnel.Tests.{person, assignment, office}
use dsh_backend_team.Base.{
  inr, text_le_lt_trans, inl, Bool-cases, text_lt_asymm, arith, ◌≡◌, refl, true, false, none, some,
  [], ◌∷◌, Text, codes,
}
use dsh_backend_team.Personnel.Rows.{
  PersonStatus, AssignmentRow, AssignmentStatus, ChangeRecordRow, ErrorCode,
}
use dsh_backend_team.Personnel.Action.{World, Result, ok, err, throw, error, transaction, ◌>>◌}
use dsh_backend_team.Personnel.Action.Rules.{SameTables, transaction_atomic}
use dsh_backend_team.Personnel.Store.{insert_person}
use dsh_backend_team.Personnel.Action.{pure, gets, lift, ◌>>=◌, throw_if}
use dsh_backend_team.Base.{◌≢◌, All, take, ◌*◌}
use dsh_backend_team.Personnel.Rows.{ChangeAction}
use dsh_backend_team.Personnel.Assignment.Overlap.{IsApart, covers, check_no_overlap_sound}
use dsh_backend_team.Personnel.Assignment.ReportLine.Chain.{
  walk_managers_ends, Accepted, check_report_line_sound,
}
use dsh_backend_team.Personnel.Effective.{is_effective}
use dsh_backend_team.Personnel.Effective.Laws.{
  Covers, effective_assignment_at_sound, effective_assignment_at-none,
}
use dsh_backend_team.Personnel.Lifecycle.{Page, page_of, check_page, list_person_history}
use dsh_backend_team.Personnel.Laws.History.{
  IsOrder, Listed, list_person_history-Listed, first_pages, first_pages_lem,
}
use dsh_backend_team.Base.{◌==◌, text_lt, sort, trim, is_space}
use dsh_backend_team.Personnel.Store.{assert_person_row}
use dsh_backend_team.Personnel.Effective.{effective_assignment_at}
use dsh_backend_team.Personnel.Assignment.{check_no_overlap, ranges_overlap}
use dsh_backend_team.Personnel.Assignment.ReportLine.{enough_fuel, check_report_line, walk_managers}
use dsh_backend_team.Personnel.Action.Inversion.{Returns}
use dsh_backend_team.Personnel.Input.{AssignmentCreateRequest}

abbrev request : AssignmentCreateRequest
request = record {
  department_id = codes "d";
  department_name = codes "D";
  position_id = none;
  position_name = codes "P";
  reports_to_person_id = some (codes "b");
  effective_from = codes "2024-06-01";
  effective_to = some (codes "2024-09-01");
}

no_overlap_run :
    check_no_overlap office.assignments (codes "a") request AssignmentStatus.current ≡ ok tt
unfolding check_no_overlap ranges_overlap text_lt ◌==◌
no_overlap_run = refl

covers_run : covers request.effective_from request.effective_to (codes "2024-07-01") ≡ true
unfolding text_lt
covers_run = refl

check_no_overlap_example :
    All
      (IsApart (codes "a") request AssignmentStatus.current (codes "2024-07-01"))
      office.assignments
check_no_overlap_example =
    check_no_overlap_sound office.assignments (codes "a") request AssignmentStatus.current
      (codes "2024-07-01") no_overlap_run covers_run

-- Bo may manage Cy, and not the other way round once Bo reports to Ann, who reports to Bo.
report_line_run :
    check_report_line
      (person (codes "c") PersonStatus.active)
      (some (codes "a"))
      (codes "2024-03-01")
      office
    ≡ ok tt
unfolding check_report_line walk_managers effective_assignment_at sort text_lt ◌==◌
report_line_run = refl

circle_run :
    check_report_line
      (person (codes "b") PersonStatus.active)
      (some (codes "a"))
      (codes "2024-03-01")
      office
    ≡ err (error ErrorCode.invalid_report_line (some (codes "b")))
unfolding check_report_line walk_managers effective_assignment_at sort text_lt ◌==◌
circle_run = refl

check_report_line_example :
    Accepted (person (codes "c") PersonStatus.active) (codes "a") (codes "2024-03-01") office
check_report_line_example =
    check_report_line_sound (person (codes "c") PersonStatus.active) (codes "a")
      (codes "2024-03-01") office report_line_run

abbrev failing : World → Result (Unit {0}) × World
failing = transaction (
    insert_person (person (codes "z") PersonStatus.active) >> throw (error ErrorCode.conflict none))

failing_run : (failing office).0 ≡ err (error ErrorCode.conflict none)
unfolding transaction ◌>>=◌ ◌>>◌ throw insert_person assert_person_row text_lt trim is_space ◌==◌
failing_run = refl

transaction_atomic_example : SameTables office (failing office).1
transaction_atomic_example =
    transaction_atomic
      (insert_person (person (codes "z") PersonStatus.active)
        >> throw (error ErrorCode.conflict none))
      office (error ErrorCode.conflict none) failing_run

abbrev first_row : AssignmentRow
first_row =
    assignment (codes "1") (codes "a") (some (codes "b")) (codes "2024-01-01")
      (some (codes "2024-06-01")) AssignmentStatus.closed

effective_run :
    effective_assignment_at office.assignments (codes "a") (codes "2024-03-01") ≡ some first_row
unfolding effective_assignment_at sort text_lt ◌==◌
effective_run = refl

effective_assignment_example :
    Covers (codes "a") (codes "2024-03-01") first_row
    × All
        (λ b.
          Covers (codes "a") (codes "2024-03-01") b
          → text_lt first_row.effective_from b.effective_from ≡ false)
        office.assignments
effective_assignment_example =
    effective_assignment_at_sound office.assignments (codes "a") (codes "2024-03-01") first_row
      effective_run

none_effective_run :
    effective_assignment_at office.assignments (codes "a") (codes "2024-07-01") ≡ none
unfolding effective_assignment_at sort text_lt ◌==◌
none_effective_run = refl

none_effective_example :
    All (λ b. is_effective (codes "a") (codes "2024-07-01") b ≡ false) office.assignments
none_effective_example =
    effective_assignment_at-none office.assignments (codes "a") (codes "2024-07-01")
      none_effective_run

abbrev log_entry : Text → Text → ChangeRecordRow
log_entry id at = record {
  id = id;
  person_id = codes "a";
  action = ChangeAction.update;
  field_name = codes "fullName";
  old_value = none;
  new_value = none;
  operator_id = codes "o";
  operator_name = none;
  occurred_at = at;
  effective_from = none;
  effective_to = none;
}

abbrev logged_office : World
logged_office = record office {
  change_records =
      log_entry (codes "1") (codes "2024-01-01")
      ∷ log_entry (codes "2") (codes "2024-03-01")
      ∷ log_entry (codes "3") (codes "2024-02-01")
      ∷ [];
}

abbrev second_page : Page ChangeRecordRow
second_page = record {
  items = log_entry (codes "1") (codes "2024-01-01") ∷ [];
  page = 2;
  page_size = 2;
  total = 3;
}

history_run : Returns (list_person_history text_lt (codes "a") 2 2) logged_office second_page
unfolding list_person_history check_page page_of gets throw_if lift pure ◌>>=◌ ◌>>◌ sort text_lt
    ◌==◌
history_run = refl

text_lt-IsOrder : IsOrder text_lt
text_lt-IsOrder = record {
  asymm = text_lt_asymm;
  trans = λ a b c h k. elim (Bool-cases (text_lt a c)) [
    | inl less ↦ cc (text_le_lt_trans b a c h less)
    | inr fine ↦ fine
  ];
}

history_example : Listed text_lt (codes "a") 2 2 logged_office second_page
history_example =
    list_person_history-Listed text_lt (codes "a") 2 2 logged_office second_page text_lt-IsOrder
      history_run

first_pages_example :
    first_pages 2 2 logged_office.change_records ≡ take (2 * 2) logged_office.change_records
first_pages_example = first_pages_lem 2 2 logged_office.change_records

walk_managers_example :
    walk_managers office.assignments
      (codes "2024-03-01")
      (enough_fuel office.assignments)
      (codes "c" ∷ [])
      (some (codes "a"))
    ≢ none
walk_managers_example =
    walk_managers_ends office.assignments (codes "2024-03-01") (codes "c" ∷ []) (some (codes "a"))

abbrev pending_row : AssignmentRow
pending_row =
    assignment (codes "2") (codes "a") none (codes "2030-01-01") none AssignmentStatus.pending

-- Ann with her pending assignment only.
abbrev waiting_world : World
waiting_world = record empty_world {
  persons = person (codes "a") PersonStatus.active ∷ [];
  assignments = pending_row ∷ [];
}

waiting_world-IsValid : IsValid waiting_world
unfolding ◌==◌ text_lt
waiting_world-IsValid = record {
  persons_checked = (
    record {
      id_given = omega arith;
      employee_no_given = omega arith;
      employee_no_short = omega arith;
      full_name_given = omega arith;
      full_name_short = omega arith;
      mobile_short = tt;
      employment_ordered = tt;
      inactive_has_reason = tt;
      reason_short = tt;
    },
    tt,
  );
  persons_distinct = (tt, tt);
  assignments_checked = (
    record {
      id_given = omega arith;
      department_id_given = omega arith;
      department_id_short = omega arith;
      department_name_given = omega arith;
      position_name_given = omega arith;
      interval_ordered = tt;
      not_own_manager = tt;
    },
    tt,
  );
  assignments_distinct = (tt, tt);
  owners_known = (refl, tt);
  records_checked = tt;
  records_distinct = tt;
}

-- So the activation finds the pending assignment itself as the one before it.
start_example :
    effective_assignment_at waiting_world.assignments (codes "a") (codes "2030-01-01")
    ≡ some pending_row
start_example =
    effective_assignment_at_start waiting_world [] [] pending_row waiting_world-IsValid refl refl
      refl
