-- ===== src/Personnel/Assignment/ReportLine.antt =====
-- `assertReportLine` of src/personnel/domain/assignment.ts: the manager is somebody else, active,
-- and the chain of managers does not come back.
pub mod Chain
use dsh_backend_team.Base.{
  ℕ, zero, suc, ◌+◌, Bool, true, not, Option, none, some, List, [], ◌∷◌, Text, ◌==◌, length,
  text_member, if◌then◌else◌,
}
use dsh_backend_team.Personnel.Rows.{PersonRow, AssignmentRow, ErrorCode, is_active}
use dsh_backend_team.Personnel.Action.{World, Result, ok, err, Action, error}
use dsh_backend_team.Personnel.Store.{find_person_by_id}
use dsh_backend_team.Personnel.Effective.{effective_assignment_at}

abbrev pub report_line_error : Text → Result (Unit {0})
report_line_error id = err (error ErrorCode.invalid_report_line (some id))

-- `current?.reports_to_person_id ?? null`
abbrev pub manager_of : Option AssignmentRow → Option Text
manager_of none = none
manager_of (some a) = a.reports_to_person_id

module _ (assignments : List AssignmentRow) (at : Text) where
  abbrev pub manager_at : Text → Option Text
  manager_at id = manager_of (effective_assignment_at assignments id at)

  -- The loop over `cursor`, with fuel; `none` means that the fuel ran out.
  unfoldable pub walk_managers : ℕ → List Text → Option Text → Option (Result (Unit {0}))
  walk_managers zero seen cursor = none
  walk_managers (suc fuel) seen none = some (ok tt)
  walk_managers (suc fuel) seen (some id) =
      let rest = walk_managers fuel (id ∷ seen) (manager_at id) in
      if text_member id seen then some (report_line_error id) else rest

-- One round for each assignment, one for the first manager, and one that ends the loop.
abbrev pub enough_fuel : List AssignmentRow → ℕ
enough_fuel assignments = length assignments + 2

abbrev finished : Option (Result (Unit {0})) → Result (Unit {0})
finished none = err (error ErrorCode.internal_error none)
finished (some r) = r

-- `manager === null || manager.status !== 'active'`
abbrev no_active_manager : Option PersonRow → Bool
no_active_manager none = true
no_active_manager (some p) = not (is_active p.status)

unfoldable pub check_report_line : PersonRow → Option Text → Text → World → Result (Unit {0})
check_report_line person none effective_from w = ok tt
check_report_line person (some manager) effective_from w =
    if manager == person.id
    then report_line_error person.id
    else if no_active_manager (find_person_by_id manager w)
    then report_line_error manager
    else finished (
        walk_managers w.assignments effective_from (enough_fuel w.assignments) (person.id ∷ [])
          (some manager))

abbrev pub assert_report_line : PersonRow → Option Text → Text → Action (Unit {0})
assert_report_line person manager effective_from w =
    (check_report_line person manager effective_from w, w)
