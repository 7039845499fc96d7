-- ===== src/Personnel/Assignment.antt =====
-- The use cases of src/personnel/domain/assignment.ts: creating an assignment, applying those
-- that are due, retracting one.
pub mod Overlap
pub mod ReportLine
use dsh_backend_team.Base.{
  ℕ, zero, suc, Bool, true, false, not, ◌&&◌, ◌||◌, Option, none, some, List, [], ◌∷◌, Text, ◌==◌,
  codes, text_lt, text_le, take, length, text_member, filter, find, sort, if◌then◌else◌,
}
use dsh_backend_team.Personnel.Rows.{
  PersonRow, AssignmentRow, AssignmentStatus, ChangeAction, ErrorCode, is_active, is_pending,
  is_current, is_retracted,
}
use dsh_backend_team.Personnel.Action.{
  World, Context, Result, ok, err, Action, pure, throw, gets, or_throw, lift, ◌>>=◌, ◌>>◌, throw_if,
  error, next_id, read_clock, transaction,
}
use dsh_backend_team.Personnel.Store.{
  before_end, find_person_by_id, find_assignment_by_id, list_assignments_by_person,
  insert_assignment, update_assignment,
}
use dsh_backend_team.Json.{Json}
use dsh_backend_team.Personnel.Input.{AssignmentCreateRequest, validate_assignment_create}
use dsh_backend_team.Personnel.Effective.{effective_assignment_at}
use dsh_backend_team.Personnel.Audit.{AuditChange, record_changes}
use dsh_backend_team.Personnel.Assignment.ReportLine.{assert_report_line}

-- `context.today ?? clock().slice(0, 10)`
unfoldable pub business_date : Option Text → Context → Action Text
business_date none c = do now ← read_clock c; pure (take 10 now)
business_date (some today) c = pure today

-- `leftEnd === null || rightStart < leftEnd`, and the other way round.
unfoldable pub ranges_overlap : Text → Option Text → Text → Option Text → Bool
ranges_overlap left_start left_end right_start right_end =
    before_end right_start left_end && before_end left_start right_end

abbrev pub is_null : Option Text → Bool
is_null none = true
is_null (some _) = false

-- The end that an existing assignment has for the test: a current one without an end ends where a
-- pending one begins.
abbrev pub existing_end : AssignmentRow → AssignmentCreateRequest → AssignmentStatus → Option Text
existing_end existing request status =
    if is_pending status
      && is_current existing.status
      && is_null existing.effective_to
      && text_lt existing.effective_from request.effective_from
    then some request.effective_from
    else existing.effective_to

-- Whether the loop goes on to the next assignment, by either `continue`.
abbrev pub is_skipped : AssignmentRow → Text → AssignmentCreateRequest → AssignmentStatus → Bool
is_skipped existing person_id request status =
    not (existing.person_id == person_id)
    || is_retracted existing.status
    || is_current status
      && is_current existing.status
      && text_lt existing.effective_from request.effective_from

unfoldable pub check_no_overlap :
    List AssignmentRow → Text → AssignmentCreateRequest → AssignmentStatus → Result (Unit {0})
unfolding ranges_overlap
check_no_overlap [] person_id request status = ok tt
check_no_overlap (existing ∷ rest) person_id request status =
    let later = check_no_overlap rest person_id request status in
    if not (is_skipped existing person_id request status)
      && ranges_overlap existing.effective_from (existing_end existing request status)
          request.effective_from request.effective_to
    then err (error ErrorCode.overlapping_assignment (some existing.id))
    else later

abbrev pub close_found : Option AssignmentRow → Text → Text → Action (Unit {0})
close_found none effective_to now = pure tt
close_found (some current) effective_to now = update_assignment (record current {
  effective_to = some effective_to;
  status = AssignmentStatus.closed;
  updated_at = now;
})

-- `closeCurrentAssignment`; its result is not used.
unfoldable pub close_current_assignment : Text → Text → Text → Action (Unit {0})
close_current_assignment person_id effective_to now = do
  current ← gets (λ w.
      find (λ a. is_current a.status && text_lt a.effective_from effective_to)
        (list_assignments_by_person person_id w))
  close_found current effective_to now

abbrev assignment_change : Text → Option Text → Option Text → AssignmentRow → AuditChange
assignment_change field old new row = record {
  action = ChangeAction.assignment_change;
  field_name = field;
  old_value = old;
  new_value = new;
  effective_from = some row.effective_from;
  effective_to = row.effective_to;
}

abbrev field_of : (AssignmentRow → Option Text) → Option AssignmentRow → Option Text
field_of get none = none
field_of get (some a) = get a

-- The five field changes that a new assignment logs.
abbrev pub creation_changes : Option AssignmentRow → AssignmentRow → List AuditChange
creation_changes previous row =
    assignment_change (codes "departmentId") (field_of (λ a. some a.department_id) previous)
      (some row.department_id) row
    ∷ assignment_change (codes "departmentName") (field_of (λ a. some a.department_name) previous)
        (some row.department_name) row
    ∷ assignment_change (codes "positionId") (field_of (λ a. a.position_id) previous)
        row.position_id row
    ∷ assignment_change (codes "positionName") (field_of (λ a. some a.position_name) previous)
        (some row.position_name) row
    ∷ assignment_change (codes "reportsToPersonId")
        (field_of (λ a. a.reports_to_person_id) previous) row.reports_to_person_id row
    ∷ []

abbrev new_assignment :
    Text → Text → AssignmentCreateRequest → AssignmentStatus → Text → AssignmentRow
new_assignment id person_id request status now = record {
  id = id;
  person_id = person_id;
  department_id = request.department_id;
  department_name = request.department_name;
  position_id = request.position_id;
  position_name = request.position_name;
  reports_to_person_id = request.reports_to_person_id;
  effective_from = request.effective_from;
  effective_to = request.effective_to;
  status = status;
  created_at = now;
  updated_at = now;
}

-- `if (status === 'current') closeCurrentAssignment(…)`
abbrev pub close_if_current : AssignmentStatus → Text → Text → Text → Action (Unit {0})
close_if_current AssignmentStatus.current person_id from now =
    close_current_assignment person_id from now
close_if_current _ person_id from now = pure tt

-- The body of the transaction of `createAssignment`; the result is the row of its DTO.
unfoldable pub create_assignment_tx :
    Context → Text → AssignmentCreateRequest → AssignmentStatus → Text → Action AssignmentRow
create_assignment_tx c person_id request status now = do
  found ← gets (find_person_by_id person_id)
  person ← or_throw found (error ErrorCode.not_found none)
  throw_if (not (is_active person.status)) (error ErrorCode.conflict (some person_id))
  assert_report_line person request.reports_to_person_id request.effective_from
  existing ← gets (list_assignments_by_person person_id)
  lift (check_no_overlap existing person_id request status)
  previous ← gets (λ w. effective_assignment_at w.assignments person_id request.effective_from)
  close_if_current status person_id request.effective_from now
  id ← next_id c
  let row = new_assignment id person_id request status now
  insert_assignment row
  record_changes c person_id (creation_changes previous row)
  pure row

unfoldable pub create_assignment : Context → Text → Option Json → Action AssignmentRow
create_assignment c person_id input = do
  request ← lift (validate_assignment_create input)
  now ← read_clock c
  today ← business_date c.today c
  transaction (
      create_assignment_tx c person_id request
        (if text_le request.effective_from today
          then AssignmentStatus.current
          else AssignmentStatus.pending)
        now)

abbrev activation_change : AssignmentRow → AuditChange
activation_change pending = record {
  action = ChangeAction.assignment_change;
  field_name = codes "assignmentStatus";
  old_value = some (codes "pending");
  new_value = some (codes "current");
  effective_from = some pending.effective_from;
  effective_to = none;
}

-- `if (previous !== null && previous.id !== current.id) recordChanges(…)`
unfoldable pub record_activation :
    Context → Option AssignmentRow → AssignmentRow → Action (Unit {0})
record_activation c none pending = pure tt
record_activation c (some previous) pending =
    if previous.id == pending.id
    then pure tt
    else record_changes c pending.person_id (activation_change pending ∷ [])

-- One round of the loop of `applyDueAssignments`.
unfoldable pub activate : Context → Text → AssignmentRow → Action (Unit {0})
activate c now pending = do
  previous ←
      gets (λ w. effective_assignment_at w.assignments pending.person_id pending.effective_from)
  close_current_assignment pending.person_id pending.effective_from now
  update_assignment (record pending { status = AssignmentStatus.current; updated_at = now })
  record_activation c previous pending

unfoldable pub activate_each : Context → Text → List AssignmentRow → Action (Unit {0})
activate_each c now [] = pure tt
activate_each c now (pending ∷ rest) = do activate c now pending; activate_each c now rest

-- The assignments that are due, by their start.
abbrev pub due_assignments : Text → List AssignmentRow → List AssignmentRow
due_assignments as_of assignments =
    sort (λ left right. text_lt right.effective_from left.effective_from)
      (filter (λ a. is_pending a.status && text_le a.effective_from as_of) assignments)

unfoldable pub apply_due_assignments : Context → Text → Action (Unit {0})
apply_due_assignments c as_of = do
  now ← read_clock c
  transaction (do due ← gets (λ w. due_assignments as_of w.assignments); activate_each c now due)

abbrev retraction_change : AssignmentRow → AuditChange
retraction_change row = record {
  action = ChangeAction.assignment_retract;
  field_name = codes "assignmentStatus";
  old_value = some (codes "pending");
  new_value = some (codes "retracted");
  effective_from = some row.effective_from;
  effective_to = none;
}

unfoldable pub retract_assignment_tx : Context → Text → Text → Text → Action AssignmentRow
retract_assignment_tx c person_id assignment_id now = do
  found ← gets (find_assignment_by_id assignment_id)
  row ← or_throw found (error ErrorCode.not_found none)
  throw_if (not (row.person_id == person_id)) (error ErrorCode.not_found none)
  throw_if (not (is_pending row.status)) (error ErrorCode.not_yet_retractable (some assignment_id))
  let retracted = record row { status = AssignmentStatus.retracted; updated_at = now }
  update_assignment retracted
  record_changes c person_id (retraction_change row ∷ [])
  pure retracted

unfoldable pub retract_assignment : Context → Text → Text → Action AssignmentRow
retract_assignment c person_id assignment_id = do
  now ← read_clock c
  transaction (retract_assignment_tx c person_id assignment_id now)
