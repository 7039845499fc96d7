-- ===== src/Personnel/Service.antt =====
-- `createPerson` and `updatePerson` of src/personnel/domain/service.ts.
use dsh_backend_team.Base.{
  Bool, true, false, Option, none, some, List, [], ◌∷◌, Text, codes, ◌==◌, filter, sort, head?,
  if◌then◌else◌, concat,
}
use dsh_backend_team.Personnel.Rows.{
  PersonRow, PersonStatus, EmploymentType, AssignmentRow, AssignmentStatus, ChangeAction, ErrorCode,
  is_current,
}
use dsh_backend_team.Personnel.Action.{
  World, Context, Action, pure, gets, or_throw, lift, ◌>>=◌, ◌>>◌, throw_if, error, invalid,
  next_id, read_clock, transaction,
}
use dsh_backend_team.Personnel.Store.{
  ends_before, find_person_by_id, list_assignments_by_person, insert_person, insert_assignment,
  update_person,
}
use dsh_backend_team.Json.{Json}
use dsh_backend_team.Personnel.Audit.{AuditChange, record_service_changes}
use dsh_backend_team.Personnel.Effective.{starts_earlier}
use dsh_backend_team.Personnel.PersonInput.{
  Given, undefined, null, text, ContactInfo, PersonCreateRequest, validate_person_create,
}
use dsh_backend_team.Personnel.PersonInput.Update.{PersonUpdateRequest, parse_person_update}

-- `value ?? null` of a contact field
abbrev given_or_null : Given → Option Text
given_or_null (text t) = some t
given_or_null _ = none

abbrev contact_mobile : Option ContactInfo → Option Text
contact_mobile none = none
contact_mobile (some c) = given_or_null c.mobile

abbrev contact_email : Option ContactInfo → Option Text
contact_email none = none
contact_email (some c) = given_or_null c.email

abbrev pub new_person : Text → PersonCreateRequest → Text → PersonRow
new_person id request now = record {
  id = id;
  employee_no = request.employee_no;
  full_name = request.full_name;
  mobile = contact_mobile request.contact;
  email = contact_email request.contact;
  employment_type = request.employment_type;
  employment_start_date = request.employment_start_date;
  employment_end_date = request.employment_end_date;
  status = PersonStatus.active;
  deactivated_on = none;
  deactivation_reason = none;
  created_at = now;
  updated_at = now;
}

abbrev pub first_assignment : Text → Text → PersonCreateRequest → Text → AssignmentRow
first_assignment id person_id request now = record {
  id = id;
  person_id = person_id;
  department_id = request.department_id;
  department_name = request.department_name;
  position_id = request.position_id;
  position_name = request.position_name;
  reports_to_person_id = request.reports_to_person_id;
  effective_from = request.effective_from;
  effective_to = none;
  status = AssignmentStatus.current;
  created_at = now;
  updated_at = now;
}

abbrev logged : ChangeAction → Text → Option Text → Option Text → Option Text → AuditChange
logged action field old new from = record {
  action = action;
  field_name = field;
  old_value = old;
  new_value = new;
  effective_from = from;
  effective_to = none;
}

abbrev person_changes : AssignmentRow → List AuditChange
person_changes a =
    logged ChangeAction.create (codes "person") none (some (codes "active")) none
    ∷ logged ChangeAction.assignment_change (codes "departmentId") none (some a.department_id)
        (some a.effective_from)
    ∷ logged ChangeAction.assignment_change (codes "departmentName") none (some a.department_name)
        (some a.effective_from)
    ∷ logged ChangeAction.assignment_change (codes "positionId") none a.position_id
        (some a.effective_from)
    ∷ logged ChangeAction.assignment_change (codes "positionName") none (some a.position_name)
        (some a.effective_from)
    ∷ logged ChangeAction.assignment_change (codes "reportsToPersonId") none a.reports_to_person_id
        (some a.effective_from)
    ∷ []

-- The rows of a `PersonDetail`; the contract's fields are those of the rows, renamed.
pub record PersonDetail : Type 0 where
  pub person : PersonRow
  pub current_assignment : Option AssignmentRow

unfoldable pub create_person_tx : Context → PersonCreateRequest → Text → Action PersonDetail
create_person_tx c request now = do
  id ← next_id c
  let person = new_person id request now
  insert_person person
  assignment_id ← next_id c
  let assignment = first_assignment assignment_id id request now
  insert_assignment assignment
  record_service_changes c id (person_changes assignment)
  pure (record { person = person; current_assignment = some assignment })

unfoldable pub create_person : Context → Option Json → Action PersonDetail
create_person c input = do
  request ← lift (validate_person_create input)
  now ← read_clock c
  transaction (create_person_tx c request now)

-- `request.contact === undefined || request.contact.f === undefined ? old : request.contact.f`
abbrev updated : Given → Option Text → Option Text
updated undefined old = old
updated null old = none
updated (text t) old = some t

abbrev contact_of : Option ContactInfo → ContactInfo
contact_of none = record { mobile = undefined; email = undefined }
contact_of (some c) = c

abbrev or_old {ℓ} : {A : Type ℓ} → Option A → A → A
or_old none old = old
or_old (some a) old = a

abbrev pub changed_person : PersonRow → PersonUpdateRequest → Text → PersonRow
changed_person person request now = record person {
  full_name = or_old request.full_name person.full_name;
  mobile = updated (contact_of request.contact).mobile person.mobile;
  email = updated (contact_of request.contact).email person.email;
  employment_type = or_old request.employment_type person.employment_type;
  employment_start_date = or_old request.employment_start_date person.employment_start_date;
  employment_end_date = updated request.employment_end_date person.employment_end_date;
  updated_at = now;
}

abbrev same_option : Option Text → Option Text → Bool
same_option none none = true
same_option (some a) (some b) = a == b
same_option _ _ = false

abbrev type_text : EmploymentType → Text
type_text EmploymentType.full_time = codes "full_time"
type_text EmploymentType.part_time = codes "part_time"
type_text EmploymentType.contract = codes "contract"
type_text EmploymentType.intern = codes "intern"
type_text EmploymentType.other = codes "other"

-- `if (old !== new) changes.push(…)`
abbrev change_of : Text → Option Text → Option Text → List AuditChange
change_of field old new =
    if same_option old new then [] else logged ChangeAction.update field old new none ∷ []

abbrev update_changes : PersonRow → PersonRow → List AuditChange
update_changes old new = concat (
    change_of (codes "fullName") (some old.full_name) (some new.full_name)
    ∷ change_of (codes "contact.mobile") old.mobile new.mobile
    ∷ change_of (codes "contact.email") old.email new.email
    ∷ change_of (codes "employmentType") (some (type_text old.employment_type))
        (some (type_text new.employment_type))
    ∷ change_of (codes "employmentStartDate") (some old.employment_start_date)
        (some new.employment_start_date)
    ∷ change_of (codes "employmentEndDate") old.employment_end_date new.employment_end_date
    ∷ [])

-- `currentAssignment` of service.ts
abbrev latest_current : Text → World → Option AssignmentRow
latest_current person_id w = head? (
    sort starts_earlier
      (filter (λ a. is_current a.status) (list_assignments_by_person person_id w)))

unfoldable pub update_person_tx : Context → Text → PersonUpdateRequest → Text → Action PersonDetail
update_person_tx c person_id request now = do
  found ← gets (find_person_by_id person_id)
  person ← or_throw found (error ErrorCode.not_found none)
  let next = changed_person person request now
  throw_if (ends_before next.employment_end_date next.employment_start_date)
      (invalid (codes "employmentEndDate" ∷ []))
  update_person next
  record_service_changes c person_id (update_changes person next)
  current ← gets (latest_current person_id)
  pure (record { person = next; current_assignment = current })

-- `updatePerson`
unfoldable pub change_person : Context → Text → Option Json → Action PersonDetail
change_person c person_id input = do
  request ← lift (parse_person_update input)
  now ← read_clock c
  transaction (update_person_tx c person_id request now)
