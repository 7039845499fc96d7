-- ===== src/Personnel/Lifecycle.antt =====
-- The history and the deletion of a person, of src/personnel/domain/lifecycle.ts, and the checks
-- of an employee number of employee-no.ts. Page numbers are natural numbers: the test for whole
-- numbers always holds of them.
use dsh_backend_team.Base.{
  ℕ, ◌-◌, ◌*◌, Bool, true, false, not, ◌&&◌, ◌||◌, Option, none, some, List, [], ◌∷◌, Text, codes,
  text_lt, length, ltb, find, take, drop, sort, is_some, if◌then◌else◌,
}
use dsh_backend_team.Personnel.Rows.{
  PersonRow, PersonStatus, AssignmentRow, ChangeRecordRow, ChangeAction, ErrorCode, is_current,
}
use dsh_backend_team.Personnel.Action.{
  World, Context, Result, ok, err, Action, pure, throw, gets, or_throw, lift, ◌>>=◌, ◌>>◌, throw_if,
  error, invalid, transaction,
}
use dsh_backend_team.Personnel.Store.{
  find_person_by_id, find_person_by_employee_no, list_assignments_by_person, list_change_records,
  delete_person,
}
use dsh_backend_team.Personnel.Audit.{AuditChange, record_changes}

-- A page of a list, with how many items there are in all.
pub record Page {ℓ} (A : Type ℓ) : Type ℓ where
  pub items : List A
  pub page : ℕ
  pub page_size : ℕ
  pub total : ℕ

-- `items.slice(start, start + pageSize)` at `start = (page - 1) * pageSize`
unfoldable pub page_of {ℓ} : {A : Type ℓ} → List A → ℕ → ℕ → Page A
page_of items page size = record {
  items = take size (drop ((page - 1) * size) items);
  page = page;
  page_size = size;
  total = length items;
}

-- `pageArgs`, and `assertPagination` of roster.ts
unfoldable pub check_page : ℕ → ℕ → Result (Unit {0})
check_page page size =
    if ltb page 1 || ltb size 1 || ltb 200 size
    then err (invalid (codes "page" ∷ codes "pageSize" ∷ []))
    else ok tt

-- Later records first, and of one moment those with the greater identifier. The order of
-- identifiers, `localeCompare`, is a parameter: whether one comes before another.
abbrev pub logged_earlier : (Text → Text → Bool) → ChangeRecordRow → ChangeRecordRow → Bool
logged_earlier before left right =
    text_lt left.occurred_at right.occurred_at
    || not (text_lt right.occurred_at left.occurred_at) && before left.id right.id

unfoldable pub list_person_history :
    (Text → Text → Bool) → Text → ℕ → ℕ → Action (Page ChangeRecordRow)
list_person_history before person_id page size = do
  found ← gets (find_person_by_id person_id)
  throw_if (not (is_some found)) (error ErrorCode.not_found none)
  lift (check_page page size)
  records ← gets (list_change_records person_id)
  pure (page_of (sort (logged_earlier before) records) page size)

abbrev status_text : PersonStatus → Text
status_text PersonStatus.draft = codes "draft"
status_text PersonStatus.active = codes "active"
status_text PersonStatus.inactive = codes "inactive"

abbrev attempt : PersonRow → AuditChange
attempt person = record {
  action = ChangeAction.delete_attempt;
  field_name = codes "person";
  old_value = some (status_text person.status);
  new_value = none;
  effective_from = none;
  effective_to = none;
}

abbrev pub has_any {ℓ} : {A : Type ℓ} → List A → Bool
has_any [] = false
has_any (x ∷ xs) = true

-- What a referenced person's deletion does: it is logged outside any transaction, and refused.
abbrev pub delete_unless : Context → Text → PersonRow → Bool → Action (Unit {0})
delete_unless c person_id person true =
    record_changes c person_id (attempt person ∷ [])
    >> throw (error ErrorCode.referenced_by_business (some person_id))
delete_unless c person_id person false = transaction (delete_person person_id)

-- `deletePerson` of lifecycle.ts; `authorized` and `is_referenced` are what the host injects.
unfoldable pub remove_person : Context → Bool → (Text → Bool) → Text → Action (Unit {0})
remove_person c authorized is_referenced person_id = do
  throw_if (not authorized) (error ErrorCode.forbidden none)
  found ← gets (find_person_by_id person_id)
  person ← or_throw found (error ErrorCode.not_found none)
  assignments ← gets (list_assignments_by_person person_id)
  delete_unless c person_id person (is_referenced person_id || has_any assignments)

-- `getLifecycleDetail`
unfoldable pub get_lifecycle_detail : Text → Action (PersonRow × Option AssignmentRow)
get_lifecycle_detail person_id = do
  found ← gets (find_person_by_id person_id)
  person ← or_throw found (error ErrorCode.not_found none)
  current ← gets (λ w. find (λ a. is_current a.status) (list_assignments_by_person person_id w))
  pure (person, current)

-- `assertEmployeeNoAvailable`
unfoldable pub assert_employee_no_available : Text → Action (Unit {0})
assert_employee_no_available employee_no = do
  existing ← gets (find_person_by_employee_no employee_no)
  throw_if (is_some existing) (error ErrorCode.duplicate_employee_no (some employee_no))

-- `employeeNoCanBeReused`
unfoldable pub employee_no_can_be_reused : Text → World → Bool
employee_no_can_be_reused employee_no w = not (is_some (find_person_by_employee_no employee_no w))
