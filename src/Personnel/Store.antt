-- ===== src/Personnel/Store.antt =====
-- `InMemoryPersonnelStore` of src/personnel/domain/store.ts: the checks that mirror the database's
-- constraints, and the operations on the three tables.
pub mod Checks
pub mod Outcome
pub mod Invariant
pub mod Preserve
use dsh_backend_team.Base.{
  ℕ, Bool, true, false, not, ◌&&◌, ◌||◌, Option, none, some, List, [], ◌∷◌, ◌++◌, Text, ◌==◌,
  text_lt, ltb, length, any, filter, find, if◌then◌else◌, nat_eq, replace_first, remove_first,
}
use dsh_backend_team.Personnel.Rows.{
  PersonRow, AssignmentRow, ChangeRecordRow, ErrorCode, is_inactive, is_retracted, is_pending,
  is_current,
}
use dsh_backend_team.Personnel.Action.{
  World, Result, ok, err, Action, lift, ◌>>◌, modify, throw_if, guard, error, constraint_failed,
}

abbrev pub is_empty : Text → Bool
is_empty t = nat_eq (length t) 0

-- `t !== null && length(t) > max`
abbrev pub too_long : ℕ → Option Text → Bool
too_long max none = false
too_long max (some t) = ltb max (length t)

-- `end !== null && end < start`
abbrev pub ends_before : Option Text → Text → Bool
ends_before none start = false
ends_before (some end) start = text_lt end start

-- `t === null || t === ''`
abbrev pub null_or_empty : Option Text → Bool
null_or_empty none = true
null_or_empty (some t) = is_empty t

-- `t !== null && t === id`
abbrev pub refers_to : Option Text → Text → Bool
refers_to none id = false
refers_to (some t) id = t == id

-- The two tests of an enumeration hold of every value of the row's type.
unfoldable pub assert_person_row : PersonRow → Result (Unit {0})
assert_person_row row = guard (is_empty row.id) (constraint_failed none) (
    guard (ltb (length row.employee_no) 1 || ltb 32 (length row.employee_no))
      (constraint_failed none)
      (guard (ltb (length row.full_name) 1 || ltb 64 (length row.full_name))
        (constraint_failed none)
        (guard (too_long 32 row.mobile) (constraint_failed none) (
          guard (ends_before row.employment_end_date row.employment_start_date)
            (constraint_failed none)
            (guard (is_inactive row.status && null_or_empty row.deactivation_reason)
              (constraint_failed none)
              (guard (too_long 200 row.deactivation_reason) (constraint_failed none) (ok tt)))))))

unfoldable pub assert_assignment_row : AssignmentRow → Result (Unit {0})
assert_assignment_row row = guard (is_empty row.id) (constraint_failed none) (
    guard (ltb (length row.department_id) 1 || ltb 64 (length row.department_id))
      (constraint_failed none)
      (guard (is_empty row.department_name) (constraint_failed none) (
        guard (is_empty row.position_name) (constraint_failed none) (
          guard (ends_before row.effective_to row.effective_from) (constraint_failed none) (
            guard (refers_to row.reports_to_person_id row.person_id) (constraint_failed none)
              (ok tt))))))

unfoldable pub assert_change_record_row : ChangeRecordRow → Result (Unit {0})
assert_change_record_row row =
    guard
      (is_empty row.id
        || is_empty row.person_id
        || is_empty row.field_name
        || is_empty row.operator_id)
      (constraint_failed none) (ok tt)

-- `persons.some((p) => p.id === id)`
abbrev pub has_person : Text → List PersonRow → Bool
has_person id = any (λ p. p.id == id)

-- The foreign key of a nullable column.
abbrev pub dangles : Option Text → List PersonRow → Bool
dangles none ps = false
dangles (some id) ps = not (has_person id ps)

abbrev pub or_empty : Option Text → Text
or_empty none = []
or_empty (some t) = t

unfoldable pub insert_person : PersonRow → Action (Unit {0})
unfolding ◌>>◌ lift throw_if modify
insert_person row w =
    (lift (assert_person_row row)
        >> throw_if (any (λ p. p.employee_no == row.employee_no) w.persons)
            (error ErrorCode.duplicate_employee_no (some row.employee_no))
        >> throw_if (has_person row.id w.persons) (constraint_failed (some row.id))
        >> modify (λ w'. record w' { persons = w'.persons ++ row ∷ [] }))
      w

-- Two assignments that the partial unique index does not admit together.
abbrev pub same_start : AssignmentRow → AssignmentRow → Bool
same_start a row =
    not (is_retracted a.status)
    && (a.person_id == row.person_id)
    && (a.effective_from == row.effective_from)

abbrev is_open : Option Text → Bool
is_open none = true
is_open (some _) = false

-- `end === null || t < end`
abbrev pub before_end : Text → Option Text → Bool
before_end t none = true
before_end t (some end) = text_lt t end

-- The store's test of two intervals, as `insertAssignment` writes it: for a row with an end, an
-- assignment without one is never in the way.
unfoldable pub overlaps_stored : AssignmentRow → AssignmentRow → Bool
overlaps_stored row a =
    not (is_retracted a.status)
    && (a.person_id == row.person_id)
    && not (
        is_pending row.status
        && is_current a.status
        && is_open a.effective_to
        && text_lt a.effective_from row.effective_from)
    && before_end row.effective_from a.effective_to
    && (is_open row.effective_to
        || not (is_open a.effective_to) && before_end a.effective_from row.effective_to)

-- `throw` where a search found a row.
abbrev throw_found : Option AssignmentRow → Action (Unit {0})
throw_found none w = (ok tt, w)
throw_found (some a) w = (err (error ErrorCode.overlapping_assignment (some a.id)), w)

unfoldable pub insert_assignment : AssignmentRow → Action (Unit {0})
unfolding ◌>>◌ lift throw_if modify
insert_assignment row w =
    (lift (assert_assignment_row row)
        >> throw_if (not (has_person row.person_id w.persons))
            (constraint_failed (some row.person_id))
        >> throw_if (dangles row.reports_to_person_id w.persons)
            (constraint_failed row.reports_to_person_id)
        >> throw_if (any (λ a. a.id == row.id) w.assignments) (constraint_failed (some row.id))
        >> throw_if (not (is_retracted row.status) && any (λ a. same_start a row) w.assignments)
            (constraint_failed (some row.person_id))
        >> throw_found
            (if is_retracted row.status then none else find (overlaps_stored row) w.assignments)
        >> modify (λ w'. record w' { assignments = w'.assignments ++ row ∷ [] }))
      w

unfoldable pub update_person : PersonRow → Action (Unit {0})
unfolding ◌>>◌ lift throw_if modify
update_person row w =
    (lift (assert_person_row row)
        >> throw_if (not (has_person row.id w.persons)) (error ErrorCode.not_found none)
        >> throw_if
            (any (λ p. not (p.id == row.id) && (p.employee_no == row.employee_no)) w.persons)
            (error ErrorCode.duplicate_employee_no (some row.employee_no))
        >> modify
            (λ w'. record w' { persons = replace_first (λ p. p.id == row.id) row w'.persons }))
      w

unfoldable pub update_assignment : AssignmentRow → Action (Unit {0})
unfolding ◌>>◌ lift throw_if modify
update_assignment row w =
    (lift (assert_assignment_row row)
        >> throw_if (not (any (λ a. a.id == row.id) w.assignments)) (error ErrorCode.not_found none)
        >> throw_if (not (has_person row.person_id w.persons))
            (constraint_failed (some row.person_id))
        >> throw_if (dangles row.reports_to_person_id w.persons)
            (constraint_failed row.reports_to_person_id)
        >> throw_if
            (any (λ a. not (a.id == row.id) && not (is_retracted row.status) && same_start a row)
              w.assignments)
            (constraint_failed (some row.person_id))
        >> modify (λ w'. record w' {
          assignments = replace_first (λ a. a.id == row.id) row w'.assignments;
        }))
      w

unfoldable pub insert_change_record : ChangeRecordRow → Action (Unit {0})
unfolding ◌>>◌ lift throw_if modify
insert_change_record row w =
    (lift (assert_change_record_row row)
        >> throw_if (any (λ r. r.id == row.id) w.change_records) (constraint_failed (some row.id))
        >> throw_if (not (has_person row.person_id w.persons))
            (constraint_failed (some row.person_id))
        >> modify (λ w'. record w' { change_records = w'.change_records ++ row ∷ [] }))
      w

unfoldable pub delete_person : Text → Action (Unit {0})
unfolding ◌>>◌ lift throw_if modify
delete_person id w =
    (throw_if (any (λ a. a.person_id == id) w.assignments)
          (error ErrorCode.referenced_by_business (some id))
        >> throw_if (not (has_person id w.persons)) (error ErrorCode.not_found none)
        >> modify (λ w'. record w' { persons = remove_first (λ p. p.id == id) w'.persons }))
      w

abbrev pub find_person_by_id : Text → World → Option PersonRow
find_person_by_id id w = find (λ p. p.id == id) w.persons

abbrev pub find_person_by_employee_no : Text → World → Option PersonRow
find_person_by_employee_no no' w = find (λ p. p.employee_no == no') w.persons

abbrev pub find_assignment_by_id : Text → World → Option AssignmentRow
find_assignment_by_id id w = find (λ a. a.id == id) w.assignments

abbrev pub list_assignments_by_person : Text → World → List AssignmentRow
list_assignments_by_person id w = filter (λ a. a.person_id == id) w.assignments

abbrev pub list_change_records : Text → World → List ChangeRecordRow
list_change_records id w = filter (λ r. r.person_id == id) w.change_records
