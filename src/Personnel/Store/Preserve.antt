-- ===== src/Personnel/Store/Preserve.antt =====
-- Every write of src/personnel/domain/store.ts keeps the invariant.
use dsh_backend_team.Base.{
  ◌≡◌, true, false, not, ◌&&◌, List, [], ◌∷◌, ◌++◌, Text, ◌==◌, ==_iff, ==_sym, any, arith, All,
  All-append, All-map, All-map₂, All-of_any-false, Pairs, Pairs-append, replace_first, remove_first,
  Pairs-replace_first, Pairs-remove_first, All-replace_first, All-remove_first,
}
use dsh_backend_team.Personnel.Rows.{PersonRow, AssignmentRow, ChangeRecordRow, is_retracted}
use dsh_backend_team.Personnel.Action.{World}
use dsh_backend_team.Personnel.Store.{
  has_person, same_start, insert_person, insert_assignment, update_person, update_assignment,
  insert_change_record, delete_person,
}
use dsh_backend_team.Personnel.Store.Checks.{
  PersonChecked, AssignmentChecked, ChangeRecordChecked, assert_person_row-PersonChecked,
  assert_assignment_row-AssignmentChecked, assert_change_record_row-ChangeRecordChecked,
}
use dsh_backend_team.Personnel.Store.Outcome.{
  insert_person-Writes, insert_assignment-Writes, update_person-Writes, update_assignment-Writes,
  insert_change_record-Writes, delete_person-Writes, NewPerson, NewAssignment, ChangedPerson,
  ChangedAssignment, NewChangeRecord, Deletable,
}
use dsh_backend_team.Personnel.Store.Invariant.{
  IsValid, other_person, other_assignment, other_record, Writes-IsValid, has_person-append,
  has_person-replace_first, has_person-remove_first,
}

module _ {w : World} (v : IsValid w) where
  with_persons :
      (ps : List PersonRow)
      → All PersonChecked ps
      → Pairs other_person ps
      → All (λ a. has_person a.person_id ps ≡ true) w.assignments
      → IsValid (record w { persons = ps })
  with_persons ps checked distinct known = record {
    persons_checked = checked;
    persons_distinct = distinct;
    assignments_checked = v.assignments_checked;
    assignments_distinct = v.assignments_distinct;
    owners_known = known;
    records_checked = v.records_checked;
    records_distinct = v.records_distinct;
  }

  with_assignments :
      (as' : List AssignmentRow)
      → All AssignmentChecked as'
      → Pairs other_assignment as'
      → All (λ a. has_person a.person_id w.persons ≡ true) as'
      → IsValid (record w { assignments = as' })
  with_assignments as' checked distinct known = record {
    persons_checked = v.persons_checked;
    persons_distinct = v.persons_distinct;
    assignments_checked = checked;
    assignments_distinct = distinct;
    owners_known = known;
    records_checked = v.records_checked;
    records_distinct = v.records_distinct;
  }

  with_records :
      (rs : List ChangeRecordRow)
      → All ChangeRecordChecked rs
      → Pairs other_record rs
      → IsValid (record w { change_records = rs })
  with_records rs checked distinct = record {
    persons_checked = v.persons_checked;
    persons_distinct = v.persons_distinct;
    assignments_checked = v.assignments_checked;
    assignments_distinct = v.assignments_distinct;
    owners_known = v.owners_known;
    records_checked = checked;
    records_distinct = distinct;
  }

pub insert_person-IsValid :
    (row : PersonRow) (w : World) → IsValid w → IsValid (insert_person row w).1
insert_person-IsValid row w v =
    Writes-IsValid (insert_person row w) (insert_person-Writes row w) v (λ (n : NewPerson row w).
      with_persons v (w.persons ++ row ∷ [])
        (All-append PersonChecked w.persons (row ∷ []) v.persons_checked
          (assert_person_row-PersonChecked row n.checked, tt))
        (Pairs-append other_person w.persons row v.persons_distinct (
          All-map₂ (λ p e f. ground arith) w.persons
            (All-of_any-false (λ p. p.employee_no == row.employee_no) w.persons n.employee_no_free)
            (All-of_any-false (λ p. p.id == row.id) w.persons n.id_free)))
        (All-map (λ a h. has_person-append a.person_id w.persons row h) w.assignments
          v.owners_known))

-- The two tests of a new assignment separate it from a stored one.
other_of_tests :
    (a row : AssignmentRow)
    → (a.id == row.id) ≡ false
    → (not (is_retracted row.status) && same_start a row) ≡ false
    → other_assignment a row ≡ true
other_of_tests a row h k = ground arith

other_assignment_sym :
    (a b : AssignmentRow) → other_assignment a b ≡ true → other_assignment b a ≡ true
other_assignment_sym a b h = ground (
  arith,
  ==_sym a.id b.id,
  ==_sym a.person_id b.person_id,
  ==_sym a.effective_from b.effective_from,
)

start_free-All :
    (row : AssignmentRow) (as' : List AssignmentRow)
    → (not (is_retracted row.status) && any (λ a. same_start a row) as') ≡ false
    → All (λ a. (not (is_retracted row.status) && same_start a row) ≡ false) as'
start_free-All row [] h = tt
start_free-All row (a ∷ as') h = ground (arith, start_free-All row as')

pub insert_assignment-IsValid :
    (row : AssignmentRow) (w : World) → IsValid w → IsValid (insert_assignment row w).1
insert_assignment-IsValid row w v =
    Writes-IsValid (insert_assignment row w) (insert_assignment-Writes row w) v
      (λ (n : NewAssignment row w).
        with_assignments v (w.assignments ++ row ∷ [])
          (All-append AssignmentChecked w.assignments (row ∷ []) v.assignments_checked
            (assert_assignment_row-AssignmentChecked row n.checked, tt))
          (Pairs-append other_assignment w.assignments row v.assignments_distinct (
            All-map₂ (λ a e f. other_of_tests a row e f) w.assignments
              (All-of_any-false (λ a. a.id == row.id) w.assignments n.id_free)
              (start_free-All row w.assignments n.start_free)))
          (All-append (λ a. has_person a.person_id w.persons ≡ true) w.assignments (row ∷ [])
            v.owners_known (n.person_known, tt)))

pub update_person-IsValid :
    (row : PersonRow) (w : World) → IsValid w → IsValid (update_person row w).1
update_person-IsValid row w v =
    Writes-IsValid (update_person row w) (update_person-Writes row w) v
      (λ (n : ChangedPerson row w).
        let free =
          All-of_any-false (λ p. not (p.id == row.id) && (p.employee_no == row.employee_no))
            w.persons n.employee_no_free in
        with_persons v (replace_first (λ p. p.id == row.id) row w.persons)
          (All-replace_first PersonChecked (λ p. p.id == row.id) row w.persons v.persons_checked
            (assert_person_row-PersonChecked row n.checked))
          (Pairs-replace_first other_person (λ p. p.id == row.id) row
            (λ p q e f. ground (arith, ==_iff p.id row.id, ==_iff q.id row.id, ==_iff p.id q.id))
            w.persons (All-map (λ p e f. ground arith) w.persons free)
            (All-map
              (λ p e f. ground (arith, ==_sym p.id row.id, ==_sym p.employee_no row.employee_no))
              w.persons free)
            v.persons_distinct)
          (All-map (λ a h. has_person-replace_first a.person_id w.persons row h) w.assignments
            v.owners_known))

pub update_assignment-IsValid :
    (row : AssignmentRow) (w : World) → IsValid w → IsValid (update_assignment row w).1
update_assignment-IsValid row w v =
    Writes-IsValid (update_assignment row w) (update_assignment-Writes row w) v
      (λ (n : ChangedAssignment row w).
        let free =
          All-of_any-false
            (λ a. not (a.id == row.id) && not (is_retracted row.status) && same_start a row)
            w.assignments n.start_free in
        with_assignments v (replace_first (λ a. a.id == row.id) row w.assignments)
          (All-replace_first AssignmentChecked (λ a. a.id == row.id) row w.assignments
            v.assignments_checked (assert_assignment_row-AssignmentChecked row n.checked))
          (Pairs-replace_first other_assignment (λ a. a.id == row.id) row
            (λ a b e f. ground (arith, ==_iff a.id row.id, ==_iff b.id row.id, ==_iff a.id b.id))
            w.assignments
            (All-map (λ a e f. other_of_tests a row f (ground arith)) w.assignments free)
            (All-map (λ a e f. other_assignment_sym a row (other_of_tests a row f (ground arith)))
              w.assignments free)
            v.assignments_distinct)
          (All-replace_first (λ a. has_person a.person_id w.persons ≡ true) (λ a. a.id == row.id)
            row w.assignments v.owners_known n.person_known))

pub insert_change_record-IsValid :
    (row : ChangeRecordRow) (w : World) → IsValid w → IsValid (insert_change_record row w).1
insert_change_record-IsValid row w v =
    Writes-IsValid (insert_change_record row w) (insert_change_record-Writes row w) v
      (λ (n : NewChangeRecord row w).
        with_records v (w.change_records ++ row ∷ [])
          (All-append ChangeRecordChecked w.change_records (row ∷ []) v.records_checked
            (assert_change_record_row-ChangeRecordChecked row n.checked, tt))
          (Pairs-append other_record w.change_records row v.records_distinct (
            All-map (λ r e. ground arith) w.change_records
              (All-of_any-false (λ r. r.id == row.id) w.change_records n.id_free))))

pub delete_person-IsValid : (id : Text) (w : World) → IsValid w → IsValid (delete_person id w).1
delete_person-IsValid id w v =
    Writes-IsValid (delete_person id w) (delete_person-Writes id w) v (λ (n : Deletable id w).
      with_persons v (remove_first (λ p. p.id == id) w.persons)
        (All-remove_first PersonChecked (λ p. p.id == id) w.persons v.persons_checked)
        (Pairs-remove_first other_person (λ p. p.id == id) w.persons v.persons_distinct)
        (All-map₂ (λ a e h. has_person-remove_first a.person_id id w.persons e h) w.assignments
          (All-of_any-false (λ a. a.person_id == id) w.assignments n.unassigned) v.owners_known))
