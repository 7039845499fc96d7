-- ===== src/Personnel/Store/Outcome.antt =====
-- What each write of the store does, by how it ends: it throws and changes nothing, or it makes
-- one change, and then its tests passed. The callers see the writes through these lemmas.
use dsh_backend_team.Base.{
  ◌≡◌, true, false, not, ◌&&◌, none, [], ◌∷◌, ◌++◌, Text, ◌==◌, any, find, if◌then◌else◌, arith,
  replace_first, remove_first,
}
use dsh_backend_team.Personnel.Rows.{PersonRow, AssignmentRow, ChangeRecordRow, is_retracted}
use dsh_backend_team.Personnel.Action.{World, Result, ok, err}
use dsh_backend_team.Personnel.Store.{
  assert_person_row, assert_assignment_row, assert_change_record_row, has_person, dangles,
  same_start, overlaps_stored, insert_person, insert_assignment, update_person, update_assignment,
  insert_change_record, delete_person,
}

-- A write from `w`: a throw leaves `w`; a return reaches `w'`, and `P` held.
abbrev pub Writes : World → World → Type 0 → Result (Unit {0}) × World → Type 0
Writes w target P (ok _, w') = (w' ≡ target) × P
Writes w target P (err _, w') = w' ≡ w

pub record NewPerson (row : PersonRow) (w : World) : Type 0 where
  pub checked : assert_person_row row ≡ ok tt
  pub employee_no_free : any (λ p. p.employee_no == row.employee_no) w.persons ≡ false
  pub id_free : has_person row.id w.persons ≡ false

pub insert_person-Writes :
    (row : PersonRow) (w : World)
    → Writes w
        (record w { persons = w.persons ++ row ∷ [] })
        (NewPerson row w)
        (insert_person row w)
unfolding insert_person
insert_person-Writes row w = ground arith

pub record NewAssignment (row : AssignmentRow) (w : World) : Type 0 where
  pub checked : assert_assignment_row row ≡ ok tt
  pub person_known : has_person row.person_id w.persons ≡ true
  pub manager_known : dangles row.reports_to_person_id w.persons ≡ false
  pub id_free : any (λ a. a.id == row.id) w.assignments ≡ false
  pub start_free :
      (not (is_retracted row.status) && any (λ a. same_start a row) w.assignments) ≡ false
  pub apart :
      (if is_retracted row.status then none else find (overlaps_stored row) w.assignments) ≡ none

pub insert_assignment-Writes :
    (row : AssignmentRow) (w : World)
    → Writes w
        (record w { assignments = w.assignments ++ row ∷ [] })
        (NewAssignment row w)
        (insert_assignment row w)
unfolding insert_assignment
insert_assignment-Writes row w = ground arith

pub record ChangedPerson (row : PersonRow) (w : World) : Type 0 where
  pub checked : assert_person_row row ≡ ok tt
  pub person_known : has_person row.id w.persons ≡ true
  pub employee_no_free :
      any (λ p. not (p.id == row.id) && (p.employee_no == row.employee_no)) w.persons ≡ false

pub update_person-Writes :
    (row : PersonRow) (w : World)
    → Writes w
        (record w { persons = replace_first (λ p. p.id == row.id) row w.persons })
        (ChangedPerson row w)
        (update_person row w)
unfolding update_person
update_person-Writes row w = ground arith

pub record ChangedAssignment (row : AssignmentRow) (w : World) : Type 0 where
  pub checked : assert_assignment_row row ≡ ok tt
  pub assignment_known : any (λ a. a.id == row.id) w.assignments ≡ true
  pub person_known : has_person row.person_id w.persons ≡ true
  pub manager_known : dangles row.reports_to_person_id w.persons ≡ false
  pub start_free :
      any
        (λ a. not (a.id == row.id) && not (is_retracted row.status) && same_start a row)
        w.assignments
      ≡ false

pub update_assignment-Writes :
    (row : AssignmentRow) (w : World)
    → Writes w
        (record w { assignments = replace_first (λ a. a.id == row.id) row w.assignments })
        (ChangedAssignment row w)
        (update_assignment row w)
unfolding update_assignment
update_assignment-Writes row w = ground arith

pub record NewChangeRecord (row : ChangeRecordRow) (w : World) : Type 0 where
  pub checked : assert_change_record_row row ≡ ok tt
  pub id_free : any (λ r. r.id == row.id) w.change_records ≡ false
  pub person_known : has_person row.person_id w.persons ≡ true

pub insert_change_record-Writes :
    (row : ChangeRecordRow) (w : World)
    → Writes w
        (record w { change_records = w.change_records ++ row ∷ [] })
        (NewChangeRecord row w)
        (insert_change_record row w)
unfolding insert_change_record
insert_change_record-Writes row w = ground arith

pub record Deletable (id : Text) (w : World) : Type 0 where
  pub unassigned : any (λ a. a.person_id == id) w.assignments ≡ false
  pub person_known : has_person id w.persons ≡ true

pub delete_person-Writes :
    (id : Text) (w : World)
    → Writes w
        (record w { persons = remove_first (λ p. p.id == id) w.persons })
        (Deletable id w)
        (delete_person id w)
unfolding delete_person
delete_person-Writes id w = ground arith
