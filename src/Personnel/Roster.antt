-- ===== src/Personnel/Roster.antt =====
-- The roster of src/personnel/domain/roster.ts. `lower` is `toLocaleLowerCase`; the query's date is
-- given, as the caller or the clock gives it.
use dsh_backend_team.Base.{
  ℕ, Bool, true, false, not, ◌&&◌, Option, none, some, List, Text, trim, includes, filter, map,
  is_some,
}
use dsh_backend_team.Personnel.Rows.{
  PersonRow, PersonStatus, draft, active, inactive, AssignmentRow, ErrorCode, is_active,
}
use dsh_backend_team.Personnel.Action.{
  World, Action, pure, gets, or_throw, lift, ◌>>=◌, ◌>>◌, error,
}
use dsh_backend_team.Personnel.Store.{find_person_by_id}
use dsh_backend_team.Personnel.Effective.{effective_assignment_at}
use dsh_backend_team.Personnel.Lifecycle.{Page, page_of, check_page}

pub record RosterQuery : Type 0 where
  pub name : Option Text
  pub employee_no : Option Text
  pub department_id : Option Text
  pub status : PersonStatus
  pub page : ℕ
  pub page_size : ℕ
  pub as_of : Text

abbrev pub same_status : PersonStatus → PersonStatus → Bool
same_status draft draft = true
same_status active active = true
same_status inactive inactive = true
same_status _ _ = false

-- A person with the assignment that counts.
pub record Entry : Type 0 where
  pub person : PersonRow
  pub assignment : Option AssignmentRow

abbrev pub department_of : Option AssignmentRow → Option Text
department_of none = none
department_of (some a) = some a.department_id

abbrev entry_of : List AssignmentRow → Text → PersonRow → Entry
entry_of assignments as_of person = record {
  person = person;
  assignment = effective_assignment_at assignments person.id as_of;
}

module _ (lower : Text → Text) where
  -- A missing needle fits all; a missing text fits no needle.
  abbrev pub fits : Option Text → Option Text → Bool
  fits none text = true
  fits (some needle) none = false
  fits (some needle) (some text) = includes (lower text) (lower (trim needle))

  -- The second filter of `listPersons`.
  unfoldable pub is_listed : RosterQuery → Entry → Bool
  is_listed q e =
      not (is_active q.status && not (is_some e.assignment))
      && fits q.name (some e.person.full_name)
      && fits q.employee_no (some e.person.employee_no)
      && fits q.department_id (department_of e.assignment)

  -- The persons that the query selects, with their assignments.
  unfoldable pub selected : RosterQuery → World → List Entry
  selected q w =
      filter (is_listed q) (
        map (entry_of w.assignments q.as_of)
          (filter (λ p. same_status p.status q.status) w.persons))

  -- `listPersons`
  unfoldable pub list_persons : RosterQuery → Action (Page Entry)
  list_persons q = do
    lift (check_page q.page q.page_size)
    entries ← gets (selected q)
    pure (page_of entries q.page q.page_size)

-- `listAssignablePersons`
unfoldable pub list_assignable_persons : Text → World → List Entry
list_assignable_persons as_of w =
    filter (λ e. is_some e.assignment)
      (map (entry_of w.assignments as_of) (filter (λ p. is_active p.status) w.persons))

-- `getPerson`
unfoldable pub get_person : Text → Text → Action Entry
get_person person_id as_of = do
  found ← gets (find_person_by_id person_id)
  person ← or_throw found (error ErrorCode.not_found none)
  gets (λ w. record {
    person = person;
    assignment = effective_assignment_at w.assignments person_id as_of;
  })
