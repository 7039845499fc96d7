-- ===== src/Personnel/Store/Invariant.antt =====
-- The well-formedness of the three tables of src/personnel/domain/store.ts: the keys and checks
-- that the migrations declare. That a manager or an audited person still exists is not part of
-- it: `delete_person` may remove them.
use dsh_backend_team.Base.{
  ◌≡◌, Bool, true, false, not, ◌&&◌, ◌||◌, List, [], ◌∷◌, ◌++◌, Text, ◌==◌, ==_iff, arith, All,
  Pairs, replace_first, remove_first, sym,
}
use mathlib.Core.Path.{subst}
use dsh_backend_team.Personnel.Rows.{PersonRow, AssignmentRow, ChangeRecordRow, is_retracted}
use dsh_backend_team.Personnel.Action.{World, Result, ok, err}
use dsh_backend_team.Personnel.Store.{has_person}
use dsh_backend_team.Personnel.Store.Checks.{PersonChecked, AssignmentChecked, ChangeRecordChecked}
use dsh_backend_team.Personnel.Store.Outcome.{Writes}

-- Two persons with different identifiers and employee numbers.
abbrev pub other_person : PersonRow → PersonRow → Bool
other_person p q = not (p.id == q.id) && not (p.employee_no == q.employee_no)

-- Two assignments with different identifiers, which do not both count from one date of one person.
abbrev pub other_assignment : AssignmentRow → AssignmentRow → Bool
other_assignment a b =
    not (a.id == b.id)
    && (is_retracted a.status
        || is_retracted b.status
        || not (a.person_id == b.person_id && a.effective_from == b.effective_from))

abbrev pub other_record : ChangeRecordRow → ChangeRecordRow → Bool
other_record r s = not (r.id == s.id)

pub record IsValid (w : World) : Type 0 where
  pub persons_checked : All PersonChecked w.persons
  pub persons_distinct : Pairs other_person w.persons
  pub assignments_checked : All AssignmentChecked w.assignments
  pub assignments_distinct : Pairs other_assignment w.assignments
  pub owners_known : All (λ a. has_person a.person_id w.persons ≡ true) w.assignments
  pub records_checked : All ChangeRecordChecked w.change_records
  pub records_distinct : Pairs other_record w.change_records

-- A write keeps the invariant, if the change that it makes does.
pub Writes-IsValid :
    {w target : World} {P : Type 0} (o : Result (Unit {0}) × World)
    → Writes w target P o
    → IsValid w
    → (P → IsValid target)
    → IsValid o.1
Writes-IsValid (ok _, w') h v k = subst IsValid (sym h.0) (k h.1)
Writes-IsValid (err _, w') h v k = subst IsValid (sym h) v

pub has_person-append :
    (i : Text) (ps : List PersonRow) (row : PersonRow)
    → has_person i ps ≡ true
    → has_person i (ps ++ row ∷ []) ≡ true
has_person-append i [] row h = cc
has_person-append i (p ∷ ps) row h = ground (arith, has_person-append i ps row)

pub has_person-replace_first :
    (i : Text) (ps : List PersonRow) (row : PersonRow)
    → has_person i ps ≡ true
    → has_person i (replace_first (λ p. p.id == row.id) row ps) ≡ true
has_person-replace_first i [] row h = h
has_person-replace_first i (p ∷ ps) row h =
    ground (arith, has_person-replace_first i ps row, ==_iff p.id row.id)

pub has_person-remove_first :
    (i id : Text) (ps : List PersonRow)
    → (i == id) ≡ false
    → has_person i ps ≡ true
    → has_person i (remove_first (λ p. p.id == id) ps) ≡ true
has_person-remove_first i id [] n h = h
has_person-remove_first i id (p ∷ ps) n h =
    ground (arith, has_person-remove_first i id ps n, ==_iff p.id i, ==_iff p.id id, ==_iff i id)
