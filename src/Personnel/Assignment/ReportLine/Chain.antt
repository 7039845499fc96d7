-- ===== src/Personnel/Assignment/ReportLine/Chain.antt =====
-- The loop of `assertReportLine` ends, and what it accepts is a chain of managers that never
-- comes back to the person.
use dsh_backend_team.Base.{
  ℕ, zero, suc, ◌+◌, ◌≤◌, ◌<◌, ◌≡◌, ◌≢◌, refl, Bool, true, false, not, Option, none, some, List, [],
  ◌∷◌, Text, ◌==◌, ==_iff, ==_sym, sym, or_false, length, length-filter-le, filter, any, All-any,
  text_member, Bool-cases, Option-cases, inl, inr, arith,
}
use mathlib.Core.Path.{subst}
use dsh_backend_team.Personnel.Rows.{PersonRow, PersonStatus, AssignmentRow}
use dsh_backend_team.Personnel.Action.{World, ok}
use dsh_backend_team.Personnel.Store.{find_person_by_id}
use dsh_backend_team.Personnel.Effective.{effective_assignment_at}
use dsh_backend_team.Personnel.Effective.Laws.{
  effective_assignment_at-is_effective, effective_assignment_at-All,
}
use dsh_backend_team.Personnel.Assignment.ReportLine.{
  manager_at, walk_managers, enough_fuel, no_active_manager, check_report_line,
}

-- The assignments of people whom the loop has not met.
unmet : List Text → AssignmentRow → Bool
unmet seen a = not (text_member a.person_id seen)

unmet_now :
    (id : Text) (seen : List Text) (x : AssignmentRow)
    → text_member id seen ≡ false
    → (x.person_id == id) ≡ true
    → (unmet (id ∷ seen) x ≡ false) × (unmet seen x ≡ true)
unfolding unmet
unmet_now id seen x n h =
    let e : id ≡ x.person_id = sym ((==_iff x.person_id id).0 h) in
    (rw (==_sym id x.person_id, h) refl, rw (← e, n) refl)

unmet_other :
    (id : Text) (seen : List Text) (x : AssignmentRow)
    → (x.person_id == id) ≡ false
    → unmet (id ∷ seen) x ≡ unmet seen x
unfolding unmet
unmet_other id seen x h = rw (==_sym id x.person_id, h) refl

unmet-le :
    (id : Text) (seen : List Text) (xs : List AssignmentRow)
    → text_member id seen ≡ false
    → length (filter (unmet (id ∷ seen)) xs) ≤ length (filter (unmet seen) xs)
unmet-le id seen [] n = omega arith
unmet-le id seen (x ∷ xs) n =
    ground (arith, unmet-le id seen xs n, unmet_now id seen x n, unmet_other id seen x)

-- Meeting somebody who has an assignment leaves fewer.
unmet-lt :
    (id : Text) (seen : List Text) (xs : List AssignmentRow)
    → text_member id seen ≡ false
    → any (λ a. a.person_id == id) xs ≡ true
    → length (filter (unmet (id ∷ seen)) xs) < length (filter (unmet seen) xs)
unmet-lt id seen [] n h = cc
unmet-lt id seen (x ∷ xs) n h = ground (
  arith,
  unmet-lt id seen xs n,
  unmet-le id seen xs n,
  unmet_now id seen x n,
  unmet_other id seen x,
)

-- The rounds that the loop has left at most.
rounds : List AssignmentRow → List Text → Option Text → ℕ
rounds assignments seen none = 1
rounds assignments seen (some id) = length (filter (unmet seen) assignments) + 2

module _ (assignments : List AssignmentRow) (at : Text) where
  -- A manager comes from an assignment of that person.
  manager_at_known :
      (id m : Text)
      → manager_at assignments at id ≡ some m
      → any (λ a. a.person_id == id) assignments ≡ true
  manager_at_known id m e = elim (Option-cases (effective_assignment_at assignments id at)) [
    | inl nobody ↦ ground arith
    | inr (a, found) ↦
        effective_assignment_at-All
          (λ b. (b.person_id == id) ≡ true → any (λ a. a.person_id == id) assignments ≡ true)
          assignments id at a (All-any (λ a. a.person_id == id) assignments) found
          (ground (arith, (effective_assignment_at-is_effective assignments id at a found).0))
  ]

  rounds_fall :
      (id : Text) (seen : List Text) (next : Option Text)
      → text_member id seen ≡ false
      → manager_at assignments at id ≡ next
      → rounds assignments (id ∷ seen) next < rounds assignments seen (some id)
  unfolding rounds
  rounds_fall id seen none n e = omega arith
  rounds_fall id seen (some m) n e =
      omega (arith, unmet-lt id seen assignments n (manager_at_known id m e))

  walk_managers_total :
      (fuel : ℕ) (seen : List Text) (cursor : Option Text)
      → rounds assignments seen cursor ≤ fuel
      → walk_managers assignments at fuel seen cursor ≢ none
  unfolding walk_managers rounds
  walk_managers_total zero seen none h = absurd (omega arith)
  walk_managers_total zero seen (some id) h = absurd (omega arith)
  walk_managers_total (suc fuel) seen none h = ground arith
  walk_managers_total (suc fuel) seen (some id) h = elim (Bool-cases (text_member id seen)) [
    | inl met ↦ rw met (ground arith)
    | inr new ↦ rw new (
        walk_managers_total fuel (id ∷ seen) (manager_at assignments at id)
          (omega (arith, rounds_fall id seen (manager_at assignments at id) new refl)))
  ]

  -- The loop over the managers ends within one round for each assignment and two more: it never
  -- runs out of that fuel, whoever it starts from.
  pub walk_managers_ends :
      (seen : List Text) (cursor : Option Text)
      → walk_managers assignments at (enough_fuel assignments) seen cursor ≢ none
  walk_managers_ends seen cursor =
      walk_managers_total (enough_fuel assignments) seen cursor (rounds-le cursor)
    where
      rounds-le : (c : Option Text) → rounds assignments seen c ≤ enough_fuel assignments
      rounds-le none = unfold rounds in omega arith
      rounds-le (some id) =
          unfold rounds in omega (arith, length-filter-le (unmet seen) assignments)

  -- `y` is `x` or stands above `x` in the chain of managers on the date.
  pub data Above : Text → Text → Type 0 where
    here : {x : Text} → Above x x
    up : {x y z : Text} → manager_at assignments at x ≡ some y → Above y z → Above x z

  walk_managers_sound :
      (fuel : ℕ) (seen : List Text) (x y : Text)
      → walk_managers assignments at fuel seen (some x) ≡ some (ok tt)
      → Above x y
      → text_member y seen ≡ false
  unfolding walk_managers
  walk_managers_sound zero seen x y h c = cc
  walk_managers_sound (suc fuel) seen x y h here = ground arith
  walk_managers_sound (suc fuel) seen x z h (up {y = y} e c) =
      elim (Bool-cases (text_member x seen)) [
        | inl met ↦ absurd (ground arith)
        | inr new ↦
            let go : walk_managers assignments at fuel (x ∷ seen) (some y) ≡ some (ok tt) =
              subst (λ m. walk_managers assignments at fuel (x ∷ seen) m ≡ some (ok tt)) e
                (rw new at h) in
            (or_false (x == z) (text_member z seen)
              (walk_managers_sound fuel (x ∷ seen) y z go c)).1
      ]

-- What an accepted report line is: a manager other than the person, who is active, and above whom
-- the person does not stand.
pub record Accepted (person : PersonRow) (manager at : Text) (w : World) : Type 0 where
  pub someone_else : manager ≢ person.id
  pub row : PersonRow
  pub known : find_person_by_id manager w ≡ some row
  pub is_active : row.status ≡ PersonStatus.active
  pub acyclic : (y : Text) → Above w.assignments at manager y → y ≢ person.id

active_manager :
    (o : Option PersonRow)
    → no_active_manager o ≡ false
    → (p : PersonRow) × (o ≡ some p) × (p.status ≡ PersonStatus.active)
active_manager none h = absurd (ground arith)
active_manager (some p) h = (p, refl, ground arith)

-- A report line is accepted only for a manager who is another person, is active, and has the
-- person nowhere above, on the date that the assignment takes effect.
pub check_report_line_sound :
    (person : PersonRow) (manager at : Text) (w : World)
    → check_report_line person (some manager) at w ≡ ok tt
    → Accepted person manager at w
unfolding check_report_line
check_report_line_sound person manager at w h =
    let apart : (manager == person.id) ≡ false = ground arith in
    let active : no_active_manager (find_person_by_id manager w) ≡ false = ground arith in
    let walked : walk_managers w.assignments at (enough_fuel w.assignments) (person.id ∷ [])
          (some manager)
        ≡ some (ok tt) =
      ground arith in
    let (row, known, status) = active_manager (find_person_by_id manager w) active in
    record {
      someone_else = λ e. cc ((==_iff manager person.id).1 e);
      row = row;
      known = known;
      is_active = status;
      acyclic = λ y c e. cc (
        (==_iff person.id y).1 (sym e),
        (or_false (person.id == y) false (
            walk_managers_sound w.assignments at (enough_fuel w.assignments) (person.id ∷ [])
              manager y walked c)).0,
      );
    }
