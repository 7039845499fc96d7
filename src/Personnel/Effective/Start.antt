-- ===== src/Personnel/Effective/Start.antt =====
-- On its first day an assignment counts, for `effectiveAssignmentAt` of
-- src/personnel/domain/assignment.ts.
use dsh_backend_team.Base.{
  ◌≡◌, refl, sym, ap, ◌⊎◌, inl, inr, true, false, Option, none, some, List, [], ◌∷◌, ◌++◌, ==_iff,
  ==_refl, text_lt_total, text_lt_irrefl, All, All-map, Pairs, arith,
}
use mathlib.Core.Path.{subst}
use dsh_backend_team.Personnel.Rows.{AssignmentRow, is_retracted}
use dsh_backend_team.Personnel.Action.{World}
use dsh_backend_team.Personnel.Store.{before_end}
use dsh_backend_team.Personnel.Store.Invariant.{IsValid, other_assignment}
use dsh_backend_team.Personnel.Effective.{is_effective, starts_earlier, effective_assignment_at}
use dsh_backend_team.Personnel.Effective.Laws.{
  effective_assignment_at-is_effective, effective_assignment_at-none, effective_assignment_at-All,
}

abbrev SameOrOther : AssignmentRow → AssignmentRow → Type 0
SameOrOther p a = (a ≡ p) ⊎ ((other_assignment a p ≡ true) ⊎ (other_assignment p a ≡ true))

All-middle {ℓ κ} :
    {A : Type ℓ} (P : A → Type κ) (xs : List A) (y : A) (ys : List A) → All P (xs ++ y ∷ ys) → P y
All-middle P [] y ys h = h.0
All-middle P (x ∷ xs) y ys h = All-middle P xs y ys h.1

Pairs-SameOrOther :
    (before : List AssignmentRow) (p : AssignmentRow) (rest : List AssignmentRow)
    → Pairs other_assignment (before ++ p ∷ rest)
    → All (SameOrOther p) (before ++ p ∷ rest)
Pairs-SameOrOther [] p rest h = (inl refl, All-map (λ a e. inr (inr e)) rest h.0)
Pairs-SameOrOther (b ∷ before) p rest h =
    (inr (inl (All-middle _ before p rest h.0)), Pairs-SameOrOther before p rest h.1)

clash :
    (p a : AssignmentRow)
    → is_effective p.person_id p.effective_from a ≡ true
    → starts_earlier a p ≡ false
    → is_retracted p.status ≡ false
    → (other_assignment a p ≡ true) ⊎ (other_assignment p a ≡ true)
    → ⊥
clash p a h later live o =
    let from : a.effective_from ≡ p.effective_from =
      text_lt_total a.effective_from p.effective_from later (ground arith) in
    let owner : a.person_id ≡ p.person_id = (==_iff a.person_id p.person_id).0 (ground arith) in
    ground (
      arith,
      (==_iff a.person_id p.person_id).1 owner,
      (==_iff p.person_id a.person_id).1 (sym owner),
      (==_iff a.effective_from p.effective_from).1 from,
      (==_iff p.effective_from a.effective_from).1 (sym from),
    )

-- In a valid store, an assignment that is not retracted and does not end on the day that it starts
-- is the one that counts on that day, even while it is pending: nothing else is found there as the
-- assignment that it follows.
pub effective_assignment_at_start :
    (w : World) (before rest : List AssignmentRow) (p : AssignmentRow)
    → IsValid w
    → w.assignments ≡ before ++ p ∷ rest
    → is_retracted p.status ≡ false
    → before_end p.effective_from p.effective_to ≡ true
    → effective_assignment_at w.assignments p.person_id p.effective_from ≡ some p
effective_assignment_at_start w before rest p v e live nonempty =
    go (effective_assignment_at w.assignments p.person_id p.effective_from) refl
  where
    own : is_effective p.person_id p.effective_from p ≡ true
    own = ground (arith, ==_refl p.person_id, text_lt_irrefl p.effective_from)

    all_apart : All (SameOrOther p) w.assignments
    all_apart =
        subst (All (SameOrOther p)) (sym e) (
          Pairs-SameOrOther before p rest (subst (Pairs other_assignment) e v.assignments_distinct))

    found :
        (a : AssignmentRow)
        → is_effective p.person_id p.effective_from a ≡ true
        → starts_earlier a p ≡ false
        → SameOrOther p a
        → some a ≡ some p
    found a h later (inl same) = ap some same
    found a h later (inr apart) = absurd (clash p a h later live apart)

    go :
        (o : Option AssignmentRow)
        → effective_assignment_at w.assignments p.person_id p.effective_from ≡ o
        → o ≡ some p
    go none f =
        let missed : is_effective p.person_id p.effective_from p ≡ false =
          All-middle (λ b. is_effective p.person_id p.effective_from b ≡ false) before p rest
            (subst (All (λ b. is_effective p.person_id p.effective_from b ≡ false)) e
              (effective_assignment_at-none w.assignments p.person_id p.effective_from f)) in
        absurd (ground (arith, own, missed))
    go (some a) f =
        let (h, latest) =
          effective_assignment_at-is_effective w.assignments p.person_id p.effective_from a f in
        let later : is_effective p.person_id p.effective_from p ≡ true
            → starts_earlier a p ≡ false =
          All-middle
            (λ b. is_effective p.person_id p.effective_from b ≡ true → starts_earlier a b ≡ false)
            before p rest
            (subst
              (All (λ b.
                is_effective p.person_id p.effective_from b ≡ true → starts_earlier a b ≡ false))
              e latest) in
        found a h (later own) (
          effective_assignment_at-All (SameOrOther p) w.assignments p.person_id p.effective_from a
            all_apart f)
