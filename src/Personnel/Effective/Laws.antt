-- ===== src/Personnel/Effective/Laws.antt =====
-- The assignment that counts on a date is one that is effective then, none that is starts later,
-- and there is one as soon as any is effective.
use dsh_backend_team.Personnel.Store.{before_end}
use dsh_backend_team.Base.{
  ◌∙◌, ==_iff, ap, arith, ◌==◌, Option, text_le, text_lt, ◌≢◌, ◌≡◌, refl, sym, ◌⊎◌, true, false,
  none, some, List, Text, text_lt_asymm, text_le_lt_trans, text_lt_irrefl, filter, All, All-map,
  All-filter, All-of_filter, filter-All, sort, head?-All, head?-sort, head?-sort-none, sort-All,
  Bool-cases, inl, inr,
}
use mathlib.Core.Path.{subst}
use dsh_backend_team.Personnel.Rows.{is_retracted, AssignmentStatus, AssignmentRow}
use dsh_backend_team.Personnel.Effective.{is_effective, starts_earlier, effective_assignment_at}

starts_earlier_trans :
    (x y z : AssignmentRow)
    → starts_earlier x y ≡ false
    → starts_earlier y z ≡ false
    → starts_earlier x z ≡ false
starts_earlier_trans x y z h k = elim (Bool-cases (starts_earlier x z)) [
  | inl later ↦ cc (text_le_lt_trans y.effective_from x.effective_from z.effective_from h later)
  | inr fine ↦ fine
]

pub effective_assignment_at-is_effective :
    (assignments : List AssignmentRow) (id at : Text) (a : AssignmentRow)
    → effective_assignment_at assignments id at ≡ some a
    → (is_effective id at a ≡ true)
      × All (λ b. is_effective id at b ≡ true → starts_earlier a b ≡ false) assignments
unfolding effective_assignment_at
effective_assignment_at-is_effective assignments id at a e = (
  head?-All (λ b. is_effective id at b ≡ true)
      (sort starts_earlier (filter (is_effective id at) assignments)) a
      (sort-All starts_earlier (λ b. is_effective id at b ≡ true)
        (filter (is_effective id at) assignments) (filter-All (is_effective id at) assignments))
      e,
  All-of_filter (is_effective id at) (λ b. starts_earlier a b ≡ false) assignments
      (head?-sort starts_earlier (λ x. text_lt_irrefl x.effective_from)
        (λ x y. text_lt_asymm x.effective_from y.effective_from) starts_earlier_trans
        (filter (is_effective id at) assignments) a e),
)

-- An assignment of the person that is not retracted, has begun by the date and has no end or one
-- behind the date.
pub record Covers (id at : Text) (a : AssignmentRow) : Type 0 where
  pub owned : a.person_id ≡ id
  pub counted : a.status ≢ AssignmentStatus.retracted
  pub begun : text_le a.effective_from at ≡ true
  pub unended :
      (a.effective_to ≡ none)
      ⊎ ((end : Text) × ((a.effective_to ≡ some end) × (text_lt at end ≡ true)))

is_effective-Covers :
    (id at : Text) (a : AssignmentRow) → is_effective id at a ≡ true → Covers id at a
is_effective-Covers id at a h =
    let owned : (a.person_id == id) ≡ true = ground arith in
    record {
      owned = (==_iff a.person_id id).0 owned;
      counted = λ e. ground arith;
      begun = ground arith;
      unended = opened a.effective_to refl (ground arith);
    }
  where
    opened :
        (o : Option Text)
        → a.effective_to ≡ o
        → before_end at o ≡ true
        → (a.effective_to ≡ none)
          ⊎ ((end : Text) × ((a.effective_to ≡ some end) × (text_lt at end ≡ true)))
    opened none e b = inl e
    opened (some end) e b = inr (end, (e, b))

Covers-is_effective :
    (id at : Text) (a : AssignmentRow) → Covers id at a → is_effective id at a ≡ true
Covers-is_effective id at a c = ground (
  arith,
  (==_iff a.person_id id).1 c.owned,
  counted a.status c.counted,
  c.begun,
  before a.effective_to c.unended,
)
  where
    counted : (t : AssignmentStatus) → t ≢ AssignmentStatus.retracted → is_retracted t ≡ false
    counted AssignmentStatus.retracted n = absurd (n refl)
    counted AssignmentStatus.pending n = refl
    counted AssignmentStatus.current n = refl
    counted AssignmentStatus.closed n = refl

    before :
        (o : Option Text)
        → (o ≡ none) ⊎ ((end : Text) × ((o ≡ some end) × (text_lt at end ≡ true)))
        → before_end at o ≡ true
    before none u = refl
    before (some t) (inl n) = absurd (ground arith)
    before (some t) (inr (end, (e, b))) = ap (λ o. before_end at o) e ∙ b

-- The assignment that is found for a person and a date is the person's, is not retracted, has
-- begun by the date and has no end or one behind it; and no other one of which this holds begins
-- later.
pub effective_assignment_at_sound :
    (assignments : List AssignmentRow) (id at : Text) (a : AssignmentRow)
    → effective_assignment_at assignments id at ≡ some a
    → Covers id at a
      × All (λ b. Covers id at b → text_lt a.effective_from b.effective_from ≡ false) assignments
effective_assignment_at_sound assignments id at a e =
    let (found, first) = effective_assignment_at-is_effective assignments id at a e in
    (
      is_effective-Covers id at a found,
      All-map (λ b k c. k (Covers-is_effective id at b c)) assignments first,
    )

-- Where none is found, none is effective.
pub effective_assignment_at-none :
    (assignments : List AssignmentRow) (id at : Text)
    → effective_assignment_at assignments id at ≡ none
    → All (λ b. is_effective id at b ≡ false) assignments
unfolding effective_assignment_at
effective_assignment_at-none assignments id at e =
    All-map (λ b k. go b (Bool-cases (is_effective id at b)) k) assignments
      (All-of_filter (is_effective id at) (λ b. ⊥) assignments
        (subst (All (λ b. ⊥))
          (sym (head?-sort-none starts_earlier (filter (is_effective id at) assignments) e)) tt))
  where
    go :
        (b : AssignmentRow)
        → (is_effective id at b ≡ true) ⊎ (is_effective id at b ≡ false)
        → (is_effective id at b ≡ true → ⊥)
        → is_effective id at b ≡ false
    go b (inl t) k = absurd (k t)
    go b (inr f) k = f

-- What holds of all assignments holds of the one that is found.
pub effective_assignment_at-All {ℓ} :
    (P : AssignmentRow → Type ℓ) (assignments : List AssignmentRow) (id at : Text)
    (a : AssignmentRow)
    → All P assignments
    → effective_assignment_at assignments id at ≡ some a
    → P a
unfolding effective_assignment_at
effective_assignment_at-All P assignments id at a h e =
    head?-All P (sort starts_earlier (filter (is_effective id at) assignments)) a
      (sort-All starts_earlier P (filter (is_effective id at) assignments)
        (All-filter P (is_effective id at) assignments h))
      e
