-- ===== src/Base/Distinct.antt =====
-- A symmetric test between any two items of a list, under appending, replacing and removing.
use mathlib.Core.Path.{◌≡◌}
use mathlib.Core.Bool.{Bool, true, false}
use mathlib.Core.List.{List, [], ◌∷◌, ◌++◌}
use mathlib.Core.Logic.{inl, inr}
use dsh_backend_team.Base.Tests.{if◌then◌else◌, Bool-cases}
use dsh_backend_team.Base.Lists.{All, All-append, All-map₂}

-- `rows[rows.findIndex(p)] = row`, where there is such an index.
abbrev pub replace_first {ℓ} : {A : Type ℓ} → (A → Bool) → A → List A → List A
replace_first p row [] = []
replace_first p row (x ∷ xs) =
    let rest = replace_first p row xs in if p x then row ∷ xs else x ∷ rest

-- `rows.splice(rows.findIndex(p), 1)`, where there is such an index.
abbrev pub remove_first {ℓ} : {A : Type ℓ} → (A → Bool) → List A → List A
remove_first p [] = []
remove_first p (x ∷ xs) = let rest = remove_first p xs in if p x then xs else x ∷ rest

module _ {ℓ κ} {A : Type ℓ} (P : A → Type κ) (p : A → Bool) where
  pub All-replace_first :
      (row : A) (xs : List A) → All P xs → P row → All P (replace_first p row xs)
  All-replace_first row [] h k = tt
  All-replace_first row (x ∷ xs) h k = elim (Bool-cases (p x)) [
    | inl found ↦ rw found (k, h.1)
    | inr passed ↦ rw passed (h.0, All-replace_first row xs h.1 k)
  ]

  pub All-remove_first : (xs : List A) → All P xs → All P (remove_first p xs)
  All-remove_first [] h = tt
  All-remove_first (x ∷ xs) h = elim (Bool-cases (p x)) [
    | inl found ↦ rw found h.1
    | inr passed ↦ rw passed (h.0, All-remove_first xs h.1)
  ]

module _ {ℓ} {A : Type ℓ} where
  -- The test holds of each item with every later one.
  abbrev pub Pairs : (A → A → Bool) → List A → Type 0
  Pairs r [] = Unit
  Pairs r (x ∷ xs) = All (λ y. r x y ≡ true) xs × Pairs r xs

module _ {ℓ} {A : Type ℓ} (r : A → A → Bool) where
  pub Pairs-append :
      (xs : List A) (row : A) → Pairs r xs → All (λ x. r x row ≡ true) xs → Pairs r (xs ++ row ∷ [])
  Pairs-append [] row h k = (tt, tt)
  Pairs-append (x ∷ xs) row h k =
      (All-append (λ y. r x y ≡ true) xs (row ∷ []) h.0 (k.0, tt), Pairs-append xs row h.1 k.1)

  -- Replacing keeps the pairs, if the new item goes with all that stay, and the test of the
  -- search singles out one item.
  pub Pairs-replace_first :
      (p : A → Bool) (row : A)
      → ((x y : A) → p x ≡ true → r x y ≡ true → p y ≡ false)
      → (xs : List A) → All (λ x. p x ≡ false → r x row ≡ true) xs
      → All (λ y. p y ≡ false → r row y ≡ true) xs
      → Pairs r xs
      → Pairs r (replace_first p row xs)
  Pairs-replace_first p row alone [] before after h = tt
  Pairs-replace_first p row alone (x ∷ xs) before after h = elim (Bool-cases (p x)) [
    | inl found ↦ rw found (All-map₂ (λ y f g. f (alone x y found g)) xs after.1 h.0, h.1)
    | inr passed ↦ rw passed (
      All-replace_first (λ y. r x y ≡ true) p row xs h.0 (before.0 passed),
      Pairs-replace_first p row alone xs before.1 after.1 h.1,
    )
  ]

  pub Pairs-remove_first : (p : A → Bool) (xs : List A) → Pairs r xs → Pairs r (remove_first p xs)
  Pairs-remove_first p [] h = tt
  Pairs-remove_first p (x ∷ xs) h = elim (Bool-cases (p x)) [
    | inl found ↦ rw found h.1
    | inr passed ↦
        rw passed (All-remove_first (λ y. r x y ≡ true) p xs h.0, Pairs-remove_first p xs h.1)
  ]
