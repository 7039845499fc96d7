-- ===== src/Base/Sorting.antt =====
-- `Array.prototype.sort` with a comparison, which is stable, and `[0]` of its result.
use Prim.Native.Nat.{◌+◌}
use mathlib.Core.Path.{subst, ◌≡◌, refl}
use native.Mathlib.Omega.{arith}
use mathlib.Core.Bool.{Bool, true, false}
use mathlib.Core.Option.{Option, none, some}
use mathlib.Core.List.{List, [], ◌∷◌, Perm}
use mathlib.Core.List.Perm
use mathlib.Core.Logic.{◌≢◌, inl, inr}
use dsh_backend_team.Base.Tests.{if◌then◌else◌, Bool-cases}
use dsh_backend_team.Base.Lists.{length, All, All-map}

-- `after x y` says that the comparison of `x` with `y` is positive.
module _ {ℓ} {A : Type ℓ} where
  abbrev pub sort_insert : (A → A → Bool) → A → List A → List A
  sort_insert after x [] = x ∷ []
  sort_insert after x (y ∷ ys) =
      let rest = sort_insert after x ys in if after x y then y ∷ rest else x ∷ y ∷ ys

  unfoldable pub sort : (A → A → Bool) → List A → List A
  sort after [] = []
  sort after (x ∷ xs) = sort_insert after x (sort after xs)

  abbrev pub head? : List A → Option A
  head? [] = none
  head? (x ∷ xs) = some x

module _ {ℓ} {A : Type ℓ} (after : A → A → Bool) where
  sort_insert-perm : (x : A) (ys : List A) → Perm (sort_insert after x ys) (x ∷ ys)
  sort_insert-perm x [] = Perm.refl (x ∷ [])
  sort_insert-perm x (y ∷ ys) = elim (Bool-cases (after x y)) [
    | inl later ↦ rw later (Perm.trans (Perm.cons y (sort_insert-perm x ys)) (Perm.swap x y ys))
    | inr first ↦ rw first (Perm.refl (x ∷ y ∷ ys))
  ]

  -- Sorting rearranges.
  pub sort-perm : (xs : List A) → Perm (sort after xs) xs
  unfolding sort
  sort-perm [] = Perm.refl []
  sort-perm (x ∷ xs) = Perm.trans (sort_insert-perm x (sort after xs)) (Perm.cons x (sort-perm xs))

  length-sort_insert : (x : A) (ys : List A) → length (sort_insert after x ys) ≡ 1 + length ys
  length-sort_insert x [] = refl
  length-sort_insert x (y ∷ ys) = ground (arith, length-sort_insert x ys)

  pub length-sort : (xs : List A) → length (sort after xs) ≡ length xs
  unfolding sort
  length-sort [] = refl
  length-sort (x ∷ xs) = omega (arith, length-sort_insert x (sort after xs), length-sort xs)

  module _ {κ} (P : A → Type κ) where
    sort_insert-All : (x : A) (ys : List A) → P x → All P ys → All P (sort_insert after x ys)
    sort_insert-All x [] p h = (p, tt)
    sort_insert-All x (y ∷ ys) p h = elim (Bool-cases (after x y)) [
      | inl later ↦ rw later (h.0, sort_insert-All x ys p h.1)
      | inr first ↦ rw first (p, h)
    ]

    -- What holds of all items holds of all sorted items.
    pub sort-All : (xs : List A) → All P xs → All P (sort after xs)
    unfolding sort
    sort-All [] h = tt
    sort-All (x ∷ xs) h = sort_insert-All x (sort after xs) h.0 (sort-All xs h.1)

  -- No item has one behind it that should stand before it.
  abbrev pub IsSorted : List A → Type ℓ
  IsSorted [] = Unit
  IsSorted (x ∷ xs) = All (λ y. after x y ≡ false) xs × IsSorted xs

  -- For a comparison that is a weak order the result is sorted.
  module _ (asymm : (x y : A) → after x y ≡ true → after y x ≡ false)
      (trans : (x y z : A) → after x y ≡ false → after y z ≡ false → after x z ≡ false) where
    sort_insert-IsSorted : (x : A) (ys : List A) → IsSorted ys → IsSorted (sort_insert after x ys)
    sort_insert-IsSorted x [] h = (tt, tt)
    sort_insert-IsSorted x (y ∷ ys) h = elim (Bool-cases (after x y)) [
      | inl later ↦ rw later (
        sort_insert-All (λ z. after y z ≡ false) x ys (asymm x y later) h.0,
        sort_insert-IsSorted x ys h.1,
      )
      | inr first ↦ rw first ((first, All-map (λ z e. trans x y z first e) ys h.0), h)
    ]

    pub sort-IsSorted : (xs : List A) → IsSorted (sort after xs)
    unfolding sort
    sort-IsSorted [] = tt
    sort-IsSorted (x ∷ xs) = sort_insert-IsSorted x (sort after xs) (sort-IsSorted xs)

module _ {ℓ κ} {A : Type ℓ} (after : A → A → Bool) (P : A → Type κ) where
  sort_insert-All_back : (x : A) (ys : List A) → All P (sort_insert after x ys) → P x × All P ys
  sort_insert-All_back x [] h = (h.0, tt)
  sort_insert-All_back x (y ∷ ys) h = go (sort_insert-All_back x ys) (after x y) h
    where
      go :
          (rest : All P (sort_insert after x ys) → P x × All P ys) (b : Bool)
          → All P (if b then y ∷ sort_insert after x ys else x ∷ y ∷ ys)
          → P x × All P (y ∷ ys)
      go rest true (p, k) = let (q, l) = rest k in (q, (p, l))
      go rest false (p, k) = (p, k)

  pub sort-All_back : (xs : List A) → All P (sort after xs) → All P xs
  unfolding sort
  sort-All_back [] h = tt
  sort-All_back (x ∷ xs) h =
      let (p, k) = sort_insert-All_back x (sort after xs) h in (p, sort-All_back xs k)

module _ {ℓ} {A : Type ℓ} where
  pub head?-All {κ} : (P : A → Type κ) (xs : List A) (a : A) → All P xs → head? xs ≡ some a → P a
  head?-All P [] a h e = cc
  head?-All P (x ∷ xs) a h e = let same : x ≡ a = ground arith in subst P same h.0

  head?-IsSorted :
      (after : A → A → Bool)
      → ((x : A) → after x x ≡ false)
      → (xs : List A) (a : A) → IsSorted after xs
      → head? xs ≡ some a
      → All (λ b. after a b ≡ false) xs
  head?-IsSorted after irrefl [] a h e = tt
  head?-IsSorted after irrefl (x ∷ xs) a h e =
      let same : x ≡ a = ground arith in
      subst (λ y. All (λ b. after y b ≡ false) (x ∷ xs)) same (irrefl x, h.0)

  sort_insert-ne-nil :
      (after : A → A → Bool) (x : A) (ys : List A) → head? (sort_insert after x ys) ≢ none
  sort_insert-ne-nil after x [] = ground arith
  sort_insert-ne-nil after x (y ∷ ys) = ground arith

  -- Sorting leaves nothing only of nothing.
  pub head?-sort-none :
      (after : A → A → Bool) (xs : List A) → head? (sort after xs) ≡ none → xs ≡ []
  unfolding sort
  head?-sort-none after [] h = refl
  head?-sort-none after (x ∷ xs) h = absurd (sort_insert-ne-nil after x (sort after xs) h)

  -- The first of the sorted items stands behind none.
  pub head?-sort :
      (after : A → A → Bool)
      → ((x : A) → after x x ≡ false)
      → ((x y : A) → after x y ≡ true → after y x ≡ false)
      → ((x y z : A) → after x y ≡ false → after y z ≡ false → after x z ≡ false)
      → (xs : List A) (a : A) → head? (sort after xs) ≡ some a
      → All (λ b. after a b ≡ false) xs
  head?-sort after irrefl asymm trans xs a e =
      sort-All_back after (λ b. after a b ≡ false) xs
        (head?-IsSorted after irrefl (sort after xs) a (sort-IsSorted after asymm trans xs) e)
