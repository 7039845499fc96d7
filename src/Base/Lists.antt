-- ===== src/Base/Lists.antt =====
-- Lists measured by native numbers, and the array methods of JavaScript that the code uses.
use Prim.Native.Nat.{ℕ, zero, suc, ◌+◌, ◌≤◌}
use mathlib.Core.Path.{subst, ◌≡◌, refl}
use mathlib.Core.Bool.{Bool, true, false, ◌&&◌, ◌||◌}
use mathlib.Core.List.{List, [], ◌∷◌, ◌++◌, map}
use mathlib.Core.Option.{Option, none, some}
use mathlib.Core.Logic.{inl, inr}
use native.Mathlib.Omega.{arith}
use dsh_backend_team.Base.Tests.{if◌then◌else◌, Bool-cases}

module _ {ℓ} {A : Type ℓ} where
  abbrev pub length : List A → ℕ
  length [] = 0
  length (x ∷ xs) = suc (length xs)

  -- `xs.some(p)`
  abbrev pub any : (A → Bool) → List A → Bool
  any p [] = false
  any p (x ∷ xs) = p x || any p xs

  -- `xs.every(p)`
  abbrev pub all : (A → Bool) → List A → Bool
  all p [] = true
  all p (x ∷ xs) = p x && all p xs

  -- `xs.filter(p)`
  abbrev pub filter : (A → Bool) → List A → List A
  filter p [] = []
  filter p (x ∷ xs) = let rest = filter p xs in if p x then x ∷ rest else rest

  -- `xs.find(p)`
  abbrev pub find : (A → Bool) → List A → Option A
  find p [] = none
  find p (x ∷ xs) = let rest = find p xs in if p x then some x else rest

  -- `xss.flat()`
  abbrev pub concat : List (List A) → List A
  concat [] = []
  concat (xs ∷ xss) = xs ++ concat xss

  abbrev pub take : ℕ → List A → List A
  take zero xs = []
  take (suc n) [] = []
  take (suc n) (x ∷ xs) = x ∷ take n xs

  abbrev pub drop : ℕ → List A → List A
  drop zero xs = xs
  drop (suc n) [] = []
  drop (suc n) (x ∷ xs) = drop n xs

module _ {ℓ} {A : Type ℓ} where
  pub length-append : (xs ys : List A) → length (xs ++ ys) ≡ length xs + length ys
  length-append [] ys = omega arith
  length-append (x ∷ xs) ys = omega (arith, length-append xs ys)

  pub any-append : (p : A → Bool) (xs ys : List A) → any p (xs ++ ys) ≡ (any p xs || any p ys)
  any-append p [] ys = refl
  any-append p (x ∷ xs) ys = ground (arith, any-append p xs ys)

  pub length-filter-le : (p : A → Bool) (xs : List A) → length (filter p xs) ≤ length xs
  length-filter-le p [] = omega arith
  length-filter-le p (x ∷ xs) = ground (arith, length-filter-le p xs)

module _ {ℓ κ} {A : Type ℓ} where
  -- `P` holds of every item.
  abbrev pub All : (A → Type κ) → List A → Type κ
  All P [] = Unit
  All P (x ∷ xs) = P x × All P xs

module _ {ℓ κ} {A : Type ℓ} (P : A → Type κ) where
  pub All-append : (xs ys : List A) → All P xs → All P ys → All P (xs ++ ys)
  All-append [] ys h k = k
  All-append (x ∷ xs) ys h k = (h.0, All-append xs ys h.1 k)

  pub All-filter : (p : A → Bool) (xs : List A) → All P xs → All P (filter p xs)
  All-filter p [] h = tt
  All-filter p (x ∷ xs) h = ground (arith, All-filter p xs h.1)

module _ {ℓ κ} {A : Type ℓ} where
  pub All-map {ι} :
      {P : A → Type κ} {Q : A → Type ι} (f : (x : A) → P x → Q x) (xs : List A)
      → All P xs
      → All Q xs
  All-map f [] h = tt
  All-map f (x ∷ xs) h = (f x h.0, All-map f xs h.1)

  pub All-map₂ {ι τ} :
      {P : A → Type κ} {Q : A → Type ι} {R : A → Type τ} (f : (x : A) → P x → Q x → R x)
      (xs : List A)
      → All P xs
      → All Q xs
      → All R xs
  All-map₂ f [] h k = tt
  All-map₂ f (x ∷ xs) h k = (f x h.0 k.0, All-map₂ f xs h.1 k.1)

module _ {ℓ} {A : Type ℓ} (p : A → Bool) where
  pub All-of_any-false : (xs : List A) → any p xs ≡ false → All (λ x. p x ≡ false) xs
  All-of_any-false [] h = tt
  All-of_any-false (x ∷ xs) h = ground (arith, All-of_any-false xs)

  pub All-of_all : (xs : List A) → all p xs ≡ true → All (λ x. p x ≡ true) xs
  All-of_all [] h = tt
  All-of_all (x ∷ xs) h = ground (arith, All-of_all xs)

  -- What a search finds passes its test.
  pub find_sound : (xs : List A) (x : A) → find p xs ≡ some x → p x ≡ true
  find_sound [] x h = ground arith
  find_sound (y ∷ ys) x h = ground (arith, find_sound ys x)

  -- A search that finds nothing leaves no item that passes.
  pub find-none : (xs : List A) → find p xs ≡ none → All (λ x. p x ≡ false) xs
  find-none [] h = tt
  find-none (x ∷ xs) h = ground (arith, find-none xs)

  -- What holds of all items holds of the one found.
  pub find-All {κ} : (P : A → Type κ) (xs : List A) (x : A) → All P xs → find p xs ≡ some x → P x
  find-All P [] x h e = cc
  find-All P (y ∷ ys) x h e = elim (Bool-cases (p y)) [
    | inl found ↦ (let same : y ≡ x = ground arith in subst P same h.0)
    | inr passed ↦ find-All P ys x h.1 (rw passed at e)
  ]

  pub All-of_filter {κ} :
      (P : A → Type κ) (xs : List A) → All P (filter p xs) → All (λ x. p x ≡ true → P x) xs
  All-of_filter P [] h = tt
  All-of_filter P (x ∷ xs) h = go (All-of_filter P xs) (p x) refl h
    where
      go :
          (rest : All P (filter p xs) → All (λ y. p y ≡ true → P y) xs) (b : Bool)
          → p x ≡ b
          → All P (if b then x ∷ filter p xs else filter p xs)
          → All (λ y. p y ≡ true → P y) (x ∷ xs)
      go rest true e k = (λ _. k.0, rest k.1)
      go rest false e k = (λ t. cc, rest k)

  pub filter-All : (xs : List A) → All (λ x. p x ≡ true) (filter p xs)
  filter-All [] = tt
  filter-All (x ∷ xs) = ground (arith, filter-All xs)

  pub All-any : (xs : List A) → All (λ x. p x ≡ true → any p xs ≡ true) xs
  All-any [] = tt
  All-any (x ∷ xs) = (λ h. ground arith, All-map (λ y k h. ground (arith, k h)) xs (All-any xs))

abbrev pub map_some {ℓ κ} : {A : Type ℓ} {B : Type κ} → (A → B) → Option A → Option B
map_some f none = none
map_some f (some a) = some (f a)

module _ {ℓ} {A : Type ℓ} where
  pub any_weaken :
      (p q : A → Bool)
      → ((x : A) → p x ≡ true → q x ≡ true)
      → (xs : List A) → any p xs ≡ true
      → any q xs ≡ true
  any_weaken p q f [] h = h
  any_weaken p q f (x ∷ xs) h = ground (arith, f x, any_weaken p q f xs)

  pub any_before : (p : A → Bool) (xs ys : List A) → any p xs ≡ true → any p (xs ++ ys) ≡ true
  any_before p xs ys h = ground (arith, any-append p xs ys)

  pub any_behind : (p : A → Bool) (xs ys : List A) → any p ys ≡ true → any p (xs ++ ys) ≡ true
  any_behind p xs ys h = ground (arith, any-append p xs ys)

  pub find-append :
      (p : A → Bool) (xs ys : List A) (x : A) → find p xs ≡ some x → find p (xs ++ ys) ≡ some x
  find-append p [] ys x h = absurd (ground arith)
  find-append p (y ∷ xs) ys x h = ground (arith, find-append p xs ys x)

  pub find-append_fresh :
      (p : A → Bool) (xs : List A) (x : A)
      → any p xs ≡ false
      → p x ≡ true
      → find p (xs ++ x ∷ []) ≡ some x
  find-append_fresh p [] x h k = ground arith
  find-append_fresh p (y ∷ xs) x h k = ground (arith, find-append_fresh p xs x)

  -- A change that the test does not see changes what is found, and not whether it is.
  pub find-map :
      (p : A → Bool) (f : A → A)
      → ((x : A) → p (f x) ≡ p x)
      → (xs : List A) → find p (map f xs) ≡ map_some f (find p xs)
  find-map p f same [] = refl
  find-map p f same (x ∷ xs) = ground (arith, same x, find-map p f same xs)
