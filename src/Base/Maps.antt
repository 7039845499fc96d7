-- ===== src/Base/Maps.antt =====
-- A `Map` with text keys, as the list of its entries in the order of their insertion.
use Prim.Native.Nat.{ℕ, ◌+◌}
use mathlib.Core.Path.{◌≡◌, refl, subst, ap, ◌∙◌}
use native.Mathlib.Omega.{arith}
use mathlib.Core.Bool.{Bool, true, false, ◌||◌}
use mathlib.Core.Option.{Option, none, some, some-injective}
use mathlib.Core.List.{List, [], ◌∷◌}
use dsh_backend_team.Base.Tests.{is_some}
use dsh_backend_team.Base.Lists.{All}
use dsh_backend_team.Base.Strings.{Text, ◌==◌, ==_iff}

abbrev pub one_if : Bool → ℕ
one_if true = 1
one_if false = 0

module _ {ℓ} {V : Type ℓ} where
  abbrev pub if_match : Bool → V → Option V → Option V
  if_match true v rest = some v
  if_match false v rest = rest

  unfoldable pub lookup : Text → List (Text × V) → Option V
  lookup k [] = none
  lookup k ((j, v) ∷ m) = let rest = lookup k m in if_match (j == k) v rest

  abbrev pub set_at :
      Bool → Text → V → Text × V → List (Text × V) → List (Text × V) → List (Text × V)
  set_at true k v e m rest = (k, v) ∷ m
  set_at false k v e m rest = e ∷ rest

  -- `set`: an entry that is there keeps its place.
  unfoldable pub set : Text → V → List (Text × V) → List (Text × V)
  set k v [] = (k, v) ∷ []
  set k v ((j, u) ∷ m) = let rest = set k v m in set_at (j == k) k v (j, u) m rest

  abbrev pub delete_at : Bool → Text × V → List (Text × V) → List (Text × V) → List (Text × V)
  delete_at true e m rest = m
  delete_at false e m rest = e ∷ rest

  unfoldable pub delete : Text → List (Text × V) → List (Text × V)
  delete k [] = []
  delete k ((j, u) ∷ m) = let rest = delete k m in delete_at (j == k) (j, u) m rest

  module _ {κ} (P : Text × V → Type κ) where
    pub set-All : (k : Text) (v : V) (m : List (Text × V)) → P (k, v) → All P m → All P (set k v m)
    unfolding set
    set-All k v [] p h = (p, tt)
    set-All k v ((j, u) ∷ m) p h = go (j == k) (set-All k v m p h.1)
      where
        go : (b : Bool) → All P (set k v m) → All P (set_at b k v (j, u) m (set k v m))
        go true r = (p, h.1)
        go false r = (h.0, r)

    pub delete-All : (k : Text) (m : List (Text × V)) → All P m → All P (delete k m)
    unfolding delete
    delete-All k [] h = tt
    delete-All k ((j, u) ∷ m) h = go (j == k) (delete-All k m h.1)
      where
        go : (b : Bool) → All P (delete k m) → All P (delete_at b (j, u) m (delete k m))
        go true r = h.1
        go false r = (h.0, r)

  pub lookup-All {κ} :
      (P : V → Type κ) (k : Text) (v : V) (m : List (Text × V))
      → All (λ e. P e.1) m
      → lookup k m ≡ some v
      → P v
  unfolding lookup
  lookup-All P k v [] h e = absurd (ground arith)
  lookup-All P k v ((j, u) ∷ m) h e = go (j == k) e (lookup-All P k v m h.1)
    where
      go : (b : Bool) → if_match b u (lookup k m) ≡ some v → (lookup k m ≡ some v → P v) → P v
      go true f r = subst P (some-injective u v f) h.0
      go false f r = r f

  pub lookup-All_entry {κ} :
      (P : Text × V → Type κ) (k : Text) (v : V) (m : List (Text × V))
      → All P m
      → lookup k m ≡ some v
      → P (k, v)
  unfolding lookup
  lookup-All_entry P k v [] h e = absurd (ground arith)
  lookup-All_entry P k v ((j, u) ∷ m) h e = go (j == k) refl e (lookup-All_entry P k v m h.1)
    where
      go :
          (b : Bool)
          → (j == k) ≡ b
          → if_match b u (lookup k m) ≡ some v
          → (lookup k m ≡ some v → P (k, v))
          → P (k, v)
      go true g f r =
          subst (λ w. P (k, w)) (some-injective u v f)
            (subst (λ i. P (i, u)) ((==_iff j k).0 g) h.0)
      go false g f r = r f

  -- What is found after a write.
  pub lookup-set :
      (j k : Text) (v : V) (m : List (Text × V))
      → lookup j (set k v m) ≡ if_match (k == j) v (lookup j m)
  unfolding lookup set
  lookup-set j k v [] = refl
  lookup-set j k v ((i, u) ∷ m) = go (i == k) refl (lookup-set j k v m)
    where
      go :
          (b : Bool)
          → (i == k) ≡ b
          → lookup j (set k v m) ≡ if_match (k == j) v (lookup j m)
          → lookup j (set_at b k v (i, u) m (set k v m))
            ≡ if_match (k == j) v (if_match (i == j) u (lookup j m))
      go true e ih =
          let same : (i == j) ≡ (k == j) = ap (λ x. x == j) ((==_iff i k).0 e) in
          ground (arith, same)
      go false e ih = ground (arith, ih, ==_iff k j, ==_iff i k, ==_iff i j)

  -- How many values pass a test.
  abbrev pub tally : (V → Bool) → List (Text × V) → ℕ
  tally f [] = 0
  tally f ((j, u) ∷ m) = one_if (f u) + tally f m

  pub is_some-lookup-set :
      (j k : Text) (v : V) (m : List (Text × V))
      → is_some (lookup j (set k v m)) ≡ ((k == j) || is_some (lookup j m))
  unfolding lookup set
  is_some-lookup-set j k v [] = ground arith
  is_some-lookup-set j k v ((i, u) ∷ m) = go (i == k) refl (is_some-lookup-set j k v m)
    where
      go :
          (b : Bool)
          → (i == k) ≡ b
          → is_some (lookup j (set k v m)) ≡ ((k == j) || is_some (lookup j m))
          → is_some (lookup j (set_at b k v (i, u) m (set k v m)))
            ≡ ((k == j) || is_some (if_match (i == j) u (lookup j m)))
      go true e ih =
          let same : (i == j) ≡ (k == j) = ap (λ x. x == j) ((==_iff i k).0 e) in ground arith
      go false e ih = ground arith

  pub is_some-lookup-delete :
      (j k : Text) (m : List (Text × V))
      → is_some (lookup j (delete k m)) ≡ true
      → is_some (lookup j m) ≡ true
  unfolding lookup delete
  is_some-lookup-delete j k [] h = h
  is_some-lookup-delete j k ((i, u) ∷ m) h = go (i == k) h (is_some-lookup-delete j k m)
    where
      go :
          (b : Bool)
          → is_some (lookup j (delete_at b (i, u) m (delete k m))) ≡ true
          → (is_some (lookup j (delete k m)) ≡ true → is_some (lookup j m) ≡ true)
          → is_some (if_match (i == j) u (lookup j m)) ≡ true
      go true h ih = ground arith
      go false h ih = ground arith

  module _ (f : V → Bool) where
    pub tally-set_fresh :
        (k : Text) (v : V) (m : List (Text × V))
        → is_some (lookup k m) ≡ false
        → tally f (set k v m) ≡ tally f m + one_if (f v)
    unfolding lookup set
    tally-set_fresh k v [] h = omega arith
    tally-set_fresh k v ((i, u) ∷ m) h = go (i == k) h (tally-set_fresh k v m)
      where
        go :
            (b : Bool)
            → is_some (if_match b u (lookup k m)) ≡ false
            → (is_some (lookup k m) ≡ false → tally f (set k v m) ≡ tally f m + one_if (f v))
            → tally f (set_at b k v (i, u) m (set k v m)) ≡ tally f ((i, u) ∷ m) + one_if (f v)
        go true h ih = absurd (ground arith)
        go false h ih = omega (arith, ih h)

    pub tally-set_same :
        (k : Text) (u v : V) (m : List (Text × V))
        → lookup k m ≡ some u
        → f u ≡ f v
        → tally f (set k v m) ≡ tally f m
    unfolding lookup set
    tally-set_same k u v [] h e = absurd (ground arith)
    tally-set_same k u v ((i, t) ∷ m) h e = go (i == k) h (λ g. tally-set_same k u v m g e)
      where
        go :
            (b : Bool)
            → if_match b t (lookup k m) ≡ some u
            → (lookup k m ≡ some u → tally f (set k v m) ≡ tally f m)
            → tally f (set_at b k v (i, t) m (set k v m)) ≡ tally f ((i, t) ∷ m)
        go true h ih =
            let same : one_if (f t) ≡ one_if (f v) =
              ap (λ x. one_if (f x)) (some-injective t u h) ∙ ap one_if e in
            omega arith
        go false h ih = omega (arith, ih h)

    pub tally-delete :
        (k : Text) (u : V) (m : List (Text × V))
        → lookup k m ≡ some u
        → tally f m ≡ tally f (delete k m) + one_if (f u)
    unfolding lookup delete
    tally-delete k u [] h = absurd (ground arith)
    tally-delete k u ((i, t) ∷ m) h = go (i == k) h (tally-delete k u m)
      where
        go :
            (b : Bool)
            → if_match b t (lookup k m) ≡ some u
            → (lookup k m ≡ some u → tally f m ≡ tally f (delete k m) + one_if (f u))
            → tally f ((i, t) ∷ m) ≡ tally f (delete_at b (i, t) m (delete k m)) + one_if (f u)
        go true h ih =
            let same : one_if (f t) ≡ one_if (f u) =
              ap (λ x. one_if (f x)) (some-injective t u h) in
            omega arith
        go false h ih = omega (arith, ih h)
