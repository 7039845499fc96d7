-- ===== src/Base/MapPairs.antt =====
-- A test between any two entries of a map, under `set`.
use mathlib.Core.Path.{◌≡◌, refl, ap, ◌∙◌, sym}
use mathlib.Core.Bool.{Bool, true, false}
use mathlib.Core.List.{List, [], ◌∷◌}
use dsh_backend_team.Base.Lists.{All, All-map₂}
use dsh_backend_team.Base.Strings.{Text, ◌==◌, ==_iff, ==_sym}
use dsh_backend_team.Base.Distinct.{Pairs}
use dsh_backend_team.Base.Maps.{set, set_at, set-All}

module _ {ℓ} {V : Type ℓ} (r : Text × V → Text × V → Bool)
    (apart : (a b : Text × V) → r a b ≡ true → (a.0 == b.0) ≡ false) where
  -- The new entry must go with all that have another key.
  pub set-Pairs :
      (k : Text) (v : V) (m : List (Text × V))
      → All (λ e. (e.0 == k) ≡ false → (r (k, v) e ≡ true) × (r e (k, v) ≡ true)) m
      → Pairs r m
      → Pairs r (set k v m)
  unfolding set
  set-Pairs k v [] f h = (tt, tt)
  set-Pairs k v ((j, u) ∷ m) f h = go (j == k) refl (set-Pairs k v m f.1 h.1)
    where
      go :
          (b : Bool)
          → (j == k) ≡ b
          → Pairs r (set k v m)
          → Pairs r (set_at b k v (j, u) m (set k v m))
      go true e ih = (
        All-map₂
            (λ y g pair.
              (g (
                ap (λ i. y.0 == i) (sym ((==_iff j k).0 e))
                ∙ ==_sym y.0 j
                ∙ apart (j, u) y pair)).0)
            m f.1 h.0,
        h.1,
      )
      go false e ih = (set-All (λ y. r (j, u) y ≡ true) k v m (f.0 e).1 h.0, ih)
