-- ===== src/Base/Outcomes.antt =====
-- What a call that may throw comes to.
use mathlib.Core.Path.{◌≡◌, refl, subst}
use mathlib.Core.Bool.{Bool, true, false}
use dsh_backend_team.Base.Tests.{if◌then◌else◌}

pub data Outcome (E A : Type 0) : Type 0 where
  ok : A → Outcome E A
  err : E → Outcome E A

infixl 5 ◌>>=◌ ◌>>◌
unfoldable pub ◌>>=◌ : {E A B : Type 0} → Outcome E A → (A → Outcome E B) → Outcome E B
ok a >>= f = f a
err e >>= f = err e

unfoldable pub ◌>>◌ : {E A B : Type 0} → Outcome E A → Outcome E B → Outcome E B
unfolding ◌>>=◌
m >> k = m >>= λ _. k

-- `if (c) throw e`
unfoldable pub throw_if : {E : Type 0} → Bool → E → Outcome E (Unit {0})
throw_if true e = err e
throw_if false e = ok tt

-- The result has the property, if there is one.
abbrev pub Ensures : {E A : Type 0} → (A → Type 0) → Outcome E A → Type 0
Ensures P (ok a) = P a
Ensures P (err e) = Unit

module _ {E A : Type 0} where
  pub bind-Ensures :
      {B : Type 0} (P : A → Type 0) (Q : B → Type 0) (m : Outcome E A) (f : A → Outcome E B)
      → Ensures P m
      → ((a : A) → P a → Ensures Q (f a))
      → Ensures Q (m >>= f)
  unfolding ◌>>=◌
  bind-Ensures P Q (ok a) f h k = k a h
  bind-Ensures P Q (err e) f h k = tt

  pub bind_any-Ensures :
      {B : Type 0} (Q : B → Type 0) (m : Outcome E A) (f : A → Outcome E B)
      → ((a : A) → Ensures Q (f a))
      → Ensures Q (m >>= f)
  unfolding ◌>>=◌
  bind_any-Ensures Q (ok a) f k = k a
  bind_any-Ensures Q (err e) f k = tt

  pub Ensures-ok : (P : A → Type 0) (m : Outcome E A) (a : A) → Ensures P m → m ≡ ok a → P a
  Ensures-ok P (ok b) a h e = let same : b ≡ a = cc in subst P same h
  Ensures-ok P (err b) a h e = cc

module _ {E B : Type 0} where
  pub throw_if-Ensures :
      (Q : B → Type 0) (b : Bool) (e : E) (m : Outcome E B)
      → (b ≡ false → Ensures Q m)
      → Ensures Q (throw_if b e >> m)
  unfolding throw_if ◌>>◌
  throw_if-Ensures Q true e m k = tt
  throw_if-Ensures Q false e m k = k refl

  pub seq-Ensures :
      {A : Type 0} (Q : B → Type 0) (m : Outcome E A) (k : Outcome E B)
      → Ensures Q k
      → Ensures Q (m >> k)
  unfolding ◌>>◌ ◌>>=◌
  seq-Ensures Q (ok a) k h = h
  seq-Ensures Q (err e) k h = tt

  pub if-Ensures :
      (Q : B → Type 0) (b : Bool) (m n : Outcome E B)
      → (b ≡ true → Ensures Q m)
      → (b ≡ false → Ensures Q n)
      → Ensures Q (if b then m else n)
  if-Ensures Q true m n h k = h refl
  if-Ensures Q false m n h k = k refl

-- The rule for a result that is there, with its equation
pub bind_eq-Ensures :
    {E A B : Type 0} (Q : B → Type 0) (m : Outcome E A) (f : A → Outcome E B)
    → ((a : A) → m ≡ ok a → Ensures Q (f a))
    → Ensures Q (m >>= f)
unfolding ◌>>=◌
bind_eq-Ensures Q (ok a) f k = k a refl
bind_eq-Ensures Q (err e) f k = tt
