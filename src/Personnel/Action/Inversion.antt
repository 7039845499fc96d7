-- ===== src/Personnel/Action/Inversion.antt =====
-- What a call that returned says of its steps.
use dsh_backend_team.Base.{◌≡◌, refl, Bool, true, false, Option, none, some, arith}
use dsh_backend_team.Personnel.Rows.{PersonnelError}
use dsh_backend_team.Personnel.Action.{
  World, Result, ok, err, Action, gets, or_throw, lift, throw_if, transaction, ◌>>=◌, ◌>>◌, throw,
  pure,
}

-- The call returns this value from this state.
abbrev pub Returns : {A : Type 0} → Action A → World → A → Type 0
Returns m w a = (m w).0 ≡ ok a

module _ {A B : Type 0} where
  pub bind-Returns :
      (m : Action A) (f : A → Action B) (w : World) (b : B)
      → Returns (m >>= f) w b
      → (a : A) × (Returns m w a × Returns (f a) (m w).1 b)
  unfolding ◌>>=◌ throw
  bind-Returns m f w b h = go (m w) h
    where
      go :
          (o : Result A × World)
          → (elim o.0 as (λ _. Result B × World) [ ok a ↦ f a o.1 | err e ↦ throw e o.1 ]).0 ≡ ok b
          → (a : A) × ((o.0 ≡ ok a) × ((f a o.1).0 ≡ ok b))
      go (ok a, w') h = (a, (refl, h))
      go (err e, w') h = ground arith

  pub gets-Returns :
      (g : World → A) (f : A → Action B) (w : World) (b : B)
      → Returns (gets g >>= f) w b
      → Returns (f (g w)) w b
  unfolding ◌>>=◌ gets
  gets-Returns g f w b h = h

  pub or_throw-Returns :
      (o : Option A) (e : PersonnelError) (f : A → Action B) (w : World) (b : B)
      → Returns (or_throw o e >>= f) w b
      → (a : A) × ((o ≡ some a) × Returns (f a) w b)
  unfolding ◌>>=◌ or_throw pure throw
  or_throw-Returns none e f w b h = ground arith
  or_throw-Returns (some a) e f w b h = (a, (refl, h))

  pub lift-Returns :
      (r : Result A) (f : A → Action B) (w : World) (b : B)
      → Returns (lift r >>= f) w b
      → (a : A) × ((r ≡ ok a) × Returns (f a) w b)
  unfolding ◌>>=◌ lift throw
  lift-Returns (ok a) f w b h = (a, (refl, h))
  lift-Returns (err e) f w b h = ground arith

  pub seq-Returns :
      (m : Action A) (k : Action B) (w : World) (b : B)
      → Returns (m >> k) w b
      → (a : A) × (Returns m w a × Returns k (m w).1 b)
  unfolding ◌>>◌
  seq-Returns m k w b h = bind-Returns m (λ _. k) w b h

module _ {B : Type 0} where
  pub throw_if-Returns :
      (t : Bool) (e : PersonnelError) (k : Action B) (w : World) (b : B)
      → Returns (throw_if t e >> k) w b
      → (t ≡ false) × Returns k w b
  unfolding ◌>>◌ ◌>>=◌ throw_if throw
  throw_if-Returns true e k w b h = ground arith
  throw_if-Returns false e k w b h = (refl, h)

  pub transaction-Returns :
      (m : Action B) (w : World) (b : B) → Returns (transaction m) w b → Returns m w b
  unfolding transaction
  transaction-Returns m w b h = ground arith

  pub pure-Returns : (a b : B) (w : World) → Returns (pure a) w b → a ≡ b
  unfolding pure
  pure-Returns a b w h = ground arith
