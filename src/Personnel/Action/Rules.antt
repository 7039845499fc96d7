-- ===== src/Personnel/Action/Rules.antt =====
-- What holds between the state before a call and the state after it, for a relation that is
-- reflexive and transitive, and that a rollback keeps.
use dsh_backend_team.Base.{none, some, true, false, some, Option, Bool, arith, ◌≡◌, refl}
use dsh_backend_team.Personnel.Rows.{PersonnelError}
use dsh_backend_team.Personnel.Action.{
  next_id, read_clock, or_throw, throw_if, gets, pure, ◌>>◌, throw, lift, Context, World, Result,
  ok, err, Action, ◌>>=◌, transaction,
}

-- Two states with the same tables.
pub record SameTables (w w' : World) : Type 0 where
  pub persons : w'.persons ≡ w.persons
  pub assignments : w'.assignments ≡ w.assignments
  pub change_records : w'.change_records ≡ w.change_records

-- A relation on states for the rules below.
pub record Preorder (R : World → World → Type 0) : Type 0 where
  pub same : (w w' : World) → SameTables w w' → R w w'
  pub trans : (u v w : World) → R u v → R v w → R u w

-- The call leads only to related states, whether it returns or throws.
pub record Respects (R : World → World → Type 0) {A : Type 0} (m : Action A) : Type 0 where
  pub step : (w : World) → R w (m w).1

abbrev unchanged : (w : World) → SameTables w w
unchanged w = record { persons = refl; assignments = refl; change_records = refl }

module _ {R : World → World → Type 0} (o : Preorder R) where
  then_Respects :
      {A B : Type 0} (f : A → Action B)
      → ((a : A) → Respects R (f a))
      → (w : World) (r : Result A) (w' : World) → R w w'
      → R w ((λ (v : World). ◌>>=◌ (λ (u : World). (r, w')) f v) w).1
  unfolding ◌>>=◌
  then_Respects f k w (ok a) w' h = o.trans w w' (f a w').1 h ((k a).step w')
  then_Respects f k w (err e) w' h = h

  pub bind-Respects :
      {A B : Type 0} (m : Action A) (f : A → Action B)
      → Respects R m
      → ((a : A) → Respects R (f a))
      → Respects R (m >>= f)
  unfolding ◌>>=◌
  bind-Respects m f h k = record { step = λ w. then_Respects f k w (m w).0 (m w).1 (h.step w) }

  pub seq-Respects :
      {A B : Type 0} (m : Action A) (n : Action B)
      → Respects R m
      → Respects R n
      → Respects R (m >> n)
  unfolding ◌>>◌
  seq-Respects m n h k = bind-Respects m (λ _. n) h (λ _. k)

  pub pure-Respects : {A : Type 0} (a : A) → Respects R (pure a)
  unfolding pure
  pure-Respects a = record { step = λ w. o.same w w (unchanged w) }

  pub throw-Respects : (A : Type 0) (e : PersonnelError) → Respects R (throw {A = A} e)
  unfolding throw
  throw-Respects A e = record { step = λ w. o.same w w (unchanged w) }

  pub gets-Respects : {A : Type 0} (f : World → A) → Respects R (gets f)
  unfolding gets
  gets-Respects f = record { step = λ w. o.same w w (unchanged w) }

  pub lift-Respects : {A : Type 0} (r : Result A) → Respects R (lift r)
  unfolding lift
  lift-Respects r = record { step = λ w. o.same w w (unchanged w) }

  pub next_id-Respects : (c : Context) → Respects R (next_id c)
  unfolding next_id
  next_id-Respects c = record {
    step = λ w.
        o.same w (next_id c w).1
          (record { persons = refl; assignments = refl; change_records = refl });
  }

  pub read_clock-Respects : (c : Context) → Respects R (read_clock c)
  unfolding read_clock
  read_clock-Respects c = record {
    step = λ w.
        o.same w (read_clock c w).1
          (record { persons = refl; assignments = refl; change_records = refl });
  }

  pub or_throw-Respects :
      {A : Type 0} (a : Option A) (e : PersonnelError) → Respects R (or_throw a e)
  unfolding or_throw
  or_throw-Respects {A} none e = throw-Respects A e
  or_throw-Respects (some a) e = pure-Respects a

  pub throw_if-Respects : (b : Bool) (e : PersonnelError) → Respects R (throw_if b e)
  unfolding throw_if
  throw_if-Respects true e = record { step = λ w. o.same w w (unchanged w) }
  throw_if-Respects false e = record { step = λ w. o.same w w (unchanged w) }

  rollback :
      {A : Type 0} (w : World) (r : Result A) (w' : World)
      → R w w'
      → R w (transaction (λ (u : World). (r, w')) w).1
  unfolding transaction
  rollback w (ok a) w' h = h
  rollback w (err e) w' h =
      o.same w _ (record { persons = refl; assignments = refl; change_records = refl })

  pub transaction-Respects : {A : Type 0} (m : Action A) → Respects R m → Respects R (transaction m)
  unfolding transaction
  transaction-Respects m h = record { step = λ w. rollback w (m w).0 (m w).1 (h.step w) }

pub ruleset respects = (
  bind-Respects, seq-Respects, pure-Respects, throw-Respects, gets-Respects, lift-Respects,
  next_id-Respects, read_clock-Respects, or_throw-Respects, throw_if-Respects, transaction-Respects,
)

-- A transaction that throws leaves the three tables as they were.
pub transaction_atomic :
    {A : Type 0} (m : Action A) (w : World) (e : PersonnelError)
    → (transaction m w).0 ≡ err e
    → SameTables w (transaction m w).1
unfolding transaction
transaction_atomic m w e h = ground arith
