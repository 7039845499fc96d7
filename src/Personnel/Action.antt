-- ===== src/Personnel/Action.antt =====
-- A call on the store: state and exceptions. The state comes back after a throw too, since what
-- was written stays written unless a transaction restores it.
pub mod Inversion
pub mod Rules
use dsh_backend_team.Base.{ℕ, suc, Bool, true, false, Option, none, some, List, [], Text}
use dsh_backend_team.Personnel.Rows.{
  PersonRow, AssignmentRow, ChangeRecordRow, ErrorCode, PersonnelError,
}

-- The three tables of `InMemoryPersonnelStore`, and how many identifiers and clock readings the
-- context has given out.
pub record World : Type 0 where
  pub persons : List PersonRow
  pub assignments : List AssignmentRow
  pub change_records : List ChangeRecordRow
  pub drawn : ℕ
  pub ticks : ℕ

-- What a caller injects: the operator, and the successive results of `idFactory` and `clock`
-- (of `randomUUID` and the system clock where they are left out).
pub record Context : Type 0 where
  pub operator_id : Option Text
  pub operator_name : Option Text
  pub id_factory : ℕ → Text
  pub clock : ℕ → Text
  pub today : Option Text

pub data Result {ℓ} (A : Type ℓ) : Type ℓ where
  ok : A → Result A
  err : PersonnelError → Result A

abbrev pub Action : Type 0 → Type 0
Action A = World → Result A × World

module _ {A : Type 0} where
  unfoldable pub pure : A → Action A
  pure a w = (ok a, w)

  unfoldable pub throw : PersonnelError → Action A
  throw e w = (err e, w)

  unfoldable pub gets : (World → A) → Action A
  gets f w = (ok (f w), w)

  -- The value that is there, or an error for `null`.
  unfoldable pub or_throw : Option A → PersonnelError → Action A
  unfolding throw pure
  or_throw none e = throw e
  or_throw (some a) _ = pure a

  unfoldable pub lift : Result A → Action A
  lift r w = (r, w)

infixl 5 ◌>>=◌ ◌>>◌
unfoldable pub ◌>>=◌ : {A B : Type 0} → Action A → (A → Action B) → Action B
unfolding throw
◌>>=◌ m f w = let (r, w') = m w in elim r [ ok a ↦ f a w' | err e ↦ throw e w' ]

unfoldable pub ◌>>◌ : {A B : Type 0} → Action A → Action B → Action B
unfolding ◌>>=◌
m >> k = m >>= λ _. k

unfoldable pub modify : (World → World) → Action (Unit {0})
modify f w = (ok tt, f w)

unfoldable pub throw_if : Bool → PersonnelError → Action (Unit {0})
throw_if true e w = (err e, w)
throw_if false e w = (ok tt, w)

-- `if (c) throw e` in code that reads no state.
abbrev pub guard : Bool → PersonnelError → Result (Unit {0}) → Result (Unit {0})
guard true e rest = err e
guard false e rest = rest

-- `new PersonnelError(code, …, { conflictRef })`
abbrev pub error : ErrorCode → Option Text → PersonnelError
error c ref = record { code = c; field_errors = []; conflict_ref = ref }

-- `new PersonnelError('validation_failed', …, { fieldErrors })`
abbrev pub invalid : List Text → PersonnelError
invalid fields = record {
  code = ErrorCode.validation_failed;
  field_errors = fields;
  conflict_ref = none;
}

-- `constraintFailed`
abbrev pub constraint_failed : Option Text → PersonnelError
constraint_failed ref = error ErrorCode.conflict ref

-- `context.idFactory()`
unfoldable pub next_id : Context → Action Text
next_id c w = (ok (c.id_factory w.drawn), record w { drawn = suc w.drawn })

-- `context.clock()`
unfoldable pub read_clock : Context → Action Text
read_clock c w = (ok (c.clock w.ticks), record w { ticks = suc w.ticks })

-- `transaction`: what `fn` throws restores the three tables.
unfoldable pub transaction : {A : Type 0} → Action A → Action A
transaction fn w =
    let (r, w') = fn w in
    elim r [
      | ok a ↦ (ok a, w')
      | err e ↦ (
        err e,
        record w' {
          persons = w.persons;
          assignments = w.assignments;
          change_records = w.change_records;
        },
      )
    ]
