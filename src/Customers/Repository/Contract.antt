-- ===== src/Customers/Repository/Contract.antt =====
-- What `updateVersioned` of src/customers/persistence/memory-customer-repository.ts promises: a
-- compare-and-set on the table as a partial function from identifiers to rows.
use mathlib.Core.Path.{subst}
use mathlib.Core.Option.{some-injective}
use dsh_backend_team.Base.{
  ◌+◌, ◌≡◌, ◌≢◌, refl, ap, sym, ◌∙◌, Bool, true, false, not, Option, none, some, List, Text, ◌==◌,
  ==_refl, nat_eq, lookup, lookup-set, if_match, lookup-All_entry, All, find, if◌then◌else◌, arith,
}
use dsh_backend_team.Base.Outcomes.{Outcome, ok, err, ◌>>=◌, Ensures, if-Ensures, bind-Ensures}
use dsh_backend_team.Customers.Repository.{
  CustomerRecord, CustomerVersionedUpdateInput, CustomerUpdateResult, applied, not_applied,
  RepositoryError, ResolvedColumns, resolve_columns,
}
use dsh_backend_team.Customers.Repository.Calls.{
  Repository, values, unless_owned, is_phone_owner, updated_row, updated_of, write_update,
  update_found, update_checked, check_update, update_versioned,
}
use dsh_backend_team.Customers.Repository.Invariant.{IsEntry, IsSound, All-values}
use dsh_backend_team.Customers.Repository.Sound.{
  update_versioned-IsSound, free_of_owner, unless_owned-Ensures,
}

-- The abstract table, which forgets the order of the rows.
abbrev pub View : Type 0
View = Text → Option CustomerRecord

abbrev pub view : Repository → View
view repository id = lookup id repository.rows

-- What may come of an update, and the table after it.
pub data Allowed (derive : Option (Text → Text)) (input : CustomerVersionedUpdateInput)
    (before : View) : Outcome RepositoryError CustomerUpdateResult → View → Type 0 where
  missing :
      {after : View}
      → before input.customer_id ≡ none
      → ((j : Text) → after j ≡ before j)
      → Allowed derive input before (ok (not_applied false)) after
  stale :
      {after : View} (stored : CustomerRecord)
      → before input.customer_id ≡ some stored
      → stored.version ≢ input.expected_version
      → ((j : Text) → after j ≡ before j)
      → Allowed derive input before (ok (not_applied true)) after
  written :
      {after : View} (stored row : CustomerRecord) (columns : ResolvedColumns)
      → before input.customer_id ≡ some stored
      → stored.version ≡ input.expected_version
      → resolve_columns derive (some stored) input.patch ≡ ok columns
      → row ≡ updated_row stored columns input.updated_by input.updated_at
      → ((j : Text) (other : CustomerRecord)
          → before j ≡ some other
          → (j == input.customer_id) ≡ false
          → (other.phone_key == row.phone_key) ≡ false)
      → ((j : Text) → after j ≡ (if input.customer_id == j then some row else before j))
      → Allowed derive input before (ok (applied row)) after
  thrown :
      {after : View} (e : RepositoryError)
      → ((j : Text) → after j ≡ before j)
      → Allowed derive input before (err e) after

module _ (derive : Option (Text → Text)) (input : CustomerVersionedUpdateInput)
    (rows : List (Text × CustomerRecord)) (stored : CustomerRecord) where
  -- What the computation of the new row has found.
  abbrev Specified : Option CustomerRecord → Type 0
  Specified none = stored.version ≢ input.expected_version
  Specified (some row) =
      (stored.version ≡ input.expected_version)
      × ((columns : ResolvedColumns) × (resolve_columns derive (some stored) input.patch
            ≡ ok columns)
          × (row ≡ updated_row stored columns input.updated_by input.updated_at))
      × All (λ e. (e.0 == row.customer_id) ≡ false → (e.1.phone_key == row.phone_key) ≡ false) rows

  updated_of-Specified : All IsEntry rows → Ensures Specified (updated_of derive input rows stored)
  unfolding updated_of ◌>>=◌
  updated_of-Specified h = go (resolve_columns derive (some stored) input.patch) refl
    where
      go :
          (r : Outcome RepositoryError ResolvedColumns)
          → resolve_columns derive (some stored) input.patch ≡ r
          → Ensures Specified (
              r >>= λ columns.
              if not (nat_eq stored.version input.expected_version)
              then ok none
              else (unless_owned (updated_row stored columns input.updated_by input.updated_at) (
                    find
                      (is_phone_owner
                        (updated_row stored columns input.updated_by input.updated_at))
                      (values rows))
                  >>= λ row. ok (some row)))
      go (err e) k = tt
      go (ok columns) k =
          let row = updated_row stored columns input.updated_by input.updated_at in
          if-Ensures Specified (not (nat_eq stored.version input.expected_version)) (ok none) _
            (λ e. ground (arith, e))
            (λ e.
              bind-Ensures
                (λ r.
                  (r ≡ row)
                  × All
                      (λ x. (x.0 == r.customer_id) ≡ false → (x.1.phone_key == r.phone_key) ≡ false)
                      rows)
                Specified _ (λ r. ok (some r))
                (unless_owned-Ensures row _ (find (is_phone_owner row) (values rows)) (λ free.
                  (refl, free_of_owner row rows h (All-values (is_phone_owner row) rows free))))
                (λ r made. (ground (arith, e), (columns, k, made.0), made.1)))

pub if_match-eq-if :
    (b : Bool) (row : CustomerRecord) (rest : Option CustomerRecord)
    → if_match b row rest ≡ (if b then some row else rest)
if_match-eq-if true row rest = refl
if_match-eq-if false row rest = refl

module _ (derive : Option (Text → Text)) (input : CustomerVersionedUpdateInput)
    (repository : Repository) (stored : CustomerRecord) where
  write_update-Allowed :
      (o : Outcome RepositoryError (Option CustomerRecord))
      → lookup input.customer_id repository.rows ≡ some stored
      → stored.customer_id ≡ input.customer_id
      → Ensures (Specified derive input repository.rows stored) o
      → Allowed derive input
          (view repository)
          (write_update input.customer_id o repository).0
          (view (write_update input.customer_id o repository).1)
  write_update-Allowed (ok none) found named h = Allowed.stale stored found h (λ j. refl)
  write_update-Allowed (ok (some row)) found named h =
      let id : row.customer_id ≡ input.customer_id = ap (λ r. r.customer_id) h.1.2 ∙ named in
      Allowed.written stored row h.1.0 found h.0 h.1.1 h.1.2
        (λ j other there differs.
          lookup-All_entry
            (λ e. (e.0 == row.customer_id) ≡ false → (e.1.phone_key == row.phone_key) ≡ false) j
            other repository.rows h.2 there (subst (λ k. (j == k) ≡ false) (sym id) differs))
        (λ j.
          lookup-set j input.customer_id row repository.rows
          ∙ if_match-eq-if (input.customer_id == j) row (lookup j repository.rows))
  write_update-Allowed (err e) found named h = Allowed.thrown e (λ j. refl)

update_checked-Allowed :
    (derive : Option (Text → Text)) (input : CustomerVersionedUpdateInput) (repository : Repository)
    (checked : Outcome RepositoryError (Unit {0}))
    → IsSound repository.rows
    → Allowed derive input
        (view repository)
        (update_checked derive input repository checked).0
        (view (update_checked derive input repository checked).1)
update_checked-Allowed derive input repository (err e) s = Allowed.thrown e (λ j. refl)
update_checked-Allowed derive input repository (ok u) s =
    go (lookup input.customer_id repository.rows) refl
  where
    go :
        (found : Option CustomerRecord)
        → lookup input.customer_id repository.rows ≡ found
        → Allowed derive input
            (view repository)
            (update_found derive input repository found).0
            (view (update_found derive input repository found).1)
    go none e = Allowed.missing e (λ j. refl)
    go (some stored) e =
        write_update-Allowed derive input repository stored
          (updated_of derive input repository.rows stored) e
          (sym (lookup-All_entry IsEntry input.customer_id stored repository.rows s.entries e).0)
          (updated_of-Specified derive input repository.rows stored s.entries)

-- On a table that keeps its invariant `updateVersioned` is a compare-and-set: it writes only where
-- the stored version is the expected one, then exactly the resolved columns with the version
-- raised by one, and only where no other customer has the key of the new phone; where the
-- identifier is unknown, the version another one or an error is thrown, nothing changes.
pub update_versioned-Allowed :
    (derive : Option (Text → Text)) (input : CustomerVersionedUpdateInput) (repository : Repository)
    → IsSound repository.rows
    → Allowed derive input
        (view repository)
        (update_versioned derive input repository).0
        (view (update_versioned derive input repository).1)
unfolding update_versioned
update_versioned-Allowed derive input repository s =
    update_checked-Allowed derive input repository (check_update input) s

-- A second update that expects the version of the first is stale or fails.
refused_after :
    (derive : Option (Text → Text)) (second : CustomerVersionedUpdateInput) (before after : View)
    (o : Outcome RepositoryError CustomerUpdateResult) (row : CustomerRecord)
    → before second.customer_id ≡ some row
    → row.version ≡ second.expected_version + 1
    → Allowed derive second before o after
    → ((j : Text) → after j ≡ before j) × ((r : CustomerRecord) → o ≢ ok (applied r))
refused_after derive second before after o row found higher (Allowed.missing e same) =
    (same, λ r. ground arith)
refused_after derive second before after o row found higher (Allowed.stale stored e ne same) =
    (same, λ r. ground arith)
refused_after derive second before after o row found higher
      (Allowed.written stored new columns e v c m f w) =
    let same : row ≡ stored = some-injective row stored (sym found ∙ e) in
    absurd (omega (arith, ap (λ r. r.version) same, v, higher))
refused_after derive second before after o row found higher (Allowed.thrown e same) =
    (same, λ r. ground arith)

written_row :
    (derive : Option (Text → Text)) (first : CustomerVersionedUpdateInput) (before after : View)
    (o : Outcome RepositoryError CustomerUpdateResult) (row : CustomerRecord)
    → Allowed derive first before o after
    → o ≡ ok (applied row)
    → (after first.customer_id ≡ some row) × (row.version ≡ first.expected_version + 1)
written_row derive first before after o row (Allowed.missing e same) k = absurd (ground arith)
written_row derive first before after o row (Allowed.stale stored e ne same) k =
    absurd (ground arith)
written_row derive first before after o row (Allowed.written stored new columns e v c m f w) k =
    let same : new ≡ row = cc in
    subst (λ r. (after first.customer_id ≡ some r) × (r.version ≡ first.expected_version + 1)) same
      (
        w first.customer_id
            ∙ ap (λ b. if b then some new else before first.customer_id)
                (==_refl first.customer_id),
        ap (λ r. r.version) m ∙ ap (λ n. n + 1) v,
      )
written_row derive first before after o row (Allowed.thrown e same) k = absurd (ground arith)

-- No update is lost: where one update of a customer has been written, another one that expects the
-- same version is not applied, whatever it submits, and changes nothing.
pub update_versioned-no_lost_update :
    (derive : Option (Text → Text)) (first second : CustomerVersionedUpdateInput)
    (repository : Repository) (row : CustomerRecord)
    → IsSound repository.rows
    → second.customer_id ≡ first.customer_id
    → second.expected_version ≡ first.expected_version
    → (update_versioned derive first repository).0 ≡ ok (applied row)
    → ((j : Text)
        → view (update_versioned derive second (update_versioned derive first repository).1).1 j
          ≡ view (update_versioned derive first repository).1 j)
      × ((r : CustomerRecord)
          → (update_versioned derive second (update_versioned derive first repository).1).0
            ≢ ok (applied r))
update_versioned-no_lost_update derive first second repository row s id version h =
    let after = (update_versioned derive first repository).1 in
    let (stored, raised) =
      written_row derive first (view repository) (view after) _ row
        (update_versioned-Allowed derive first repository s) h in
    refused_after derive second (view after) _ _ row (ap (view after) id ∙ stored)
      (raised ∙ ap (λ n. n + 1) (sym version))
      (update_versioned-Allowed derive second after
        (update_versioned-IsSound derive first repository s))
