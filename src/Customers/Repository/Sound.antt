-- ===== src/Customers/Repository/Sound.antt =====
-- Every method of src/customers/persistence/memory-customer-repository.ts keeps the invariant.
use mathlib.Core.Path.{subst}
use dsh_backend_team.Base.{
  nat_eq, not, ◌≡◌, refl, false, Option, none, some, List, [], ◌∷◌, Text, ◌==◌, ap, ◌∙◌, sym,
  Option-cases, inl, inr, lookup, lookup-All_entry, set, All, All-map, find, is_some, arith,
}
use dsh_backend_team.Base.Outcomes.{Outcome, ok, err, Ensures, bind-Ensures, if-Ensures}
use dsh_backend_team.Customers.Changelog.{ChangeLogEntry}
use dsh_backend_team.Customers.Repository.{
  CustomerRecord, CustomerInsertInput, CustomerVersionedUpdateInput, CustomerUpdateResult,
  RepositoryError, ResolvedColumns,
}
use dsh_backend_team.Customers.Repository.Calls.{
  Repository, values, inserted_row, check_unique, unless_owned, write_row, insert, is_phone_owner,
  updated_row, updated_of, write_update, update_checked, check_update, update_versioned,
  log_applied,
}
use dsh_backend_team.Customers.Repository.Invariant.{
  IsRow, IsEntry, IsSound, set-IsSound, AreSound, resolve_columns-AreSound, inserted_row-IsRow,
  All-values,
}

-- What the checks of a new row have found.
abbrev IsFree : List (Text × CustomerRecord) → CustomerRecord → Type 0
IsFree rows row =
    IsRow row
    × All (λ e. (e.0 == row.customer_id) ≡ false → (e.1.phone_key == row.phone_key) ≡ false) rows

write_row-IsSound :
    (o : Outcome RepositoryError CustomerRecord) (repository : Repository)
    → Ensures (IsFree repository.rows) o
    → IsSound repository.rows
    → IsSound (write_row o repository).1.rows
write_row-IsSound (ok row) repository h s = set-IsSound repository.rows row h.0 h.1 s
write_row-IsSound (err e) repository h s = s

pub unless_owned-Ensures :
    (row : CustomerRecord) (Q : CustomerRecord → Type 0) (found : Option CustomerRecord)
    → (found ≡ none → Q row)
    → Ensures Q (unless_owned row found)
unless_owned-Ensures row Q none h = h refl
unless_owned-Ensures row Q (some owner) h = tt

check_unique-IsFree :
    (rows : List (Text × CustomerRecord)) (row : CustomerRecord)
    → IsRow row
    → Ensures (IsFree rows) (check_unique rows row)
unfolding check_unique
check_unique-IsFree rows row h =
    if-Ensures (IsFree rows) (is_some (lookup row.customer_id rows)) _ _ (λ e. tt)
      (λ e. unless_owned-Ensures row (IsFree rows) _ (λ k. (
        h,
        All-map (λ entry f g. f) rows
            (All-values (λ stored. stored.phone_key == row.phone_key) rows k),
      )))

pub insert-IsSound :
    (derive : Option (Text → Text)) (input : CustomerInsertInput) (repository : Repository)
    → IsSound repository.rows
    → IsSound (insert derive input repository).1.rows
unfolding insert
insert-IsSound derive input repository s =
    write_row-IsSound _ repository
      (bind-Ensures IsRow (IsFree repository.rows) (inserted_row derive input)
        (check_unique repository.rows) (inserted_row-IsRow derive input)
        (check_unique-IsFree repository.rows))
      s

-- What the checks of an update have found of the row that replaces the stored one.
abbrev Replaces : Text → List (Text × CustomerRecord) → Option CustomerRecord → Type 0
Replaces customer_id rows none = Unit
Replaces customer_id rows (some row) = (row.customer_id ≡ customer_id) × IsFree rows row

write_update-IsSound :
    (customer_id : Text) (o : Outcome RepositoryError (Option CustomerRecord))
    (repository : Repository)
    → Ensures (Replaces customer_id repository.rows) o
    → IsSound repository.rows
    → IsSound (write_update customer_id o repository).1.rows
write_update-IsSound customer_id (ok none) repository h s = s
write_update-IsSound customer_id (ok (some row)) repository h s =
    subst (λ id. IsSound (set id row repository.rows)) h.0
      (set-IsSound repository.rows row h.1.0 h.1.1 s)
write_update-IsSound customer_id (err e) repository h s = s

updated_row-IsRow :
    (stored : CustomerRecord) (columns : ResolvedColumns) (updated_by updated_at : Text)
    → IsRow stored
    → AreSound columns
    → IsRow (updated_row stored columns updated_by updated_at)
updated_row-IsRow stored columns updated_by updated_at h c = record {
  identified = h.identified;
  reachable = c.0;
  named = c.1;
  short = c.2;
  versioned = omega arith;
}

-- The stored row itself is not among the owners that the search looks for.
pub free_of_owner :
    (row : CustomerRecord) (rows : List (Text × CustomerRecord))
    → All IsEntry rows
    → All (λ e. is_phone_owner row e.1 ≡ false) rows
    → All (λ e. (e.0 == row.customer_id) ≡ false → (e.1.phone_key == row.phone_key) ≡ false) rows
free_of_owner row [] h k = tt
free_of_owner row (e ∷ rows) h k = (
  (λ other.
      let same : (e.1.customer_id == row.customer_id) ≡ false =
        subst (λ id. (id == row.customer_id) ≡ false) h.0.0 other in
      ground (arith, k, same)),
  free_of_owner row rows h.1 k.1,
)

updated_of-Replaces :
    (derive : Option (Text → Text)) (input : CustomerVersionedUpdateInput)
    (rows : List (Text × CustomerRecord)) (stored : CustomerRecord)
    → All IsEntry rows
    → IsEntry (input.customer_id, stored)
    → Ensures (Replaces input.customer_id rows) (updated_of derive input rows stored)
unfolding updated_of
updated_of-Replaces derive input rows stored h k =
    bind-Ensures AreSound (Replaces input.customer_id rows) _ _
      (resolve_columns-AreSound derive (some stored) input.patch k.1)
      (λ columns sound.
        let row = updated_row stored columns input.updated_by input.updated_at in
        if-Ensures (Replaces input.customer_id rows)
          (not (nat_eq stored.version input.expected_version)) (ok none) _ (λ _. tt)
          (λ _.
            bind-Ensures (λ r. (r ≡ row) × IsFree rows r) (Replaces input.customer_id rows) _
              (λ r. ok (some r))
              (unless_owned-Ensures row (λ r. (r ≡ row) × IsFree rows r)
                (find (is_phone_owner row) (values rows))
                (λ none_found. (
                  refl,
                  (
                    updated_row-IsRow stored columns input.updated_by input.updated_at k.1 sound,
                    free_of_owner row rows h (All-values (is_phone_owner row) rows none_found),
                  ),
                )))
              (λ r free. (ap (λ c. c.customer_id) free.0 ∙ sym k.0, free.1))))

update_checked-IsSound :
    (derive : Option (Text → Text)) (input : CustomerVersionedUpdateInput) (repository : Repository)
    (checked : Outcome RepositoryError (Unit {0}))
    → IsSound repository.rows
    → IsSound (update_checked derive input repository checked).1.rows
update_checked-IsSound derive input repository (err e) s = s
update_checked-IsSound derive input repository (ok u) s =
    elim (Option-cases (lookup input.customer_id repository.rows)) [
      | inl missing ↦ rw missing s
      | inr (stored, found) ↦ rw found (
          write_update-IsSound input.customer_id _ repository
            (updated_of-Replaces derive input repository.rows stored s.entries
              (lookup-All_entry IsEntry input.customer_id stored repository.rows s.entries found))
            s)
    ]

pub update_versioned-IsSound :
    (derive : Option (Text → Text)) (input : CustomerVersionedUpdateInput) (repository : Repository)
    → IsSound repository.rows
    → IsSound (update_versioned derive input repository).1.rows
unfolding update_versioned
update_versioned-IsSound derive input repository s =
    update_checked-IsSound derive input repository (check_update input) s

-- Logging writes no row.
pub log_applied-rows :
    (customer_id : Text) (entries : List ChangeLogEntry)
    (result : Outcome RepositoryError CustomerUpdateResult × Repository)
    → (log_applied customer_id entries result).1.rows ≡ result.1.rows
log_applied-rows customer_id [] (r, repository) = refl
log_applied-rows customer_id (e ∷ es) (ok (CustomerUpdateResult.applied row), repository) = refl
log_applied-rows customer_id (e ∷ es) (ok (CustomerUpdateResult.not_applied b), repository) = refl
log_applied-rows customer_id (e ∷ es) (err e', repository) = refl
