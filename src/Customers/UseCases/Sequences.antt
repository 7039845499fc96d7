-- ===== src/Customers/UseCases/Sequences.antt =====
-- Sequences of calls of `createCustomer` and `updateCustomer` of src/customers/application.
use mathlib.Core.Path.{subst}
use dsh_backend_team.Base.{
  inr, inl, ◌⊎◌, ◌≡◌, refl, sym, true, false, Option, none, some, List, [], ◌∷◌, Text, lookup,
  arith,
}
use dsh_backend_team.Base.Outcomes.{Outcome, ok, err}
use dsh_backend_team.Json.{Fields}
use dsh_backend_team.Customers.Customer.{Customer}
use dsh_backend_team.Customers.Changelog.{ChangeLogEntry}
use dsh_backend_team.Customers.Repository.{
  CustomerRecord, CustomerInsertInput, CustomerVersionedUpdateInput, CustomerUpdateResult, applied,
  not_applied, RepositoryError,
}
use dsh_backend_team.Customers.Repository.Calls.{
  Repository, log_applied, insert, write_row, update_versioned, update_versioned_with_changes,
  update_checked, update_found, write_update, updated_of, check_update,
}
use dsh_backend_team.Customers.Repository.Invariant.{IsSound}
use dsh_backend_team.Customers.Repository.Sound.{
  insert-IsSound, update_versioned-IsSound, log_applied-rows,
}
use dsh_backend_team.Customers.UseCases.{
  UseCaseError, UpdateRequest, Prepared, to_insert_input, created_customer, as_created,
  insert_created, create_customer, prepare_update, update_input, as_updated, write_prepared,
  update_read, update_customer, undisturbed,
}

pub data Call : Type 0 where
  creation : (phone_key_for : Option (Text → Text)) → Fields → (actor new_id now : Text) → Call
  change : UpdateRequest → Call

abbrev pub error_of :
    {A : Type 0} → Outcome UseCaseError A × Repository → Option UseCaseError × Repository
error_of (ok a, after) = (none, after)
error_of (err e, after) = (some e, after)

-- What a call throws, if anything, and the repository after it; the calls come one after the other.
unfoldable pub call : Option (Text → Text) → Call → Repository → Option UseCaseError × Repository
call derive (Call.creation phone_key_for draft actor new_id now) before =
    error_of (create_customer derive phone_key_for draft actor new_id now before)
call derive (Call.change request) before =
    error_of (update_customer derive request undisturbed before)

unfoldable pub after_all : Option (Text → Text) → List Call → Repository → Repository
after_all derive [] before = before
after_all derive (c ∷ cs) before = after_all derive cs (call derive c before).1

-- The new repository.
abbrev pub empty : Repository
empty = record { rows = []; changes = [] }

abbrev IsKept : Repository → Type 0
IsKept r = IsSound r.rows

module _ (derive : Option (Text → Text)) (before : Repository) (s : IsSound before.rows) where
  create_customer-IsSound :
      (phone_key_for : Option (Text → Text)) (draft : Fields) (actor new_id now : Text)
      → IsKept (error_of (create_customer derive phone_key_for draft actor new_id now before)).1
  unfolding create_customer
  create_customer-IsSound phone_key_for draft actor new_id now =
      go (created_customer draft actor new_id now)
    where
      inserted :
          (customer : Customer) (p : Outcome RepositoryError CustomerRecord × Repository)
          → IsKept p.1
          → IsKept (error_of (as_created customer p)).1
      inserted customer (ok row, after) h = h
      inserted customer (err e, after) h = h

      go :
          (o : Outcome UseCaseError Customer)
          → IsKept (error_of (insert_created derive phone_key_for before o)).1
      go (ok customer) =
          inserted customer (insert derive (to_insert_input phone_key_for customer) before)
            (insert-IsSound derive (to_insert_input phone_key_for customer) before s)
      go (err e) = s

  update_customer-IsSound :
      (request : UpdateRequest)
      → IsKept (error_of (update_customer derive request undisturbed before)).1
  unfolding update_customer update_versioned_with_changes
  update_customer-IsSound request = read (lookup request.customer_id before.rows)
    where
      updated :
          (prepared : Prepared) (p : Outcome RepositoryError CustomerUpdateResult × Repository)
          → IsKept p.1
          → IsKept (error_of (as_updated request prepared p)).1
      updated prepared (ok (applied row), after) h = h
      updated prepared (ok (not_applied true), after) h = h
      updated prepared (ok (not_applied false), after) h = h
      updated prepared (err e, after) h = h

      written :
          (o : Outcome UseCaseError Prepared)
          → IsKept (error_of (write_prepared derive request undisturbed before o)).1
      written (ok prepared) =
          let input = update_input request prepared.changes in
          let p = update_versioned derive input before in
          updated prepared (log_applied input.customer_id prepared.entries p) (
            subst IsSound (sym (log_applied-rows input.customer_id prepared.entries p))
              (update_versioned-IsSound derive input before s))
      written (err e) = s

      read :
          (o : Option CustomerRecord)
          → IsKept (error_of (update_read derive request undisturbed before o)).1
      read none = s
      read (some row) = written (prepare_update request row)

  call-IsSound : (c : Call) → IsSound (call derive c before).1.rows
  unfolding call
  call-IsSound (Call.creation phone_key_for draft actor new_id now) =
      create_customer-IsSound phone_key_for draft actor new_id now
  call-IsSound (Call.change request) = update_customer-IsSound request

-- Every sequence of creations and updates keeps the table well-formed: each row stands under its
-- own identifier, which has the shape of the contract, has a name of 1 to 100 code units, a key of
-- its phone and a version of at least 1, and no two rows have the same identifier or the same key.
pub after_all-IsSound :
    (derive : Option (Text → Text)) (cs : List Call) (before : Repository)
    → IsSound before.rows
    → IsSound (after_all derive cs before).rows
unfolding after_all
after_all-IsSound derive [] before s = s
after_all-IsSound derive (c ∷ cs) before s =
    after_all-IsSound derive cs (call derive c before).1 (call-IsSound derive before s c)

-- An update that is not applied leaves the repository as it was.
update_versioned-unwritten :
    (derive : Option (Text → Text)) (input : CustomerVersionedUpdateInput) (before : Repository)
    → ((row : CustomerRecord) × ((update_versioned derive input before).0 ≡ ok (applied row)))
      ⊎ ((update_versioned derive input before).1 ≡ before)
unfolding update_versioned
update_versioned-unwritten derive input before = checked (check_update input)
  where
    wrote :
        (o : Outcome RepositoryError (Option CustomerRecord))
        → ((row : CustomerRecord) × ((write_update input.customer_id o before).0
              ≡ ok (applied row)))
          ⊎ ((write_update input.customer_id o before).1 ≡ before)
    wrote (ok none) = inr refl
    wrote (ok (some row)) = inl (row, refl)
    wrote (err e) = inr refl

    found :
        (o : Option CustomerRecord)
        → ((row : CustomerRecord) × ((update_found derive input before o).0 ≡ ok (applied row)))
          ⊎ ((update_found derive input before o).1 ≡ before)
    found none = inr refl
    found (some stored) = wrote (updated_of derive input before.rows stored)

    checked :
        (o : Outcome RepositoryError (Unit {0}))
        → ((row : CustomerRecord) × ((update_checked derive input before o).0 ≡ ok (applied row)))
          ⊎ ((update_checked derive input before o).1 ≡ before)
    checked (err e) = inr refl
    checked (ok u) = found (lookup input.customer_id before.rows)

module _ (derive : Option (Text → Text)) (before : Repository) where
  insert-unwritten :
      (input : CustomerInsertInput) (e : RepositoryError)
      → (insert derive input before).0 ≡ err e
      → (insert derive input before).1 ≡ before
  unfolding insert
  insert-unwritten input e = go _
    where
      go :
          (o : Outcome RepositoryError CustomerRecord)
          → (write_row o before).0 ≡ err e
          → (write_row o before).1 ≡ before
      go (ok row) h = absurd (ground arith)
      go (err x) h = refl

  create_customer-unwritten :
      (phone_key_for : Option (Text → Text)) (draft : Fields) (actor new_id now : Text)
      (e : UseCaseError)
      → (error_of (create_customer derive phone_key_for draft actor new_id now before)).0 ≡ some e
      → (error_of (create_customer derive phone_key_for draft actor new_id now before)).1 ≡ before
  unfolding create_customer
  create_customer-unwritten phone_key_for draft actor new_id now e =
      go (created_customer draft actor new_id now)
    where
      inserted :
          (customer : Customer) (p : Outcome RepositoryError CustomerRecord × Repository)
          → ((x : RepositoryError) → p.0 ≡ err x → p.1 ≡ before)
          → (error_of (as_created customer p)).0 ≡ some e
          → (error_of (as_created customer p)).1 ≡ before
      inserted customer (ok row, after) h k = absurd (ground arith)
      inserted customer (err x, after) h k = h x refl

      go :
          (o : Outcome UseCaseError Customer)
          → (error_of (insert_created derive phone_key_for before o)).0 ≡ some e
          → (error_of (insert_created derive phone_key_for before o)).1 ≡ before
      go (ok customer) =
          inserted customer (insert derive (to_insert_input phone_key_for customer) before)
            (insert-unwritten (to_insert_input phone_key_for customer))
      go (err x) = λ h. refl

  update_customer-unwritten :
      (request : UpdateRequest) (e : UseCaseError)
      → (error_of (update_customer derive request undisturbed before)).0 ≡ some e
      → (error_of (update_customer derive request undisturbed before)).1 ≡ before
  unfolding update_customer update_versioned_with_changes update_input
  update_customer-unwritten request e = read (lookup request.customer_id before.rows)
    where
      updated :
          (prepared : Prepared) (entries : List ChangeLogEntry)
          (p : Outcome RepositoryError CustomerUpdateResult × Repository)
          → ((row : CustomerRecord) × (p.0 ≡ ok (applied row))) ⊎ (p.1 ≡ before)
          → (error_of (as_updated request prepared (log_applied request.customer_id entries p))).0
            ≡ some e
          → (error_of (as_updated request prepared (log_applied request.customer_id entries p))).1
            ≡ before
      updated prepared [] (ok (applied row), after) h k = absurd (ground arith)
      updated prepared (x ∷ xs) (ok (applied row), after) h k = absurd (ground arith)
      updated prepared [] (ok (not_applied true), after) (inl h) k = absurd (ground (arith, h.1))
      updated prepared [] (ok (not_applied false), after) (inl h) k = absurd (ground (arith, h.1))
      updated prepared [] (err y, after) (inl h) k = absurd (ground (arith, h.1))
      updated prepared (x ∷ xs) (ok (not_applied true), after) (inl h) k =
          absurd (ground (arith, h.1))
      updated prepared (x ∷ xs) (ok (not_applied false), after) (inl h) k =
          absurd (ground (arith, h.1))
      updated prepared (x ∷ xs) (err y, after) (inl h) k = absurd (ground (arith, h.1))
      updated prepared [] (ok (not_applied true), after) (inr h) k = h
      updated prepared [] (ok (not_applied false), after) (inr h) k = h
      updated prepared [] (err y, after) (inr h) k = h
      updated prepared (x ∷ xs) (ok (not_applied true), after) (inr h) k = h
      updated prepared (x ∷ xs) (ok (not_applied false), after) (inr h) k = h
      updated prepared (x ∷ xs) (err y, after) (inr h) k = h

      written :
          (o : Outcome UseCaseError Prepared)
          → (error_of (write_prepared derive request undisturbed before o)).0 ≡ some e
          → (error_of (write_prepared derive request undisturbed before o)).1 ≡ before
      written (ok prepared) =
          let input = update_input request prepared.changes in
          updated prepared prepared.entries (update_versioned derive input before)
            (update_versioned-unwritten derive input before)
      written (err x) = λ h. refl

      read :
          (o : Option CustomerRecord)
          → (error_of (update_read derive request undisturbed before o)).0 ≡ some e
          → (error_of (update_read derive request undisturbed before o)).1 ≡ before
      read none = λ h. refl
      read (some row) = written (prepare_update request row)

  -- A creation or an update that throws, for whatever reason, leaves the table and the logs as
  -- they were.
  pub call-unwritten :
      (c : Call) (e : UseCaseError)
      → (call derive c before).0 ≡ some e
      → (call derive c before).1 ≡ before
  unfolding call
  call-unwritten (Call.creation phone_key_for draft actor new_id now) e =
      create_customer-unwritten phone_key_for draft actor new_id now e
  call-unwritten (Call.change request) e = update_customer-unwritten request e
