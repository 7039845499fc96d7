-- ===== src/Customers/UseCases/Update.antt =====
-- What `updateCustomer` of src/customers/application/update-customer.ts leaves behind.
use mathlib.Core.Path.{subst}
use mathlib.Core.List.{append-nil}
use dsh_backend_team.Base.{
  ◌+◌, ◌≡◌, refl, ap, sym, ◌∙◌, true, false, Option, none, some, List, [], ◌∷◌, ◌++◌, Text, ◌==◌,
  ==_refl, trim, lookup, lookup-set, if_match, set, if◌then◌else◌, arith,
}
use dsh_backend_team.Base.Outcomes.{
  Ensures-ok, Outcome, ok, err, Ensures, bind-Ensures, bind_any-Ensures, throw_if-Ensures,
}
use dsh_backend_team.Customers.Customer.{
  Customer, CustomerDomainError, Changes, with_applied_update,
}
use dsh_backend_team.Customers.Changelog.{ChangeLogEntry}
use dsh_backend_team.Customers.Repository.{
  resolve_columns, CustomerRecord, CustomerVersionedUpdateInput, CustomerUpdateResult, applied,
  not_applied, RepositoryError, ResolvedColumns,
}
use dsh_backend_team.Customers.Repository.Calls.{
  update_versioned_with_changes, Repository, logged, log_applied, update_versioned, update_checked,
  update_found, write_update, updated_of, updated_row, check_update,
}
use dsh_backend_team.Customers.Repository.Contract.{View, view, Allowed, update_versioned-Allowed}
use dsh_backend_team.Customers.Repository.Invariant.{IsSound}
use dsh_backend_team.Customers.UseCases.{
  update_read, update_customer, write_prepared, update_input, UseCaseError, throwing, UpdateRequest,
  Prepared, UpdateCustomerResult, aggregate_of, prepare_update, requested_changes, as_updated,
}
use dsh_backend_team.Customers.UseCases.Agreement.{updated_columns-Agree, Agree, changed_values}

-- The aggregate that the changes make of a row.
abbrev pub next_aggregate : CustomerRecord → Changes → (updated_by now : Text) → Customer
next_aggregate row changes updated_by now = record (aggregate_of row) {
  values = changed_values row changes;
  version = row.version + 1;
  updated_by = updated_by;
  updated_at = now;
}

pub throwing-Ensures :
    {E A : Type 0} (P : A → Type 0) (f : E → UseCaseError) (m : Outcome E A)
    → Ensures P m
    → Ensures P (throwing f m)
throwing-Ensures P f (ok a) h = h
throwing-Ensures P f (err e) h = tt

with_applied_update-next :
    (row : CustomerRecord) (changes : Changes) (actor now : Text)
    → Ensures
        (λ c. c ≡ next_aggregate row changes (trim actor) now)
        (with_applied_update (aggregate_of row) changes actor now)
unfolding with_applied_update
with_applied_update-next row changes actor now =
    throw_if-Ensures (λ c. c ≡ next_aggregate row changes (trim actor) now) (trim actor == [])
      CustomerDomainError.actor_missing _ (λ h. refl)

abbrev IsPrepared : UpdateRequest → CustomerRecord → Prepared → Type 0
IsPrepared request row p =
    p.customer ≡ next_aggregate row p.changes (trim request.actor) request.now

prepare_update-IsPrepared :
    (request : UpdateRequest) (row : CustomerRecord)
    → Ensures (IsPrepared request row) (prepare_update request row)
unfolding prepare_update
prepare_update-IsPrepared request row =
    bind_any-Ensures (IsPrepared request row) (requested_changes request row) _ (λ changes.
      bind-Ensures (λ c. c ≡ next_aggregate row changes (trim request.actor) request.now)
        (IsPrepared request row) _ _
        (throwing-Ensures (λ c. c ≡ next_aggregate row changes (trim request.actor) request.now)
          UseCaseError.domain _ (with_applied_update-next row changes request.actor request.now))
        (λ customer e.
          bind_any-Ensures (IsPrepared request row) _
            (λ entries. ok (record { changes = changes; customer = customer; entries = entries }))
            (λ entries. e)))

-- The change log waits for the row.
update_versioned-changes :
    (derive : Option (Text → Text)) (input : CustomerVersionedUpdateInput) (before : Repository)
    → (update_versioned derive input before).1.changes ≡ before.changes
unfolding update_versioned
update_versioned-changes derive input before = checked (check_update input)
  where
    wrote :
        (o : Outcome RepositoryError (Option CustomerRecord))
        → (write_update input.customer_id o before).1.changes ≡ before.changes
    wrote (ok none) = refl
    wrote (ok (some row)) = refl
    wrote (err e) = refl

    found :
        (o : Option CustomerRecord)
        → (update_found derive input before o).1.changes ≡ before.changes
    found none = refl
    found (some stored) = wrote (updated_of derive input before.rows stored)

    checked :
        (o : Outcome RepositoryError (Unit {0}))
        → (update_checked derive input before o).1.changes ≡ before.changes
    checked (err e) = refl
    checked (ok u) = found (lookup input.customer_id before.rows)

abbrev entries_or : Option (List ChangeLogEntry) → List ChangeLogEntry
entries_or none = []
entries_or (some entries) = entries

result_or : UpdateCustomerResult → Outcome UseCaseError UpdateCustomerResult → UpdateCustomerResult
result_or default (ok r) = r
result_or default (err e) = default

logged-set :
    (id : Text) (entries : List ChangeLogEntry) (changes : List (Text × List ChangeLogEntry))
    → logged id (set id entries changes) ≡ entries
logged-set id entries changes =
    let found : lookup id (set id entries changes) ≡ some entries =
      lookup-set id id entries changes
      ∙ ap (λ b. if_match b entries (lookup id changes)) (==_refl id) in
    ap entries_or found

-- How a success comes about.
record Success (request : UpdateRequest) (prepared : Prepared)
    (o : Outcome RepositoryError CustomerUpdateResult) (mid after : Repository)
    (result : UpdateCustomerResult) : Type 0 where
  row : CustomerRecord
  applies : o ≡ ok (applied row)
  given : result ≡ record { customer = prepared.customer; changes = prepared.entries }
  rows : after.rows ≡ mid.rows
  log :
      logged request.customer_id after.changes
      ≡ logged request.customer_id mid.changes ++ prepared.entries

as_updated-Success :
    (request : UpdateRequest) (prepared : Prepared)
    (o : Outcome RepositoryError CustomerUpdateResult) (mid after : Repository)
    (result : UpdateCustomerResult)
    → as_updated request prepared (log_applied request.customer_id prepared.entries (o, mid))
      ≡ (ok result, after)
    → Success request prepared o mid after result
unfolding result_or
as_updated-Success request prepared o mid after result h = go o prepared.entries refl h
  where
    go :
        (o' : Outcome RepositoryError CustomerUpdateResult) (entries : List ChangeLogEntry)
        → prepared.entries ≡ entries
        → as_updated request prepared (log_applied request.customer_id entries (o', mid))
          ≡ (ok result, after)
        → Success request prepared o' mid after result
    go (ok (applied row)) [] e k =
        let made : UpdateCustomerResult = record {
          customer = prepared.customer;
          changes = prepared.entries;
        } in
        record {
          row = row;
          applies = refl;
          given = sym (ap (λ p. result_or made p.0) k);
          rows = sym (ap (λ p. p.1.rows) k);
          log =
              sym (ap (λ p. logged request.customer_id p.1.changes) k)
              ∙ sym (append-nil (logged request.customer_id mid.changes))
              ∙ ap (λ l. logged request.customer_id mid.changes ++ l) (sym e);
        }
    go (ok (applied row)) (x ∷ xs) e k =
        let made : UpdateCustomerResult = record {
          customer = prepared.customer;
          changes = prepared.entries;
        } in
        record {
          row = row;
          applies = refl;
          given = sym (ap (λ p. result_or made p.0) k);
          rows = sym (ap (λ p. p.1.rows) k);
          log =
              sym (ap (λ p. logged request.customer_id p.1.changes) k)
              ∙ logged-set request.customer_id (logged request.customer_id mid.changes ++ (x ∷ xs))
                  mid.changes
              ∙ ap (λ l. logged request.customer_id mid.changes ++ l) (sym e);
        }
    go (ok (not_applied true)) [] e k = absurd (ground arith)
    go (ok (not_applied false)) [] e k = absurd (ground arith)
    go (ok (not_applied true)) (x ∷ xs) e k = absurd (ground arith)
    go (ok (not_applied false)) (x ∷ xs) e k = absurd (ground arith)
    go (err x) [] e k = absurd (ground arith)
    go (err y) (x ∷ xs) e k = absurd (ground arith)

-- The aggregate under another operator.
abbrev pub reassigned : Customer → Text → Customer
reassigned c updated_by = record c { updated_by = updated_by }

-- What a successful update leaves behind.
pub record Updated (request : UpdateRequest) (before after : Repository)
    (result : UpdateCustomerResult) : Type 0 where
  pub row : CustomerRecord
  pub next : CustomerRecord
  pub found : lookup request.customer_id before.rows ≡ some row
  pub expected : row.version ≡ request.expected_version
  pub table :
      (j : Text)
      → lookup j after.rows ≡ (if request.customer_id == j then some next else lookup j before.rows)
  pub stored : aggregate_of next ≡ reassigned result.customer request.actor
  pub raised : result.customer.version ≡ request.expected_version + 1
  pub log :
      logged request.customer_id after.changes
      ≡ logged request.customer_id before.changes ++ result.changes

-- The row that an update makes is the aggregate with the changes.
aggregate_of-updated_row :
    (row : CustomerRecord) (changes : Changes) (columns : ResolvedColumns) (updated_by now : Text)
    → Agree columns (changed_values row changes)
    → aggregate_of (updated_row row columns updated_by now)
      ≡ next_aggregate row changes updated_by now
aggregate_of-updated_row row changes columns updated_by now h =
    cc (h.name, h.contact_person, h.phone, h.email, h.company, h.note)

record Write (derive : Option (Text → Text)) (input : CustomerVersionedUpdateInput)
    (before after : View) (next : CustomerRecord) : Type 0 where
  stored : CustomerRecord
  columns : ResolvedColumns
  found : before input.customer_id ≡ some stored
  expected : stored.version ≡ input.expected_version
  resolved : resolve_columns derive (some stored) input.patch ≡ ok columns
  made : next ≡ updated_row stored columns input.updated_by input.updated_at
  table : (j : Text) → after j ≡ (if input.customer_id == j then some next else before j)

Allowed-Write :
    (derive : Option (Text → Text)) (input : CustomerVersionedUpdateInput) (before after : View)
    (o : Outcome RepositoryError CustomerUpdateResult) (next : CustomerRecord)
    → Allowed derive input before o after
    → o ≡ ok (applied next)
    → Write derive input before after next
Allowed-Write derive input before after o next (Allowed.missing e same) k = absurd (ground arith)
Allowed-Write derive input before after o next (Allowed.stale stored e ne same) k =
    absurd (ground arith)
Allowed-Write derive input before after o next (Allowed.thrown e same) k = absurd (ground arith)
Allowed-Write derive input before after o next (Allowed.written stored row columns e v c m f w) k =
    let same : row ≡ next = cc in
    subst (Write derive input before after) same (record {
      stored = stored;
      columns = columns;
      found = e;
      expected = v;
      resolved = c;
      made = m;
      table = w;
    })

module _ (derive : Option (Text → Text)) (request : UpdateRequest)
    (between : Repository → Repository) (before : Repository) (s : IsSound (between before).rows)
    (kept : (read stored : CustomerRecord)
      → lookup request.customer_id before.rows ≡ some read
      → lookup request.customer_id (between before).rows ≡ some stored
      → stored.version ≡ request.expected_version
      → read ≡ stored) where
  abbrev mid : Repository
  mid = between before

  prepared-Updated :
      (row : CustomerRecord) (prepared : Prepared) (after : Repository)
      (result : UpdateCustomerResult)
      → lookup request.customer_id before.rows ≡ some row
      → IsPrepared request row prepared
      → write_prepared derive request between before (ok prepared) ≡ (ok result, after)
      → Updated request mid after result
  unfolding update_versioned_with_changes update_input
  prepared-Updated row prepared after result found h k =
      let input = update_input request prepared.changes in
      let success =
        as_updated-Success request prepared (update_versioned derive input mid).0
          (update_versioned derive input mid).1 after result k in
      let write =
        Allowed-Write derive input (view mid) (view (update_versioned derive input mid).1) _
          success.row (update_versioned-Allowed derive input mid s) success.applies in
      let same : write.stored ≡ row =
        sym (kept row write.stored found write.found write.expected) in
      let customer : next_aggregate row prepared.changes (trim request.actor) request.now
          ≡ result.customer =
        sym h ∙ sym (ap (λ r. r.customer) success.given) in
      let agree : Agree write.columns (changed_values write.stored prepared.changes) =
        Ensures-ok (λ c. Agree c (changed_values write.stored prepared.changes)) _ write.columns
          (updated_columns-Agree derive request.phone_key_for write.stored prepared.changes)
          write.resolved in
      record {
        row = row;
        next = success.row;
        found = write.found ∙ ap some same;
        expected = ap (λ r. r.version) (sym same) ∙ write.expected;
        table = λ j. ap (λ rows. lookup j rows) success.rows ∙ write.table j;
        stored =
            ap aggregate_of write.made
            ∙ aggregate_of-updated_row write.stored prepared.changes write.columns request.actor
                request.now agree
            ∙ ap (λ r. next_aggregate r prepared.changes request.actor request.now) same
            ∙ ap (λ c. reassigned c request.actor) customer;
        raised =
            ap (λ c. c.version) (sym customer)
            ∙ ap (λ r. r.version + 1) (sym same)
            ∙ ap (λ n. n + 1) write.expected;
        log =
            success.log
            ∙ ap (λ c. logged request.customer_id c ++ prepared.entries)
                (update_versioned-changes derive input mid)
            ∙ ap (λ r. logged request.customer_id mid.changes ++ r.changes) (sym success.given);
      }

  -- A successful `updateCustomer`, whatever other writers do between its read and its write, if the
  -- row that it read is the one that stands there at the expected version when it writes: that row
  -- is at the expected version, and what is left in its place is the aggregate that is given back,
  -- with the version raised by one and the operator as it was given (untrimmed); all other rows are
  -- as the others left them, and to the customer's log exactly the entries are appended that are
  -- given back.
  pub update_customer-Updated :
      (after : Repository) (result : UpdateCustomerResult)
      → update_customer derive request between before ≡ (ok result, after)
      → Updated request (between before) after result
  unfolding update_customer
  update_customer-Updated after result h = read (lookup request.customer_id before.rows) refl h
    where
      prepared :
          (row : CustomerRecord) (o : Outcome UseCaseError Prepared)
          → lookup request.customer_id before.rows ≡ some row
          → Ensures (IsPrepared request row) o
          → write_prepared derive request between before o ≡ (ok result, after)
          → Updated request mid after result
      prepared row (ok p) found made k = prepared-Updated row p after result found made k
      prepared row (err e) found made k = absurd (ground arith)

      read :
          (found : Option CustomerRecord)
          → lookup request.customer_id before.rows ≡ found
          → update_read derive request between before found ≡ (ok result, after)
          → Updated request mid after result
      read none e k = absurd (ground arith)
      read (some row) e k =
          prepared row (prepare_update request row) e (prepare_update-IsPrepared request row) k
