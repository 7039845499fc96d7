-- ===== src/Customers/Repository/Calls.antt =====
-- The methods of `MemoryCustomerRepository` of
-- src/customers/persistence/memory-customer-repository.ts: what each gives, and the repository
-- after it, also when it throws.

use dsh_backend_team.Base.{
  ℕ, ◌+◌, Bool, true, false, not, ◌&&◌, Option, none, some, List, [], ◌∷◌, ◌++◌, Text, codes, ◌==◌,
  length, ltb, nat_eq, filter, find, sort, text_lt, text_member, lookup, set, is_some,
  if◌then◌else◌,
}
use dsh_backend_team.Base.Outcomes.{Outcome, ok, err, ◌>>=◌, ◌>>◌, throw_if}
use dsh_backend_team.Customers.Patterns.{is_customer_id}
use dsh_backend_team.Customers.Changelog.{ChangeLogEntry}
use dsh_backend_team.Customers.Repository.{
  CustomerRecord, text, CustomerInsertInput, CustomerVersionedUpdateInput, CustomerUpdateResult,
  RepositoryError, read_required_text, read_timestamp, immutable_names, sorted, throw_if_any,
  ResolvedColumns, resolve_columns,
}

-- `#rows` and `#changes`, the maps in the order of their insertion
pub record Repository : Type 0 where
  pub rows : List (Text × CustomerRecord)
  pub changes : List (Text × List ChangeLogEntry)

abbrev pub new_row :
    (customer_id created_by updated_by created_at updated_at : Text) (columns : ResolvedColumns)
    → CustomerRecord
new_row customer_id created_by updated_by created_at updated_at columns = record {
  customer_id = customer_id;
  name = columns.name;
  contact_person = columns.contact_person;
  phone = columns.phone;
  phone_key = columns.phone_key;
  email = columns.email;
  company = columns.company;
  note = columns.note;
  version = 1;
  created_by = created_by;
  updated_by = updated_by;
  created_at = created_at;
  updated_at = updated_at;
}

-- The row that `insert` has checked.
unfoldable pub inserted_row :
    Option (Text → Text) → CustomerInsertInput → Outcome RepositoryError CustomerRecord
inserted_row derive input = do
  throw_if_any
      (sorted (filter (λ key. not (text_member key immutable_names)) input.columns.other_keys))
  throw_if (elim input.version [ none ↦ false | some v ↦ not (nat_eq v 1) ])
      (RepositoryError.schema (some (codes "version")))
  customer_id ← read_required_text input.customer_id (codes "customer_id") 40 true
  throw_if (not (is_customer_id customer_id)) (RepositoryError.schema (some (codes "customer_id")))
  created_by ← read_required_text input.created_by (codes "created_by") 64 true
  updated_by ← read_required_text input.updated_by (codes "updated_by") 64 true
  created_at ← read_timestamp input.created_at (codes "created_at")
  updated_at ← read_timestamp input.updated_at (codes "updated_at")
  throw_if (not (created_at == updated_at)) (RepositoryError.schema (some (codes "updated_at")))
  columns ← resolve_columns derive none input.columns
  ok (new_row customer_id created_by updated_by created_at updated_at columns)

-- `[...this.#rows.values()]`
abbrev pub values {ℓ} : {V : Type ℓ} → List (Text × V) → List V
values [] = []
values ((k, v) ∷ m) = v ∷ values m

-- Another customer with the same key of the phone. For a new customer the test of the identifier
-- is always passed, since no stored row has it.
abbrev pub is_phone_owner : CustomerRecord → CustomerRecord → Bool
is_phone_owner row candidate =
    not (candidate.customer_id == row.customer_id) && candidate.phone_key == row.phone_key

abbrev pub unless_owned :
    CustomerRecord → Option CustomerRecord → Outcome RepositoryError CustomerRecord
unless_owned row none = ok row
unless_owned row (some owner) =
    err (RepositoryError.phone_taken row.phone_key owner.customer_id owner.name)

-- The keys that the table holds unique.
unfoldable pub check_unique :
    List (Text × CustomerRecord) → CustomerRecord → Outcome RepositoryError CustomerRecord
check_unique rows row =
    if is_some (lookup row.customer_id rows)
    then err (RepositoryError.duplicate_customer_id row.customer_id)
    else unless_owned row (find (λ stored. stored.phone_key == row.phone_key) (values rows))

-- The row is written, or nothing is.
abbrev pub write_row :
    Outcome RepositoryError CustomerRecord
    → Repository
    → Outcome RepositoryError CustomerRecord × Repository
write_row (ok row) repository =
    (ok row, record repository { rows = set row.customer_id row repository.rows })
write_row (err e) repository = (err e, repository)

-- `insert`
unfoldable pub insert :
    Option (Text → Text)
    → CustomerInsertInput
    → Repository
    → Outcome RepositoryError CustomerRecord × Repository
unfolding inserted_row check_unique
insert derive input repository =
    write_row (inserted_row derive input >>= λ row. check_unique repository.rows row) repository

-- `findById`
abbrev pub find_by_id : Text → Repository → Option CustomerRecord
find_by_id customer_id repository = lookup customer_id repository.rows

-- `count`
abbrev pub count : Repository → ℕ
count repository = length repository.rows

-- `#assertPatchKeys`
unfoldable pub assert_patch_keys : List Text → Outcome RepositoryError (Unit {0})
assert_patch_keys keys = elim (sorted (filter (λ key. text_member key immutable_names) keys)) [
  | [] ↦ throw_if_any (sorted keys)
  | hit ∷ hits ↦ err (RepositoryError.immutable_columns (hit ∷ hits))
]

-- The row that an update makes of the stored one.
abbrev pub updated_row : CustomerRecord → ResolvedColumns → Text → Text → CustomerRecord
updated_row stored columns updated_by updated_at = record stored {
  name = columns.name;
  contact_person = columns.contact_person;
  phone = columns.phone;
  phone_key = columns.phone_key;
  email = columns.email;
  company = columns.company;
  note = columns.note;
  version = stored.version + 1;
  updated_by = updated_by;
  updated_at = updated_at;
}

-- The update of a stored row: none where the version is another one.
unfoldable pub updated_of :
    Option (Text → Text)
    → CustomerVersionedUpdateInput
    → List (Text × CustomerRecord)
    → CustomerRecord
    → Outcome RepositoryError (Option CustomerRecord)
updated_of derive input rows stored = do
  columns ← resolve_columns derive (some stored) input.patch
  if not (nat_eq stored.version input.expected_version) then ok none else (do
    row ← unless_owned (updated_row stored columns input.updated_by input.updated_at) (
        find (is_phone_owner (updated_row stored columns input.updated_by input.updated_at))
          (values rows))
    ok (some row))

-- The checks of an update that look at no row.
unfoldable pub check_update : CustomerVersionedUpdateInput → Outcome RepositoryError (Unit {0})
unfolding assert_patch_keys
check_update input = do
  read_required_text (text input.customer_id) (codes "customer_id") 40 true
  throw_if (ltb input.expected_version 1) (RepositoryError.schema (some (codes "version")))
  read_required_text (text input.updated_by) (codes "updated_by") 64 true
  read_timestamp (text input.updated_at) (codes "updated_at")
  assert_patch_keys input.patch.other_keys

abbrev pub write_update :
    Text
    → Outcome RepositoryError (Option CustomerRecord)
    → Repository
    → Outcome RepositoryError CustomerUpdateResult × Repository
write_update customer_id (ok none) repository =
    (ok (CustomerUpdateResult.not_applied true), repository)
write_update customer_id (ok (some row)) repository = (
  ok (CustomerUpdateResult.applied row),
  record repository { rows = set customer_id row repository.rows },
)
write_update customer_id (err e) repository = (err e, repository)

abbrev pub update_found :
    Option (Text → Text)
    → CustomerVersionedUpdateInput
    → Repository
    → Option CustomerRecord
    → Outcome RepositoryError CustomerUpdateResult × Repository
update_found derive input repository none =
    (ok (CustomerUpdateResult.not_applied false), repository)
update_found derive input repository (some stored) =
    write_update input.customer_id (updated_of derive input repository.rows stored) repository

abbrev pub update_checked :
    Option (Text → Text)
    → CustomerVersionedUpdateInput
    → Repository
    → Outcome RepositoryError (Unit {0})
    → Outcome RepositoryError CustomerUpdateResult × Repository
update_checked derive input repository (err e) = (err e, repository)
update_checked derive input repository (ok _) =
    update_found derive input repository (lookup input.customer_id repository.rows)

-- `updateVersioned`
unfoldable pub update_versioned :
    Option (Text → Text)
    → CustomerVersionedUpdateInput
    → Repository
    → Outcome RepositoryError CustomerUpdateResult × Repository
update_versioned derive input repository =
    update_checked derive input repository (check_update input)

abbrev pub logged : Text → List (Text × List ChangeLogEntry) → List ChangeLogEntry
logged customer_id changes = elim (lookup customer_id changes) [
  | none ↦ []
  | some entries ↦ entries
]

abbrev pub log_applied :
    Text
    → List ChangeLogEntry
    → Outcome RepositoryError CustomerUpdateResult × Repository
    → Outcome RepositoryError CustomerUpdateResult × Repository
log_applied customer_id [] result = result
log_applied customer_id (entry ∷ entries) (ok (CustomerUpdateResult.applied row), repository) = (
  ok (CustomerUpdateResult.applied row),
  record repository {
    changes =
        set customer_id (logged customer_id repository.changes ++ (entry ∷ entries))
          repository.changes;
  },
)
log_applied customer_id (entry ∷ entries) (ok (CustomerUpdateResult.not_applied e), repository) =
    (ok (CustomerUpdateResult.not_applied e), repository)
log_applied customer_id (entry ∷ entries) (err e, repository) = (err e, repository)

-- `updateVersionedWithChanges`
unfoldable pub update_versioned_with_changes :
    Option (Text → Text)
    → CustomerVersionedUpdateInput
    → List ChangeLogEntry
    → Repository
    → Outcome RepositoryError CustomerUpdateResult × Repository
update_versioned_with_changes derive input changes repository =
    log_applied input.customer_id changes (update_versioned derive input repository)

-- `listChanges`: the latest first
unfoldable pub list_changes : Text → Repository → List ChangeLogEntry
list_changes customer_id repository =
    sort (λ left right. text_lt left.changed_at right.changed_at)
      (logged customer_id repository.changes)
