-- ===== src/Customers/UseCases.antt =====
-- The use cases of src/customers/application, on the repository in memory: creation, update, detail
-- and the pages of the change log. `derive` is the normalizer of phones that is injected, if one
-- is, into the repository and into the use case.
pub mod Agreement
pub mod Update
pub mod Sequences
pub mod Creation
pub mod ReadBack
use dsh_backend_team.Base.{
  ℕ, ◌-◌, ◌*◌, Bool, true, false, not, ◌&&◌, ◌||◌, Option, none, some, List, [], ◌∷◌, ◌++◌, Text,
  codes, ◌==◌, trim, length, ltb, nat_eq, filter, take, drop, if◌then◌else◌, is_space,
}
use dsh_backend_team.Base.Outcomes.{Outcome, ok, err, ◌>>=◌, ◌>>◌, throw_if}
use dsh_backend_team.Json.{Fields}
use dsh_backend_team.Customers.Patterns.{key_codes}
use dsh_backend_team.Customers.Customer.{
  FieldError, FieldErrorCode, CustomerDomainError, MutableValues, Customer, CreateResult, create,
  restore, Changes, attempt_update, with_applied_update,
}
use dsh_backend_team.Customers.Changelog.{
  ChangeField, ChangeLogEntry, ChangeLogError, create_change_log_entry,
}
use dsh_backend_team.Customers.Repository.{
  CustomerRecord, Column, undefined, null, text, CustomerVersionedPatch, CustomerInsertInput,
  CustomerVersionedUpdateInput, CustomerUpdateResult, RepositoryError,
}
use dsh_backend_team.Customers.Repository.Calls.{
  Repository, insert, find_by_id, update_versioned_with_changes, list_changes,
}

-- What a use case throws.
pub data UseCaseError : Type 0 where
  validation : List FieldError → UseCaseError
  domain : CustomerDomainError → UseCaseError
  change_log : ChangeLogError → UseCaseError
  repository_failed : RepositoryError → UseCaseError
  not_found : Text → UseCaseError
  version_conflict : (customer_id : Text) (expected_version : ℕ) → UseCaseError
  page_invalid : UseCaseError

-- A throw of a part, as a throw of the use case.
abbrev pub throwing : {E A : Type 0} → (E → UseCaseError) → Outcome E A → Outcome UseCaseError A
throwing f (ok a) = ok a
throwing f (err e) = err (f e)

abbrev pub column_of : Option Text → Column
column_of none = null
column_of (some value) = text value

-- `/[\s().-]/`
abbrev is_separator : ℕ → Bool
is_separator c = is_space c || nat_eq c b'(' || nat_eq c b')' || nat_eq c b'.' || nat_eq c b'-'

-- `phoneKeyFor?.(phone) ?? phone.replace(/[\s().-]/g, '')`
abbrev pub created_key : Option (Text → Text) → Text → Text
created_key none phone = filter (λ c. not (is_separator c)) phone
created_key (some phone_key_for) phone = phone_key_for phone

-- `toInsertInput`
unfoldable pub to_insert_input : Option (Text → Text) → Customer → CustomerInsertInput
to_insert_input derive c = record {
  customer_id = text c.customer_id;
  version = some c.version;
  created_by = text c.created_by;
  updated_by = text c.updated_by;
  created_at = text c.created_at;
  updated_at = text c.updated_at;
  columns = record {
    name = text c.values.name;
    contact_person = column_of c.values.contact_person;
    phone = text c.values.phone;
    phone_key = text (created_key derive c.values.phone);
    email = column_of c.values.email;
    company = column_of c.values.company;
    note = column_of c.values.note;
    other_keys = [];
  };
}

abbrev pub customer_of : CreateResult → Outcome UseCaseError Customer
customer_of (CreateResult.created customer ignored) = ok customer
customer_of (CreateResult.not_created errors ignored) = err (UseCaseError.validation errors)

-- The validated aggregate, or what `createCustomer` throws before it calls the repository.
unfoldable pub created_customer : Fields → (actor new_id now : Text) → Outcome UseCaseError Customer
created_customer draft actor new_id now =
    throwing UseCaseError.domain (create draft actor new_id now) >>= customer_of

abbrev pub as_created :
    Customer
    → Outcome RepositoryError CustomerRecord × Repository
    → Outcome UseCaseError Customer × Repository
as_created customer (ok row, after) = (ok customer, after)
as_created customer (err e, after) = (err (UseCaseError.repository_failed e), after)

abbrev pub insert_created :
    (derive phone_key_for : Option (Text → Text))
    → Repository
    → Outcome UseCaseError Customer
    → Outcome UseCaseError Customer × Repository
insert_created derive phone_key_for before (ok customer) =
    as_created customer (insert derive (to_insert_input phone_key_for customer) before)
insert_created derive phone_key_for before (err e) = (err e, before)

-- `createCustomer`; the phone key of the use case need not be that of the repository.
unfoldable pub create_customer :
    (derive phone_key_for : Option (Text → Text))
    → Fields
    → (actor new_id now : Text) → Repository
    → Outcome UseCaseError Customer × Repository
create_customer derive phone_key_for draft actor new_id now before =
    insert_created derive phone_key_for before (created_customer draft actor new_id now)

-- `restore` of update-customer.ts
abbrev pub aggregate_of : CustomerRecord → Customer
aggregate_of row = record {
  customer_id = row.customer_id;
  values = record {
    name = row.name;
    contact_person = row.contact_person;
    phone = row.phone;
    email = row.email;
    company = row.company;
    note = row.note;
  };
  version = row.version;
  created_by = row.created_by;
  updated_by = row.updated_by;
  created_at = row.created_at;
  updated_at = row.updated_at;
}

-- The column of a field of the changes.
abbrev pub patched : Option (Option Text) → Column
patched none = undefined
patched (some value) = column_of value

-- `changes.phone ?? ''`
abbrev phone_or_empty : Option Text → Text
phone_or_empty none = []
phone_or_empty (some phone) = phone

abbrev pub patched_phone : Option (Option Text) → Column
patched_phone none = undefined
patched_phone (some value) = text (phone_or_empty value)

abbrev pub updated_key : Option (Text → Text) → Text → Text
updated_key none phone = key_codes phone
updated_key (some phone_key_for) phone = phone_key_for phone

abbrev pub patched_key : Option (Text → Text) → Option (Option Text) → Column
patched_key derive none = undefined
patched_key derive (some value) = text (updated_key derive (phone_or_empty value))

-- `toPersistencePatch`
unfoldable pub to_persistence_patch : Option (Text → Text) → Changes → CustomerVersionedPatch
to_persistence_patch derive changes = record {
  name = patched changes.name;
  contact_person = patched changes.contact_person;
  phone = patched_phone changes.phone;
  phone_key = patched_key derive changes.phone;
  email = patched changes.email;
  company = patched changes.company;
  note = patched changes.note;
  other_keys = [];
}

abbrev pub entry_of_change :
    ChangeField
    → Option Text
    → Option (Option Text)
    → (changed_by changed_at : Text) → Option Text
    → List ChangeLogEntry
entry_of_change field old none changed_by changed_at request_id = []
entry_of_change field old (some new) changed_by changed_at request_id =
    record {
      field = field;
      old_value = old;
      new_value = new;
      changed_by = changed_by;
      changed_at = changed_at;
      request_id = request_id;
    }
    ∷ []

-- The entries before they are checked and redacted, in the order of the fields.
unfoldable pub raw_entries :
    MutableValues → Changes → (changed_by changed_at : Text) → Option Text → List ChangeLogEntry
raw_entries current changes by at request =
    entry_of_change ChangeField.name (some current.name) changes.name by at request
    ++ entry_of_change ChangeField.contact_person current.contact_person changes.contact_person by
        at request
    ++ entry_of_change ChangeField.phone (some current.phone) changes.phone by at request
    ++ entry_of_change ChangeField.email current.email changes.email by at request
    ++ entry_of_change ChangeField.company current.company changes.company by at request
    ++ entry_of_change ChangeField.note current.note changes.note by at request

-- `entries.map((entry) => createChangeLogEntry(entry))`
unfoldable pub create_entries : List ChangeLogEntry → Outcome ChangeLogError (List ChangeLogEntry)
create_entries [] = ok []
create_entries (e ∷ es) = do
  entry ← create_change_log_entry e
  entries ← create_entries es
  ok (entry ∷ entries)

-- `buildChangeEntries`
unfoldable pub build_change_entries :
    MutableValues
    → Changes
    → (changed_by changed_at : Text) → Option Text
    → Outcome ChangeLogError (List ChangeLogEntry)
unfolding raw_entries create_entries
build_change_entries current changes by at request =
    create_entries (raw_entries current changes by at request)

abbrev is_submitted : Option (Option Text) → Bool
is_submitted none = false
is_submitted (some value) = true

-- `Object.keys(changes).length === 0`
abbrev is_empty : Changes → Bool
is_empty c =
    not (is_submitted c.name)
    && not (is_submitted c.contact_person)
    && not (is_submitted c.phone)
    && not (is_submitted c.email)
    && not (is_submitted c.company)
    && not (is_submitted c.note)

-- `UpdateCustomerInput` and the dependencies, with what the clock gives; the phone key of the use
-- case need not be that of the repository.
pub record UpdateRequest : Type 0 where
  pub phone_key_for : Option (Text → Text)
  pub customer_id : Text
  pub expected_version : ℕ
  pub patch : Fields
  pub actor : Text
  pub now : Text
  pub request_id : Option Text

abbrev pub invalid_field : Text → UseCaseError
invalid_field field =
    UseCaseError.validation (record { field = field; code = FieldErrorCode.invalid_format } ∷ [])

-- The changes that the request asks for.
unfoldable pub requested_changes : UpdateRequest → CustomerRecord → Outcome UseCaseError Changes
requested_changes request row = do
  throw_if (ltb request.expected_version 1) (invalid_field (codes "expectedVersion"))
  throwing UseCaseError.domain (restore (aggregate_of row))
  changes ← throwing UseCaseError.validation (attempt_update request.patch)
  throw_if (is_empty changes) (invalid_field (codes "*"))
  ok changes

-- What `updateCustomer` is about to write: the new aggregate and the entries of the log.
pub record Prepared : Type 0 where
  pub changes : Changes
  pub customer : Customer
  pub entries : List ChangeLogEntry

unfoldable pub prepare_update : UpdateRequest → CustomerRecord → Outcome UseCaseError Prepared
prepare_update request row = do
  changes ← requested_changes request row
  customer ←
      throwing UseCaseError.domain
        (with_applied_update (aggregate_of row) changes request.actor request.now)
  entries ← throwing UseCaseError.change_log (
      build_change_entries (aggregate_of row).values changes request.actor request.now
        request.request_id)
  ok (record { changes = changes; customer = customer; entries = entries })

pub record UpdateCustomerResult : Type 0 where
  pub customer : Customer
  pub changes : List ChangeLogEntry

-- The call of the repository; the operator is written as it was given.
unfoldable pub update_input : UpdateRequest → Changes → CustomerVersionedUpdateInput
unfolding to_persistence_patch
update_input request changes = record {
  customer_id = request.customer_id;
  expected_version = request.expected_version;
  patch = to_persistence_patch request.phone_key_for changes;
  updated_by = request.actor;
  updated_at = request.now;
}

abbrev pub as_updated :
    UpdateRequest
    → Prepared
    → Outcome RepositoryError CustomerUpdateResult × Repository
    → Outcome UseCaseError UpdateCustomerResult × Repository
as_updated request prepared (ok (CustomerUpdateResult.applied row), after) =
    (ok (record { customer = prepared.customer; changes = prepared.entries }), after)
as_updated request prepared (ok (CustomerUpdateResult.not_applied true), after) =
    (err (UseCaseError.version_conflict request.customer_id request.expected_version), after)
as_updated request prepared (ok (CustomerUpdateResult.not_applied false), after) =
    (err (UseCaseError.not_found request.customer_id), after)
as_updated request prepared (err e, after) = (err (UseCaseError.repository_failed e), after)

-- The write; `between` is what other writers do to the repository while `updateCustomer` waits,
-- after it has read the row and before its own write.
abbrev pub write_prepared :
    Option (Text → Text)
    → UpdateRequest
    → (between : Repository → Repository) → Repository
    → Outcome UseCaseError Prepared
    → Outcome UseCaseError UpdateCustomerResult × Repository
write_prepared derive request between before (ok prepared) = as_updated request prepared (
    update_versioned_with_changes derive (update_input request prepared.changes) prepared.entries
      (between before))
write_prepared derive request between before (err e) = (err e, before)

abbrev pub update_read :
    Option (Text → Text)
    → UpdateRequest
    → (between : Repository → Repository) → Repository
    → Option CustomerRecord
    → Outcome UseCaseError UpdateCustomerResult × Repository
update_read derive request between before none =
    (err (UseCaseError.not_found request.customer_id), before)
update_read derive request between before (some row) =
    write_prepared derive request between before (prepare_update request row)

-- `updateCustomer`, with a repository that has `updateVersionedWithChanges`
unfoldable pub update_customer :
    Option (Text → Text)
    → UpdateRequest
    → (between : Repository → Repository) → Repository
    → Outcome UseCaseError UpdateCustomerResult × Repository
update_customer derive request between before =
    update_read derive request between before (find_by_id request.customer_id before)

-- Nobody else writes.
abbrev pub undisturbed : Repository → Repository
undisturbed r = r

abbrev recent_of : Option (Text → List ChangeLogEntry) → Text → List ChangeLogEntry
recent_of none customer_id = []
recent_of (some recent_changes) customer_id = recent_changes customer_id

-- `getCustomer`; the detail is the row with its recent changes.
unfoldable pub get_customer :
    Option (Text → List ChangeLogEntry)
    → Text
    → Repository
    → Outcome UseCaseError (CustomerRecord × List ChangeLogEntry)
get_customer recent_changes customer_id repository =
    if trim customer_id == []
    then err (UseCaseError.not_found customer_id)
    else elim (find_by_id customer_id repository) [
      | none ↦ err (UseCaseError.not_found customer_id)
      | some row ↦ ok (row, recent_of recent_changes customer_id)
    ]

pub record CustomerChangePage : Type 0 where
  pub items : List ChangeLogEntry
  pub page : ℕ
  pub page_size : ℕ
  pub total : ℕ

-- `listChanges` of list-changes.ts
unfoldable pub list_change_page :
    Text → (page page_size : ℕ) → Repository → Outcome UseCaseError CustomerChangePage
list_change_page customer_id page page_size repository = do
  throw_if (ltb page 1) UseCaseError.page_invalid
  throw_if (ltb page_size 1 || ltb 100 page_size) UseCaseError.page_invalid
  elim (find_by_id customer_id repository) [
    | none ↦ err (UseCaseError.not_found customer_id)
    | some row ↦ ok (record {
      items = take page_size (drop ((page - 1) * page_size) (list_changes customer_id repository));
      page = page;
      page_size = page_size;
      total = length (list_changes customer_id repository);
    })
  ]
