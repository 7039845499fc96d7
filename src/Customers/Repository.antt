-- ===== src/Customers/Repository.antt =====
-- `MemoryCustomerRepository` of src/customers/persistence/memory-customer-repository.ts. The
-- values of a row's columns are texts, null or undefined, as the types of the callers say. Copies
-- and frozen rows are the values themselves; messages of errors are left out.
pub mod Calls
pub mod Invariant
pub mod Sound
pub mod Contract
use dsh_backend_team.Base.{
  ℕ, ◌+◌, ◌-◌, ◌*◌, Bool, true, false, not, ◌&&◌, ◌||◌, Option, none, some, List, [], ◌∷◌, ◌++◌,
  Text, codes, ◌==◌, trim, length, leb, ltb, nat_eq, map, filter, find, any, take, drop, sort,
  text_lt, text_member, lookup, set, is_some, head?, if◌then◌else◌,
}
use dsh_backend_team.Base.Outcomes.{Outcome, ok, err, ◌>>=◌, ◌>>◌, throw_if}
use dsh_backend_team.Customers.Patterns.{is_customer_id, is_timestamp, is_phone_key, key_codes}
use dsh_backend_team.Customers.Changelog.{ChangeLogEntry}

pub record CustomerRecord : Type 0 where
  pub customer_id : Text
  pub name : Text
  pub contact_person : Option Text
  pub phone : Text
  pub phone_key : Text
  pub email : Option Text
  pub company : Option Text
  pub note : Option Text
  pub version : ℕ
  pub created_by : Text
  pub updated_by : Text
  pub created_at : Text
  pub updated_at : Text

-- The value of a column in a patch; a column that is not there is undefined.
pub data Column : Type 0 where
  undefined : Column
  null : Column
  text : Text → Column

-- `CustomerVersionedPatch`, with the other keys that the object has at run time
pub record CustomerVersionedPatch : Type 0 where
  pub name : Column
  pub contact_person : Column
  pub phone : Column
  pub phone_key : Column
  pub email : Column
  pub company : Column
  pub note : Column
  pub other_keys : List Text

-- `CustomerInsertInput`: the six immutable columns, and the others as in a patch.
pub record CustomerInsertInput : Type 0 where
  pub customer_id : Column
  pub version : Option ℕ
  pub created_by : Column
  pub updated_by : Column
  pub created_at : Column
  pub updated_at : Column
  pub columns : CustomerVersionedPatch

pub record CustomerVersionedUpdateInput : Type 0 where
  pub customer_id : Text
  pub expected_version : ℕ
  pub patch : CustomerVersionedPatch
  pub updated_by : Text
  pub updated_at : Text

pub data CustomerUpdateResult : Type 0 where
  applied : CustomerRecord → CustomerUpdateResult
  not_applied : (row_exists : Bool) → CustomerUpdateResult

-- The exceptions, with the column, the keys or the customer that they name.
pub data RepositoryError : Type 0 where
  schema : Option Text → RepositoryError
  duplicate_customer_id : Text → RepositoryError
  phone_taken : (phone_key customer_id name : Text) → RepositoryError
  immutable_columns : List Text → RepositoryError

abbrev pub violates : {A : Type 0} → Text → Outcome RepositoryError A
violates column = err (RepositoryError.schema (some column))

-- `readRequiredText`
unfoldable pub read_required_text : Column → Text → ℕ → Bool → Outcome RepositoryError Text
read_required_text undefined column max non_blank = violates column
read_required_text null column max non_blank = violates column
read_required_text (text value) column max non_blank =
    if nat_eq (length value) 0 || ltb max (length value) || non_blank && trim value == []
    then violates column
    else ok value

-- `readNullableText`
unfoldable pub read_nullable_text : Column → Text → ℕ → Outcome RepositoryError (Option Text)
unfolding read_required_text
read_nullable_text undefined column max = ok none
read_nullable_text null column max = ok none
read_nullable_text (text value) column max = do
  checked ← read_required_text (text value) column max false
  ok (some checked)

-- `readTimestamp`
unfoldable pub read_timestamp : Column → Text → Outcome RepositoryError Text
unfolding read_required_text
read_timestamp value column = do
  checked ← read_required_text value column 40 true
  throw_if (not (is_timestamp checked)) (RepositoryError.schema (some column))
  ok checked

-- `IMMUTABLE_COLUMNS`
abbrev immutable_names : List Text
immutable_names =
    codes "customer_id"
    ∷ codes "version"
    ∷ codes "created_by"
    ∷ codes "created_at"
    ∷ codes "updated_by"
    ∷ codes "updated_at"
    ∷ []

abbrev sorted : List Text → List Text
sorted keys = sort (λ a b. text_lt b a) keys

-- The error that names the first of the unknown keys.
abbrev throw_if_any : List Text → Outcome RepositoryError (Unit {0})
throw_if_any [] = ok tt
throw_if_any (key ∷ keys) = err (RepositoryError.schema (some key))

abbrev pub is_undefined : Column → Bool
is_undefined undefined = true
is_undefined null = false
is_undefined (text value) = false

-- A column that must have a text: the submitted one, or the stored one.
unfoldable pub required_column : Column → Option Text → Text → ℕ → Outcome RepositoryError Text
required_column undefined none column max = violates column
required_column undefined (some old) column max = ok old
required_column null stored column max = read_required_text null column max true
required_column (text value) stored column max = read_required_text (text value) column max true

abbrev or_null : Option (Option Text) → Option Text
or_null none = none
or_null (some old) = old

-- A column that may be null: the submitted value, or the stored one, or null.
unfoldable pub nullable_column :
    Column → Option (Option Text) → Text → ℕ → Outcome RepositoryError (Option Text)
nullable_column undefined stored column max = ok (or_null stored)
nullable_column null stored column max = read_nullable_text null column max
nullable_column (text value) stored column max = read_nullable_text (text value) column max

abbrev submits_other : Column → Text → Bool
submits_other undefined derived = false
submits_other null derived = true
submits_other (text value) derived = not (value == derived)

-- The key of a submitted phone: derived where a normalizer is injected, and submitted otherwise.
unfoldable pub key_of_phone : Option (Text → Text) → Text → Column → Outcome RepositoryError Text
key_of_phone (some phone_key_for) phone submitted = do
  throw_if (not (is_phone_key (phone_key_for phone)))
      (RepositoryError.schema (some (codes "phone_key")))
  throw_if (submits_other submitted (phone_key_for phone))
      (RepositoryError.schema (some (codes "phone_key")))
  ok (phone_key_for phone)
key_of_phone none phone undefined = violates (codes "phone_key")
key_of_phone none phone null = violates (codes "phone_key")
key_of_phone none phone (text key) =
    if is_phone_key key then ok key else violates (codes "phone_key")

-- The columns that `#resolveColumns` gives.
pub record ResolvedColumns : Type 0 where
  pub name : Text
  pub contact_person : Option Text
  pub phone : Text
  pub phone_key : Text
  pub email : Option Text
  pub company : Option Text
  pub note : Option Text

abbrev pub resolve_key :
    Option (Text → Text)
    → Option CustomerRecord
    → CustomerVersionedPatch
    → Text
    → Outcome RepositoryError Text
resolve_key derive none patch phone =
    if is_undefined patch.phone
    then violates (codes "phone_key")
    else key_of_phone derive phone patch.phone_key
resolve_key derive (some stored) patch phone =
    if is_undefined patch.phone
    then ok stored.phone_key
    else key_of_phone derive phone patch.phone_key

abbrev pub stored_as : {A : Type 0} → (CustomerRecord → A) → Option CustomerRecord → Option A
stored_as f none = none
stored_as f (some stored) = some (f stored)

-- `#resolveColumns`
unfoldable pub resolve_columns :
    Option (Text → Text)
    → Option CustomerRecord
    → CustomerVersionedPatch
    → Outcome RepositoryError ResolvedColumns
resolve_columns derive stored patch = do
  throw_if
      (is_undefined patch.name
        && is_undefined patch.contact_person
        && is_undefined patch.phone
        && is_undefined patch.phone_key
        && is_undefined patch.email
        && is_undefined patch.company
        && is_undefined patch.note)
      (RepositoryError.schema none)
  throw_if (is_undefined patch.phone && not (is_undefined patch.phone_key))
      (RepositoryError.schema (some (codes "phone_key")))
  name ← required_column patch.name (stored_as (λ s. s.name) stored) (codes "name") 100
  phone ← required_column patch.phone (stored_as (λ s. s.phone) stored) (codes "phone") 20
  contact_person ←
      nullable_column patch.contact_person (stored_as (λ s. s.contact_person) stored)
        (codes "contact_person") 50
  email ← nullable_column patch.email (stored_as (λ s. s.email) stored) (codes "email") 100
  company ← nullable_column patch.company (stored_as (λ s. s.company) stored) (codes "company") 100
  note ← nullable_column patch.note (stored_as (λ s. s.note) stored) (codes "note") 1000
  phone_key ← resolve_key derive stored patch phone
  ok (record {
    name = name;
    contact_person = contact_person;
    phone = phone;
    phone_key = phone_key;
    email = email;
    company = company;
    note = note;
  })
