-- ===== src/Customers/Tests.antt =====
-- Runs of src/customers, and its theorems at concrete inputs.
use mathlib.Core.Option.{some-injective}
use dsh_backend_team.Base.{
  ◌∙◌, sym, ◌≡◌, ◌≢◌, refl, Option, none, some, [], ◌∷◌, Text, codes, ◌==◌, text_lt, sort, trim,
  trim_start, is_space, lookup, set, arith,
}
use dsh_backend_team.Base.Outcomes.{ok, err, ◌>>=◌, ◌>>◌, throw_if, Ensures}
use dsh_backend_team.Json.{Json, Fields, end, field}
use dsh_backend_team.Customers.Patterns.{
  normalize_phone_key, is_customer_id, is_timestamp, is_email,
}
use dsh_backend_team.Customers.Customer.{
  Customer, coerce_create, create, restore, attempt_update, with_applied_update, read_text,
  validate_text, validate_phone, validate_email,
}
use dsh_backend_team.Customers.Changelog.{
  ChangeField, ChangeLogEntry, create_change_log_entry, redact_customer_value,
}
use dsh_backend_team.Customers.Repository.{
  CustomerRecord, Column, CustomerVersionedPatch, CustomerVersionedUpdateInput, applied,
  RepositoryError, read_required_text, read_nullable_text, read_timestamp, required_column,
  nullable_column, key_of_phone, resolve_columns,
}
use dsh_backend_team.Customers.Repository.Calls.{
  Repository, inserted_row, check_unique, insert, assert_patch_keys, check_update, updated_of,
  update_versioned, update_versioned_with_changes,
}
use dsh_backend_team.Customers.Repository.Invariant.{IsSound}
use dsh_backend_team.Customers.Repository.Contract.{
  view, Allowed, update_versioned-Allowed, update_versioned-no_lost_update,
}
use dsh_backend_team.Customers.UseCases.{
  UseCaseError, UpdateRequest, UpdateCustomerResult, to_insert_input, created_customer,
  create_customer, update_customer, to_persistence_patch, raw_entries, create_entries,
  build_change_entries, requested_changes, prepare_update, update_input,
}
use dsh_backend_team.Customers.UseCases.Update.{Updated, update_customer-Updated}
use dsh_backend_team.Customers.UseCases.Creation.{IsAdmitted, coerce_create-IsAdmitted}
use dsh_backend_team.Customers.UseCases.ReadBack.{Created, create_customer-Created}
use dsh_backend_team.Customers.UseCases.Sequences.{
  Call, call, after_all, empty, after_all-IsSound, call-unwritten,
}

abbrev derive : Option (Text → Text)
derive = some normalize_phone_key

abbrev body : Fields
body = field (codes "name") (Json.str (codes " Ada ")) (
    field (codes "phone") (Json.str (codes "010-5555 12"))
      (field (codes "email") (Json.str (codes "ada@site.org")) end))

abbrev id : Text
id = codes "CST-ABCDEF"

abbrev noon : Text
noon = codes "2024-03-01T12:00:00.000Z"

abbrev creation : Call
creation = Call.creation derive body (codes "user") id noon

abbrev request : UpdateRequest
request = record {
  phone_key_for = derive;
  customer_id = id;
  expected_version = 1;
  patch = field (codes "note") (Json.str (codes "vip")) end;
  actor = codes "user";
  now = noon;
  request_id = none;
}

abbrev ada : Customer
ada = record {
  customer_id = id;
  values = record {
    name = codes "Ada";
    contact_person = none;
    phone = codes "010-5555 12";
    email = some (codes "ada@site.org");
    company = none;
    note = none;
  };
  version = 1;
  created_by = codes "user";
  updated_by = codes "user";
  created_at = noon;
  updated_at = noon;
}

abbrev row : CustomerRecord
row = record {
  customer_id = id;
  name = codes "Ada";
  contact_person = none;
  phone = codes "010-5555 12";
  phone_key = codes "010555512";
  email = some (codes "ada@site.org");
  company = none;
  note = none;
  version = 1;
  created_by = codes "user";
  updated_by = codes "user";
  created_at = noon;
  updated_at = noon;
}

abbrev one : Repository
one = record { rows = (id, row) ∷ []; changes = [] }

creation_run : create_customer derive derive body (codes "user") id noon empty ≡ (ok ada, one)
unfolding create_customer created_customer create coerce_create validate_text validate_phone
    validate_email read_text trim trim_start is_space ◌==◌ is_customer_id is_email ◌>>=◌ ◌>>◌
    throw_if insert inserted_row check_unique to_insert_input read_required_text read_nullable_text
    read_timestamp is_timestamp required_column nullable_column key_of_phone resolve_columns sort
    text_lt lookup set
creation_run = refl

creation_example : Created empty one ada
creation_example =
    create_customer-Created derive derive empty one ada body (codes "user") id noon creation_run

empty-IsSound : IsSound empty.rows
empty-IsSound = record { entries = tt; unique = tt }

one-IsSound : IsSound one.rows
unfolding is_customer_id
one-IsSound = record {
  entries = (
    (
      refl,
      record {
        identified = refl;
        reachable = refl;
        named = omega arith;
        short = omega arith;
        versioned = omega arith;
      },
    ),
    tt,
  );
  unique = (tt, tt);
}

abbrev noted : CustomerRecord
noted = record row { note = some (codes "vip"); version = 2 }

abbrev entry : ChangeLogEntry
entry = record {
  field = ChangeField.note;
  old_value = none;
  new_value = some (codes "vip");
  changed_by = codes "user";
  changed_at = noon;
  request_id = none;
}

abbrev two : Repository
two = record { rows = (id, noted) ∷ []; changes = (id, entry ∷ []) ∷ [] }

abbrev given : UpdateCustomerResult
given = record {
  customer = record ada {
    values = record {
      name = codes "Ada";
      contact_person = none;
      phone = codes "010-5555 12";
      email = some (codes "ada@site.org");
      company = none;
      note = some (codes "vip");
    };
    version = 2;
  };
  changes = entry ∷ [];
}

-- While the update waits, another writer adds to the log of another customer.
abbrev elsewhere : Repository → Repository
elsewhere r = record r { changes = (codes "other", entry ∷ []) ∷ r.changes }

abbrev three : Repository
three = record two { changes = (codes "other", entry ∷ []) ∷ (id, entry ∷ []) ∷ [] }

update_run : update_customer derive request elsewhere one ≡ (ok given, three)
unfolding update_customer prepare_update requested_changes restore attempt_update
    with_applied_update build_change_entries raw_entries create_entries create_change_log_entry
    redact_customer_value validate_text validate_phone validate_email read_text trim trim_start
    is_space ◌==◌ is_customer_id is_email ◌>>=◌ ◌>>◌ throw_if update_versioned_with_changes
    update_versioned check_update assert_patch_keys updated_of update_input to_persistence_patch
    read_required_text read_nullable_text read_timestamp is_timestamp required_column
    nullable_column key_of_phone resolve_columns sort text_lt lookup set
update_run = refl

update_example : Updated request (elsewhere one) three given
update_example =
    update_customer-Updated derive request elsewhere one one-IsSound
      (λ read stored f g v. some-injective read stored (sym f ∙ g)) three given update_run

-- A request that expects the version which another writer makes between the read and the write is
-- applied to the row of that writer, and gives back version 2 though the row now has version 3.
overtaken_run :
    (update_customer derive (record request { expected_version = 2 }) (λ r. two) one).0 ≡ ok given
unfolding update_customer prepare_update requested_changes restore attempt_update
    with_applied_update build_change_entries raw_entries create_entries create_change_log_entry
    redact_customer_value validate_text validate_phone validate_email read_text trim trim_start
    is_space ◌==◌ is_customer_id is_email ◌>>=◌ ◌>>◌ throw_if update_versioned_with_changes
    update_versioned check_update assert_patch_keys updated_of update_input to_persistence_patch
    read_required_text read_nullable_text read_timestamp is_timestamp required_column
    nullable_column key_of_phone resolve_columns sort text_lt lookup set
overtaken_run = refl

after_all_example : IsSound (after_all derive (creation ∷ Call.change request ∷ []) empty).rows
after_all_example =
    after_all-IsSound derive (creation ∷ Call.change request ∷ []) empty empty-IsSound

abbrev patch_of : Text → CustomerVersionedPatch
patch_of note = record {
  name = Column.undefined;
  contact_person = Column.undefined;
  phone = Column.undefined;
  phone_key = Column.undefined;
  email = Column.undefined;
  company = Column.undefined;
  note = Column.text note;
  other_keys = [];
}

abbrev input_of : Text → CustomerVersionedUpdateInput
input_of note = record {
  customer_id = id;
  expected_version = 1;
  patch = patch_of note;
  updated_by = codes "user";
  updated_at = noon;
}

allowed_example :
    Allowed derive
      (input_of (codes "vip"))
      (view one)
      (update_versioned derive (input_of (codes "vip")) one).0
      (view (update_versioned derive (input_of (codes "vip")) one).1)
allowed_example = update_versioned-Allowed derive (input_of (codes "vip")) one one-IsSound

applied_run : (update_versioned derive (input_of (codes "vip")) one).0 ≡ ok (applied noted)
unfolding update_versioned check_update assert_patch_keys updated_of ◌>>=◌ ◌>>◌ throw_if ◌==◌ trim
    trim_start is_space read_required_text read_nullable_text read_timestamp is_timestamp
    required_column nullable_column key_of_phone resolve_columns sort text_lt lookup set
applied_run = refl

no_lost_update_example :
    ((j : Text)
      → view
          (update_versioned derive
            (input_of (codes "new"))
            (update_versioned derive (input_of (codes "vip")) one).1).1
          j
        ≡ view (update_versioned derive (input_of (codes "vip")) one).1 j)
    × ((r : CustomerRecord)
        → (update_versioned derive
            (input_of (codes "new"))
            (update_versioned derive (input_of (codes "vip")) one).1).0
          ≢ ok (applied r))
no_lost_update_example =
    update_versioned-no_lost_update derive (input_of (codes "vip")) (input_of (codes "new")) one
      noted one-IsSound refl refl applied_run

stale_run : (call derive (Call.change request) two).0 ≡ some (UseCaseError.version_conflict id 1)
unfolding call update_customer prepare_update requested_changes restore attempt_update
    with_applied_update build_change_entries raw_entries create_entries create_change_log_entry
    redact_customer_value validate_text validate_phone validate_email read_text trim trim_start
    is_space ◌==◌ is_customer_id is_email ◌>>=◌ ◌>>◌ throw_if update_versioned_with_changes
    update_versioned check_update assert_patch_keys updated_of update_input to_persistence_patch
    read_required_text read_nullable_text read_timestamp is_timestamp required_column
    nullable_column key_of_phone resolve_columns sort text_lt lookup set
stale_run = refl

unwritten_example : (call derive (Call.change request) two).1 ≡ two
unwritten_example =
    call-unwritten derive two (Call.change request) (UseCaseError.version_conflict id 1) stale_run

admitted_example : Ensures IsAdmitted (coerce_create body)
admitted_example = coerce_create-IsAdmitted body

-- A phone of separators only fits its pattern and has no key, so that the table refuses it.
abbrev dashes : Fields
dashes =
    field (codes "name") (Json.str (codes "Ada"))
      (field (codes "phone") (Json.str (codes "------")) end)

dashes_run : create_customer derive derive dashes (codes "user") id noon empty ≡ (
  err (UseCaseError.repository_failed (RepositoryError.schema (some (codes "phone_key")))),
  empty,
)
unfolding create_customer created_customer create coerce_create validate_text validate_phone
    validate_email read_text trim trim_start is_space ◌==◌ is_customer_id is_email ◌>>=◌ ◌>>◌
    throw_if insert inserted_row check_unique to_insert_input read_required_text read_nullable_text
    read_timestamp is_timestamp required_column nullable_column key_of_phone resolve_columns sort
    text_lt lookup set
dashes_run = refl
