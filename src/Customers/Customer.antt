-- ===== src/Customers/Customer.antt =====
-- The `Customer` aggregate of src/customers/domain/customer.ts. A decoded body is a JSON object; a
-- `Date` is the text that `toISOString` gives. Messages of errors are left out.
use dsh_backend_team.Base.{
  ℕ, ◌+◌, Bool, true, false, not, Option, none, some, List, [], ◌∷◌, ◌++◌, Text, codes, ◌==◌, trim,
  length, ltb, map, filter, is_some, if◌then◌else◌,
}
use dsh_backend_team.Base.Outcomes.{Outcome, ok, err, ◌>>◌, throw_if}
use dsh_backend_team.Json.{Json, Fields, get}
use dsh_backend_team.Customers.Patterns.{is_customer_id, is_phone, is_email}

pub data FieldErrorCode : Type 0 where
  required : FieldErrorCode
  too_long : FieldErrorCode
  invalid_format : FieldErrorCode
  duplicated : FieldErrorCode
  immutable : FieldErrorCode

pub record FieldError : Type 0 where
  pub field : Text
  pub code : FieldErrorCode

-- `CustomerDomainError`: what the server itself supplies is wrong.
pub data CustomerDomainError : Type 0 where
  actor_missing : CustomerDomainError
  id_invalid : CustomerDomainError
  version_invalid : CustomerDomainError

-- `TextResult`: an error, or the value, which may be undefined.
abbrev pub TextResult : Type 0
TextResult = Outcome FieldError (Option Text)

abbrev pub fails : Text → FieldErrorCode → TextResult
fails field code = err (record { field = field; code = code })

-- An absent or blank value.
abbrev pub absent : Bool → Text → TextResult
absent true field = fails field FieldErrorCode.required
absent false field = ok none

-- `null`, `undefined` and blank texts are absent, and the rest goes to the check.
unfoldable pub read_text : Bool → Text → (Text → TextResult) → Option Json → TextResult
read_text must field check none = absent must field
read_text must field check (some Json.null) = absent must field
read_text must field check (some (Json.str raw)) =
    if trim raw == [] then absent must field else check (trim raw)
read_text must field check (some (Json.bool _)) = fails field FieldErrorCode.invalid_format
read_text must field check (some Json.num) = fails field FieldErrorCode.invalid_format
read_text must field check (some (Json.arr _)) = fails field FieldErrorCode.invalid_format
read_text must field check (some (Json.obj _)) = fails field FieldErrorCode.invalid_format

-- `validateText`
unfoldable pub validate_text : Text → ℕ → Bool → Option Json → TextResult
unfolding read_text
validate_text field max must raw =
    read_text must field
      (λ trimmed.
        if ltb max (length trimmed) then fails field FieldErrorCode.too_long else ok (some trimmed))
      raw

-- `validatePhone`, where the field is required
unfoldable pub validate_phone : Text → Option Json → TextResult
unfolding read_text
validate_phone field raw =
    read_text true field
      (λ trimmed.
        if is_phone trimmed then ok (some trimmed) else fails field FieldErrorCode.invalid_format)
      raw

-- `validateEmail`
unfoldable pub validate_email : Text → Option Json → TextResult
unfolding read_text
validate_email field raw =
    read_text false field
      (λ trimmed.
        if ltb 100 (length trimmed)
        then fails field FieldErrorCode.too_long
        else if is_email trimmed
        then ok (some trimmed)
        else fails field FieldErrorCode.invalid_format)
      raw

-- `IMMUTABLE_FIELDS`
abbrev pub immutable_fields : List Text
immutable_fields = codes "customerId" ∷ codes "createdAt" ∷ codes "createdBy" ∷ codes "version" ∷ []

-- The immutable fields that the body has, in the order of the list: `collectIgnoredIdentityFields`.
abbrev pub identity_fields_of : Fields → List Text
identity_fields_of body = filter (λ field. is_some (get field body)) immutable_fields

abbrev pub error_of : TextResult → List FieldError
error_of (ok v) = []
error_of (err e) = e ∷ []

abbrev pub value_of : TextResult → Option Text
value_of (ok v) = v
value_of (err e) = none

abbrev pub text_or_empty : Option Text → Text
text_or_empty none = []
text_or_empty (some t) = t

-- `CustomerMutableValues`
pub record MutableValues : Type 0 where
  pub name : Text
  pub contact_person : Option Text
  pub phone : Text
  pub email : Option Text
  pub company : Option Text
  pub note : Option Text

-- The reading of the six fields.
abbrev pub name_of : Fields → TextResult
name_of body = validate_text (codes "name") 100 true (get (codes "name") body)

abbrev pub phone_of : Fields → TextResult
phone_of body = validate_phone (codes "phone") (get (codes "phone") body)

abbrev pub contact_person_of : Fields → TextResult
contact_person_of body =
    validate_text (codes "contactPerson") 50 false (get (codes "contactPerson") body)

abbrev pub email_of : Fields → TextResult
email_of body = validate_email (codes "email") (get (codes "email") body)

abbrev pub company_of : Fields → TextResult
company_of body = validate_text (codes "company") 100 false (get (codes "company") body)

abbrev pub note_of : Fields → TextResult
note_of body = validate_text (codes "note") 1000 false (get (codes "note") body)

abbrev pub values_or_errors :
    List FieldError → MutableValues → Outcome (List FieldError) MutableValues
values_or_errors [] values = ok values
values_or_errors (e ∷ errors) values = err (e ∷ errors)

-- `coerceCreate`: every failing field is reported.
unfoldable pub coerce_create : Fields → Outcome (List FieldError) MutableValues
coerce_create body =
    values_or_errors
      (error_of (name_of body)
        ++ error_of (phone_of body)
        ++ error_of (contact_person_of body)
        ++ error_of (email_of body)
        ++ error_of (company_of body)
        ++ error_of (note_of body))
      (record {
        name = text_or_empty (value_of (name_of body));
        contact_person = value_of (contact_person_of body);
        phone = text_or_empty (value_of (phone_of body));
        email = value_of (email_of body);
        company = value_of (company_of body);
        note = value_of (note_of body);
      })

-- `Customer`, with its private fields
pub record Customer : Type 0 where
  pub customer_id : Text
  pub values : MutableValues
  pub version : ℕ
  pub created_by : Text
  pub updated_by : Text
  pub created_at : Text
  pub updated_at : Text

-- `CreateResult`
pub data CreateResult : Type 0 where
  created : Customer → (ignored_client_fields : List Text) → CreateResult
  not_created : List FieldError → (ignored_client_fields : List Text) → CreateResult

abbrev pub new_customer : MutableValues → Text → Text → Text → Customer
new_customer values created_by id now = record {
  customer_id = id;
  values = values;
  version = 1;
  created_by = created_by;
  updated_by = created_by;
  created_at = now;
  updated_at = now;
}

abbrev pub create_with :
    Fields
    → (actor new_id now : Text) → Outcome (List FieldError) MutableValues
    → Outcome CustomerDomainError CreateResult
create_with body actor new_id now (err errors) =
    ok (CreateResult.not_created errors (identity_fields_of body))
create_with body actor new_id now (ok values) = do
  throw_if (trim actor == []) CustomerDomainError.actor_missing
  throw_if (not (is_customer_id new_id)) CustomerDomainError.id_invalid
  ok (CreateResult.created (new_customer values (trim actor) new_id now) (identity_fields_of body))

-- `Customer.create`, with what `newId` and the clock give
unfoldable pub create :
    Fields → (actor new_id now : Text) → Outcome CustomerDomainError CreateResult
create body actor new_id now = create_with body actor new_id now (coerce_create body)

-- `Customer.restore`
unfoldable pub restore : Customer → Outcome CustomerDomainError Customer
restore props = do
  throw_if (not (is_customer_id props.customer_id)) CustomerDomainError.id_invalid
  throw_if (ltb props.version 1) CustomerDomainError.version_invalid
  ok props

-- `Partial<CustomerMutableValues>`: none where a field was not submitted, some of none where it is
-- cleared.
pub record Changes : Type 0 where
  pub name : Option (Option Text)
  pub contact_person : Option (Option Text)
  pub phone : Option (Option Text)
  pub email : Option (Option Text)
  pub company : Option (Option Text)
  pub note : Option (Option Text)

-- The reading of a field that the body has.
abbrev pub if_own : Text → TextResult → Fields → Option TextResult
if_own field result body = if is_some (get field body) then some result else none

abbrev pub submitted_error : Option TextResult → List FieldError
submitted_error none = []
submitted_error (some r) = error_of r

abbrev pub change_of : Option TextResult → Option (Option Text)
change_of none = none
change_of (some r) = some (value_of r)

abbrev changes_or_errors : List FieldError → Changes → Outcome (List FieldError) Changes
changes_or_errors [] changes = ok changes
changes_or_errors (e ∷ errors) changes = err (e ∷ errors)

-- `attemptUpdate`: the fields that cannot change are refused first.
unfoldable pub attempt_update : Fields → Outcome (List FieldError) Changes
attempt_update patch =
    let name = if_own (codes "name") (name_of patch) patch in
    let phone = if_own (codes "phone") (phone_of patch) patch in
    let contact_person = if_own (codes "contactPerson") (contact_person_of patch) patch in
    let email = if_own (codes "email") (email_of patch) patch in
    let company = if_own (codes "company") (company_of patch) patch in
    let note = if_own (codes "note") (note_of patch) patch in
    changes_or_errors
      (map (λ field. record { field = field; code = FieldErrorCode.immutable })
          (identity_fields_of patch)
        ++ submitted_error name
        ++ submitted_error phone
        ++ submitted_error contact_person
        ++ submitted_error email
        ++ submitted_error company
        ++ submitted_error note)
      (record {
        name = change_of name;
        contact_person = change_of contact_person;
        phone = change_of phone;
        email = change_of email;
        company = change_of company;
        note = change_of note;
      })

-- `changes.name ?? this._name`
abbrev pub text_or : Text → Option (Option Text) → Text
text_or old none = old
text_or old (some none) = old
text_or old (some (some new)) = new

-- `'email' in changes ? changes.email ?? null : this._email`
abbrev pub nullable_or : Option Text → Option (Option Text) → Option Text
nullable_or old none = old
nullable_or old (some new) = new

-- `withAppliedUpdate`
unfoldable pub with_applied_update :
    Customer → Changes → (actor now : Text) → Outcome CustomerDomainError Customer
with_applied_update c changes actor now = do
  throw_if (trim actor == []) CustomerDomainError.actor_missing
  ok (record c {
    values = record {
      name = text_or c.values.name changes.name;
      contact_person = nullable_or c.values.contact_person changes.contact_person;
      phone = text_or c.values.phone changes.phone;
      email = nullable_or c.values.email changes.email;
      company = nullable_or c.values.company changes.company;
      note = nullable_or c.values.note changes.note;
    };
    version = c.version + 1;
    updated_by = trim actor;
    updated_at = now;
  })
