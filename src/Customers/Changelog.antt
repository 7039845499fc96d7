-- ===== src/Customers/Changelog.antt =====
-- The change log of src/customers/domain/changelog.ts, with the redaction of support/redaction.ts.
use dsh_backend_team.Base.{
  ℕ, zero, suc, ◌-◌, not, ◌||◌, Option, none, some, [], ◌∷◌, ◌++◌, Text, ◌==◌, trim, length, leb,
  nat_eq, filter, take, drop, if◌then◌else◌,
}
use Prim.Native.Nat.{min, max}
use dsh_backend_team.Base.Outcomes.{Outcome, ok, ◌>>◌, throw_if}
use dsh_backend_team.Customers.Patterns.{is_digit, is_timestamp}

-- `CUSTOMER_CHANGE_FIELDS`
pub data ChangeField : Type 0 where
  name : ChangeField
  contact_person : ChangeField
  phone : ChangeField
  email : ChangeField
  company : ChangeField
  note : ChangeField

pub record ChangeLogEntry : Type 0 where
  pub field : ChangeField
  pub old_value : Option Text
  pub new_value : Option Text
  pub changed_by : Text
  pub changed_at : Text
  pub request_id : Option Text

-- `ChangeLogValidationError`; the fields are those of the type, so that the first guard always
-- passes.
pub data ChangeLogError : Type 0 where
  changed_by_missing : ChangeLogError
  changed_at_invalid : ChangeLogError

stars : ℕ → Text
stars zero = []
stars (suc n) = b'*' ∷ stars n

-- `digits.slice(-4)`
abbrev last_four : Text → Text
last_four digits = drop (length digits - 4) digits

unfoldable redact_digits : Text → Text
unfolding stars
redact_digits digits =
    if nat_eq (length digits) 0
    then stars 4
    else if leb (length digits) 4
    then stars (length digits)
    else take (min 3 (max 1 (length digits - 4))) digits ++ stars 4 ++ last_four digits

-- `redactPhone`
unfoldable pub redact_phone : Text → Text
unfolding redact_digits
redact_phone value = redact_digits (filter is_digit value)

-- `value.slice(value.indexOf('@'))`, and `none` without an `@`
from_at : Text → Option Text
from_at [] = none
from_at (c ∷ s) = let rest = from_at s in if nat_eq c b'@' then some (c ∷ s) else rest

-- `redactEmail`: the `@` must be neither the first nor the last.
unfoldable pub redact_email : Text → Text
unfolding from_at stars
redact_email [] = stars 3
redact_email (c ∷ s) = elim (from_at s) [
  | none ↦ stars 3
  | some tail ↦ if nat_eq c b'@' || leb (length tail) 1 then stars 3 else (c ∷ stars 3) ++ tail
]

abbrev map_text : (Text → Text) → Option Text → Option Text
map_text f none = none
map_text f (some value) = some (f value)

-- `redactCustomerValue`
unfoldable pub redact_customer_value : ChangeField → Option Text → Option Text
redact_customer_value ChangeField.phone value = map_text redact_phone value
redact_customer_value ChangeField.email value = map_text redact_email value
redact_customer_value ChangeField.name value = value
redact_customer_value ChangeField.contact_person value = value
redact_customer_value ChangeField.company value = value
redact_customer_value ChangeField.note value = value

-- `createChangeLogEntry`, on the values before they are redacted
unfoldable pub create_change_log_entry : ChangeLogEntry → Outcome ChangeLogError ChangeLogEntry
create_change_log_entry input = do
  throw_if (trim input.changed_by == []) ChangeLogError.changed_by_missing
  throw_if (not (is_timestamp input.changed_at)) ChangeLogError.changed_at_invalid
  ok (record input {
    old_value = redact_customer_value input.field input.old_value;
    new_value = redact_customer_value input.field input.new_value;
  })
