-- ===== src/Customers/Patterns.antt =====
-- The regular expressions of src/customers/domain/customer.ts, domain/changelog.ts and
-- persistence/memory-customer-repository.ts, and the key of a phone of domain/phone-key.ts.
use dsh_backend_team.Base.{
  split_on, ℕ, suc, Bool, false, not, ◌&&◌, ◌||◌, Option, none, some, [], ◌∷◌, Text, codes, leb,
  ltb, nat_eq, length, all, filter, is_space, if◌then◌else◌,
}

abbrev pub is_upper : ℕ → Bool
is_upper c = leb b'A' c && leb c b'Z'

abbrev pub is_digit : ℕ → Bool
is_digit c = leb b'0' c && leb c b'9'

abbrev is_alphanumeric : ℕ → Bool
is_alphanumeric c = is_digit c || is_upper c || leb b'a' c && leb c b'z'

-- `[0-9A-Za-z-]{6,32}` to the end
abbrev is_id_body : Text → Bool
is_id_body s =
    all (λ c. is_alphanumeric c || nat_eq c b'-') s && leb 6 (length s) && leb (length s) 32

-- The part behind `n` capital letters. No hyphen is a capital letter.
unfoldable is_id_rest : ℕ → Text → Bool
is_id_rest n [] = false
is_id_rest n (c ∷ s) =
    let rest = is_id_rest (suc n) s in
    if nat_eq c b'-' then leb 2 n && leb n 4 && is_id_body s else is_upper c && rest

-- `CUSTOMER_ID_PATTERN`
unfoldable pub is_customer_id : Text → Bool
unfolding is_id_rest
is_customer_id s = is_id_rest 0 s

abbrev is_phone_code : ℕ → Bool
is_phone_code c =
    is_digit c || nat_eq c b'(' || nat_eq c b')' || nat_eq c b'+' || nat_eq c b' ' || nat_eq c b'-'

-- `PHONE_PATTERN`
abbrev pub is_phone : Text → Bool
is_phone s = all is_phone_code s && leb 6 (length s) && leb (length s) 20

-- `[^\s@.]+`
abbrev is_label : Text → Bool
is_label s = ltb 0 (length s) && all (λ c. not (is_space c)) s

-- `[^\s@]+` before the only `@`, and at least two labels with full stops between them behind it
unfoldable pub is_email : Text → Bool
unfolding split_on
is_email s = elim (split_on b'@' s) [
  | local ∷ domain ∷ [] ↦
      is_label local && all is_label (split_on b'.' domain) && leb 2 (length (split_on b'.' domain))
  | _ ↦ false
]

-- What is behind the shape, in which `d` stands for a digit and all else for itself.
unfoldable after_shape : Text → Text → Option Text
after_shape [] s = some s
after_shape (d ∷ shape) [] = none
after_shape (d ∷ shape) (c ∷ s) =
    let rest = after_shape shape s in
    if nat_eq d b'd' && is_digit c || not (nat_eq d b'd') && nat_eq d c then rest else none

-- `\d{1,9}Z`, with `n` digits read
unfoldable is_fraction : ℕ → Text → Bool
is_fraction n [] = false
is_fraction n (c ∷ s) =
    let rest = is_fraction (suc n) s in
    if is_digit c then rest else nat_eq c b'Z' && nat_eq (length s) 0 && leb 1 n && leb n 9

-- `(?:\.\d{1,9})?Z`
abbrev is_zone : Text → Bool
is_zone [] = false
is_zone (c ∷ s) = if nat_eq c b'.' then is_fraction 0 s else nat_eq c b'Z' && nat_eq (length s) 0

-- `UTC_TIMESTAMP_PATTERN`, and `ISO_TIMESTAMP` of the change log
unfoldable pub is_timestamp : Text → Bool
unfolding after_shape is_fraction
is_timestamp s = elim (after_shape (codes "dddd-dd-ddTdd:dd:dd") s) [
  | none ↦ false
  | some rest ↦ is_zone rest
]

abbrev pub is_key_code : ℕ → Bool
is_key_code c = is_digit c || nat_eq c b'+'

-- `PHONE_KEY_PATTERN`
abbrev pub is_phone_key : Text → Bool
is_phone_key s = all is_key_code s && leb 1 (length s) && leb (length s) 20

-- `phone.replace(/[^0-9+]/g, '')`
abbrev pub key_codes : Text → Text
key_codes phone = filter is_key_code phone

-- `normalizePhoneKey`. `toLowerCase` makes a digit or `+` of no other code unit and leaves those
-- as they are, so that it makes no difference here.
abbrev pub normalize_phone_key : Text → Text
normalize_phone_key phone = key_codes phone
