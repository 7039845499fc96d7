-- ===== src/Personnel/PersonInput.antt =====
-- `validatePersonCreate` of src/personnel/domain/validation.ts and `parsePersonUpdate` of
-- service.ts: all errors of a request are collected, here by the names of the fields.
pub mod Update
use dsh_backend_team.Base.{
  ℕ, zero, suc, ◌-◌, Bool, true, false, not, ◌&&◌, ◌||◌, Option, none, some, List, [], ◌∷◌, ◌++◌,
  Text, codes, ◌==◌, trim, is_space, length, any, all, filter, map, take, drop, leb, ltb, nat_eq,
  text_lt, text_member, if◌then◌else◌, concat,
}
use dsh_backend_team.Personnel.Rows.{
  EmploymentType, full_time, part_time, contract, intern, other, PersonnelError,
}
use dsh_backend_team.Personnel.Action.{Result, ok, err, invalid}
use dsh_backend_team.Json.{Json, Fields, get, keys}
use dsh_backend_team.Personnel.Input.{is_iso_calendar_date}

-- The errors found so far, and the value that was read.
abbrev pub Read {ℓ} : Type ℓ → Type ℓ
Read A = List Text × Option A

-- `requiredString`
required_string : Fields → Text → Read Text
required_string source field = elim (get field source) [
  | none ↦ (field ∷ [], none)
  | some v ↦ elim v [
    | Json.str raw ↦ if nat_eq (length (trim raw)) 0 then (field ∷ [], none) else ([], some raw)
    | _ ↦ (field ∷ [], none)
  ]
]

-- An error for a value that is there and fails the test.
abbrev error_unless {ℓ} : {A : Type ℓ} → (A → Bool) → Text → Option A → List Text
error_unless p field none = []
error_unless p field (some a) = if p a then [] else field ∷ []

-- `checkMaxLength`
abbrev is_short : ℕ → Text → Bool
is_short max value = leb (length value) max

abbrev pub employment_type_of : Text → Option EmploymentType
employment_type_of t =
    if t == codes "full_time"
    then some full_time
    else if t == codes "part_time"
    then some part_time
    else if t == codes "contract"
    then some contract
    else if t == codes "intern"
    then some intern
    else if t == codes "other"
    then some other
    else none

abbrev is_employment_type : Text → Bool
is_employment_type t = elim (employment_type_of t) [ none ↦ false | some _ ↦ true ]

infixl 5 ◌>>=◌
abbrev ◌>>=◌ {ℓ κ} : {A : Type ℓ} {B : Type κ} → Option A → (A → Option B) → Option B
none >>= f = none
some a >>= f = f a

-- The text before the first `@` and the text behind it.
split_at : Text → Option (Text × Text)
split_at [] = none
split_at (c ∷ s) =
    let rest = split_at s in
    if nat_eq c b'@'
    then some ([], s)
    else elim rest [ none ↦ none | some (a, b) ↦ some (c ∷ a, b) ]

-- A full stop with something before it and something behind it.
has_inner_stop : Text → Bool
has_inner_stop [] = false
has_inner_stop (c ∷ s) = any (nat_eq b'.') (take (length s - 1) s)

-- /^[^\s@]+@[^\s@]+\.[^\s@]+$/
is_email : Text → Bool
unfolding split_at has_inner_stop
is_email s = elim (split_at s) [
  | none ↦ false
  | some (local, domain) ↦
      ltb 0 (length local)
      && all (λ c. not (is_space c) && not (nat_eq c b'@')) local
      && all (λ c. not (is_space c) && not (nat_eq c b'@')) domain
      && has_inner_stop domain
]

abbrev is_hex : ℕ → Bool
is_hex c = leb b'0' c && leb c b'9' || leb b'a' c && leb c b'f' || leb b'A' c && leb c b'F'

-- The groups of hexadecimal digits of a UUID, with hyphens between them.
hex_groups : List ℕ → Text → Bool
hex_groups [] s = nat_eq (length s) 0
hex_groups (n ∷ []) s = nat_eq (length s) n && all is_hex s
hex_groups (n ∷ m ∷ ns) s =
    nat_eq (length (take n s)) n
    && all is_hex (take n s)
    && elim (drop n s) [ [] ↦ false | c ∷ rest ↦ nat_eq c b'-' && hex_groups (m ∷ ns) rest ]

is_uuid : Text → Bool
unfolding hex_groups
is_uuid s = hex_groups (8 ∷ 4 ∷ 4 ∷ 4 ∷ 12 ∷ []) s

-- A field of `ContactInfo` that may be undefined, null or a text.
pub data Given : Type 0 where
  undefined null : Given
  text : Text → Given

pub record ContactInfo : Type 0 where
  pub mobile : Given
  pub email : Given

abbrev pub contact_field : Text → Text
contact_field key = codes "contact." ++ key

-- `optionalNullableString`
optional_nullable_string : Fields → Text → List Text × Given
optional_nullable_string source field = elim (get field source) [
  | none ↦ ([], undefined)
  | some v ↦ elim v [
    | Json.null ↦ ([], null)
    | Json.str raw ↦ ([], text raw)
    | _ ↦ (contact_field field ∷ [], undefined)
  ]
]

abbrev mobile_errors : Given → List Text
mobile_errors (text m) =
    if ltb 32 (length m) || nat_eq (length (trim m)) 0 then codes "contact.mobile" ∷ [] else []
mobile_errors _ = []

abbrev email_errors : Given → List Text
email_errors (text e) = if is_email e then [] else codes "contact.email" ∷ []
email_errors _ = []

abbrev is_undefined : Given → Bool
is_undefined undefined = true
is_undefined _ = false

abbrev pub contact_keys : List Text
contact_keys = codes "mobile" ∷ codes "email" ∷ []

unfoldable pub unknown_keys : List Text → Fields → List Text
unknown_keys known fs = filter (λ k. not (text_member k known)) (keys fs)

-- `validateContact`
validate_contact : Option Json → Read ContactInfo
unfolding is_email optional_nullable_string unknown_keys
validate_contact none = ([], none)
validate_contact (some Json.null) = ([], none)
validate_contact (some (Json.obj fs)) =
    let (mobile_wrong, mobile) = optional_nullable_string fs (codes "mobile") in
    let (email_wrong, email) = optional_nullable_string fs (codes "email") in
    (
      concat (
          map contact_field (unknown_keys contact_keys fs)
          ∷ mobile_wrong
          ∷ mobile_errors mobile
          ∷ email_wrong
          ∷ email_errors email
          ∷ []),
      if is_undefined mobile && is_undefined email
          then none
          else some (record { mobile = mobile; email = email }),
    )
validate_contact (some _) = (codes "contact" ∷ [], none)

pub record PersonCreateRequest : Type 0 where
  pub employee_no : Text
  pub full_name : Text
  pub contact : Option ContactInfo
  pub employment_type : EmploymentType
  pub employment_start_date : Text
  pub employment_end_date : Option Text
  pub department_id : Text
  pub department_name : Text
  pub position_id : Option Text
  pub position_name : Text
  pub reports_to_person_id : Option Text
  pub effective_from : Text

abbrev person_create_fields : List Text
person_create_fields = map codes (
    "employeeNo" ∷ "fullName" ∷ "contact" ∷ "employmentType" ∷ "employmentStartDate"
    ∷ "employmentEndDate" ∷ "departmentId" ∷ "departmentName" ∷ "positionId" ∷ "positionName"
    ∷ "reportsToPersonId" ∷ "effectiveFrom" ∷ [])

-- `employmentStartDate !== undefined && isIsoCalendarDate(start) && end < start`
abbrev ends_early : Text → Option Text → Bool
ends_early end none = false
ends_early end (some start) = is_iso_calendar_date start && text_lt end start

end_date : Option Json → Option Text → Read Text
end_date none start = ([], none)
end_date (some Json.null) start = ([], none)
end_date (some (Json.str end)) start =
    if is_iso_calendar_date end
    then (if ends_early end start then codes "employmentEndDate" ∷ [] else [], some end)
    else (codes "employmentEndDate" ∷ [], none)
end_date (some _) start = (codes "employmentEndDate" ∷ [], none)

reports_to : Option Json → Read Text
unfolding is_uuid
reports_to none = ([], none)
reports_to (some Json.null) = ([], none)
reports_to (some (Json.str id)) =
    if is_uuid id then ([], some id) else (codes "reportsToPersonId" ∷ [], none)
reports_to (some _) = (codes "reportsToPersonId" ∷ [], none)

position_id : Option Json → Read Text
position_id none = ([], none)
position_id (some (Json.str id)) =
    (error_unless (is_short 64) (codes "positionId") (some id), some id)
position_id (some _) = (codes "positionId" ∷ [], none)

-- With errors the request is refused; without, every required field was read.
abbrev outcome : List Text → Option PersonCreateRequest → Result PersonCreateRequest
outcome (e ∷ es) v = err (invalid (e ∷ es))
outcome [] none = err (invalid [])
outcome [] (some v) = ok v

unfoldable pub validate_person_create : Option Json → Result PersonCreateRequest
unfolding required_string validate_contact end_date reports_to position_id unknown_keys
validate_person_create (some (Json.obj input)) =
    let (e1, employee_no) = required_string input (codes "employeeNo") in
    let (e2, full_name) = required_string input (codes "fullName") in
    let (e3, type_raw) = required_string input (codes "employmentType") in
    let (e4, start) = required_string input (codes "employmentStartDate") in
    let (e5, department_id) = required_string input (codes "departmentId") in
    let (e6, department_name) = required_string input (codes "departmentName") in
    let (e7, position_name) = required_string input (codes "positionName") in
    let (e8, effective_from) = required_string input (codes "effectiveFrom") in
    let (e9, end) = end_date (get (codes "employmentEndDate") input) start in
    let (e10, contact) = validate_contact (get (codes "contact") input) in
    let (e11, manager) = reports_to (get (codes "reportsToPersonId") input) in
    let (e12, position) = position_id (get (codes "positionId") input) in
    outcome
      (concat (
        unknown_keys person_create_fields input
        ∷ e1
        ∷ e2
        ∷ e3
        ∷ e4
        ∷ e5
        ∷ e6
        ∷ e7
        ∷ e8
        ∷ error_unless (is_short 32) (codes "employeeNo") employee_no
        ∷ error_unless (is_short 64) (codes "fullName") full_name
        ∷ error_unless (is_short 64) (codes "departmentId") department_id
        ∷ error_unless (is_short 64) (codes "departmentName") department_name
        ∷ error_unless (is_short 64) (codes "positionName") position_name
        ∷ error_unless is_employment_type (codes "employmentType") type_raw
        ∷ error_unless is_iso_calendar_date (codes "employmentStartDate") start
        ∷ error_unless is_iso_calendar_date (codes "effectiveFrom") effective_from
        ∷ e9
        ∷ e10
        ∷ e11
        ∷ e12
        ∷ []))
      (do
        no' ← employee_no
        name ← full_name
        raw ← type_raw
        type ← employment_type_of raw
        from ← start
        department ← department_id
        department' ← department_name
        title ← position_name
        effective ← effective_from
        some (record {
          employee_no = no';
          full_name = name;
          contact = contact;
          employment_type = type;
          employment_start_date = from;
          employment_end_date = end;
          department_id = department;
          department_name = department';
          position_id = position;
          position_name = title;
          reports_to_person_id = manager;
          effective_from = effective;
        }))
validate_person_create _ = err (invalid (codes "request" ∷ []))
