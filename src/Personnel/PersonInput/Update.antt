-- ===== src/Personnel/PersonInput/Update.antt =====
-- `parsePersonUpdate` of src/personnel/domain/service.ts.
use dsh_backend_team.Base.{
  ◌-◌, Bool, false, not, ◌&&◌, ◌||◌, Option, none, some, List, [], ◌∷◌, ◌++◌, Text, codes, trim,
  is_space, length, any, take, ltb, nat_eq, map, if◌then◌else◌, concat,
}
use dsh_backend_team.Personnel.Rows.{EmploymentType}
use dsh_backend_team.Personnel.Action.{Result, ok, err, invalid}
use dsh_backend_team.Json.{Json, Fields, get, keys}
use dsh_backend_team.Personnel.Input.{is_iso_calendar_date}
use dsh_backend_team.Personnel.PersonInput.{
  Read, Given, undefined, null, text, ContactInfo, contact_field, contact_keys, unknown_keys,
  employment_type_of,
}

-- `employment_end_date` keeps `undefined` and `null` apart.
pub record PersonUpdateRequest : Type 0 where
  pub full_name : Option Text
  pub contact : Option ContactInfo
  pub employment_type : Option EmploymentType
  pub employment_start_date : Option Text
  pub employment_end_date : Given

person_update_fields : List Text
person_update_fields =
    map codes
      ("fullName" ∷ "contact" ∷ "employmentType" ∷ "employmentStartDate" ∷ "employmentEndDate" ∷ [])

read_full_name : Option Json → Read Text
read_full_name none = ([], none)
read_full_name (some (Json.str name)) =
    if nat_eq (length (trim name)) 0 || ltb 64 (length name)
    then (codes "fullName" ∷ [], none)
    else ([], some name)
read_full_name (some _) = (codes "fullName" ∷ [], none)

read_employment_type : Option Json → Read EmploymentType
read_employment_type none = ([], none)
read_employment_type (some (Json.str t)) = elim (employment_type_of t) [
  | none ↦ (codes "employmentType" ∷ [], none)
  | some type ↦ ([], some type)
]
read_employment_type (some _) = (codes "employmentType" ∷ [], none)

-- One round of the loop over the two dates.
read_date : Text → Option Json → List Text × Given
read_date field none = ([], undefined)
read_date field (some Json.null) = ([], null)
read_date field (some (Json.str date)) =
    if is_iso_calendar_date date then ([], text date) else (field ∷ [], undefined)
read_date field (some _) = (field ∷ [], undefined)

-- The date of a start, where `null` is read as missing by the update.
abbrev start_of : Given → Option Text
start_of (text t) = some t
start_of _ = none

-- A full stop behind a first item, with an item behind it, and no white space from there on:
-- the part of /^\S+@\S+\.\S+$/ behind the `@`.
abbrev stop_inside : Text → Bool
stop_inside s = any (nat_eq b'.') (take (length s - 1) s)

abbrev after_at : Text → Bool
after_at [] = false
after_at (c ∷ s) = stop_inside s

-- /^\S+@\S+\.\S+$/ for a text without white space: some `@` behind a first item has a fitting rest.
at_fits : Text → Bool
at_fits [] = false
at_fits (c ∷ s) = nat_eq c b'@' && after_at s || at_fits s

is_loose_email : Text → Bool
unfolding at_fits
is_loose_email s = not (any is_space s) && elim s [ [] ↦ false | c ∷ rest ↦ at_fits rest ]

read_contact_field : Text → (Text → Bool) → Fields → List Text × Given
read_contact_field key fits fs = elim (get key fs) [
  | none ↦ ([], undefined)
  | some v ↦ elim v [
    | Json.null ↦ ([], null)
    | Json.str value ↦ if fits value then ([], text value) else (contact_field key ∷ [], undefined)
    | _ ↦ (contact_field key ∷ [], undefined)
  ]
]

read_contact : Option Json → Read ContactInfo
unfolding read_contact_field is_loose_email
read_contact none = ([], none)
read_contact (some (Json.obj fs)) =
    let (e1, mobile) = read_contact_field (codes "mobile") (λ m. not (ltb 32 (length m))) fs in
    let (e2, email) = read_contact_field (codes "email") is_loose_email fs in
    (
      map contact_field (unknown_keys contact_keys fs) ++ (e1 ++ e2),
      some (record { mobile = mobile; email = email }),
    )
read_contact (some _) = (codes "contact" ∷ [], none)

no_fields : Fields → List Text
no_fields fs = elim (keys fs) [ [] ↦ codes "request" ∷ [] | _ ∷ _ ↦ [] ]

abbrev update_outcome : List Text → PersonUpdateRequest → Result PersonUpdateRequest
update_outcome [] request = ok request
update_outcome (e ∷ es) request = err (invalid (e ∷ es))

unfoldable pub parse_person_update : Option Json → Result PersonUpdateRequest
unfolding read_full_name read_employment_type read_date read_contact no_fields person_update_fields
    unknown_keys
parse_person_update (some (Json.obj source)) =
    let (e1, name) = read_full_name (get (codes "fullName") source) in
    let (e2, type) = read_employment_type (get (codes "employmentType") source) in
    let (e3, start) =
      read_date (codes "employmentStartDate") (get (codes "employmentStartDate") source) in
    let (e4, end) =
      read_date (codes "employmentEndDate") (get (codes "employmentEndDate") source) in
    let (e5, contact) = read_contact (get (codes "contact") source) in
    update_outcome
      (concat
        (unknown_keys person_update_fields source ∷ no_fields source ∷ e1 ∷ e2 ∷ e3 ∷ e4 ∷ e5 ∷ []))
      (record {
        full_name = name;
        contact = contact;
        employment_type = type;
        employment_start_date = start_of start;
        employment_end_date = end;
      })
parse_person_update _ = err (invalid (codes "request" ∷ []))
