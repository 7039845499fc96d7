-- ===== src/Personnel/Input.antt =====
-- The readers of request fields of src/personnel/domain/assignment.ts and validation.ts: each
-- returns a value or throws `validation_failed` with the field's name.
use dsh_backend_team.Base.{
  ℕ, ◌+◌, ◌-◌, ◌*◌, Bool, true, false, ◌&&◌, ◌||◌, not, Option, none, some, List, [], ◌∷◌, Text,
  codes, trim, length, ltb, leb, nat_eq, text_le, if◌then◌else◌,
}
use Prim.Native.Nat.{◌%◌}
use dsh_backend_team.Personnel.Rows.{PersonnelError}
use dsh_backend_team.Personnel.Action.{Result, ok, err, invalid}
use dsh_backend_team.Json.{Json, Fields, get}

-- What is thrown by the first reader is thrown by the whole.
infixl 5 ◌>>◌ ◌>>=◌
abbrev pub ◌>>◌ : {B : Type 0} → Result (Unit {0}) → Result B → Result B
err thrown >> next_reader = err thrown
ok _ >> next_reader = next_reader

abbrev pub ◌>>=◌ : {A B : Type 0} → Result A → (A → Result B) → Result B
err thrown >>= next_reader = err thrown
ok value >>= next_reader = next_reader value

abbrev pub reject_if : Bool → List Text → Result (Unit {0})
reject_if true fields = err (invalid fields)
reject_if false fields = ok tt

-- The fields of an object; `error` otherwise.
abbrev pub as_object : Option Json → PersonnelError → Result Fields
as_object (some (Json.obj fs)) e = ok fs
as_object _ e = err e

abbrev is_digit : ℕ → Bool
is_digit c = leb b'0' c && leb c b'9'

-- `Number` of decimal digits
abbrev number : Text → ℕ → ℕ
number [] acc = acc
number (c ∷ cs) acc = number cs (acc * 10 + (c - b'0'))

abbrev is_leap : ℕ → Bool
is_leap y = nat_eq (y % 4) 0 && (not (nat_eq (y % 100) 0) || nat_eq (y % 400) 0)

-- `new Date(Date.UTC(year, month, 0)).getUTCDate()` for a month from 1 to 12; `Date.UTC` reads a
-- year below 100 as one of the 1900s.
unfoldable pub days_in_month : ℕ → ℕ → ℕ
days_in_month year month =
    let y = if ltb year 100 then year + 1900 else year in
    if nat_eq month 2
    then if is_leap y then 29 else 28
    else if nat_eq month 4 || nat_eq month 6 || nat_eq month 9 || nat_eq month 11
    then 30
    else 31

unfoldable pub is_iso_calendar_date : Text → Bool
unfolding days_in_month
is_iso_calendar_date (y1 ∷ y2 ∷ y3 ∷ y4 ∷ h1 ∷ m1 ∷ m2 ∷ h2 ∷ d1 ∷ d2 ∷ []) =
    let month = number (m1 ∷ m2 ∷ []) 0 in
    let day = number (d1 ∷ d2 ∷ []) 0 in
    is_digit y1
    && is_digit y2
    && is_digit y3
    && is_digit y4
    && nat_eq h1 b'-'
    && is_digit m1
    && is_digit m2
    && nat_eq h2 b'-'
    && is_digit d1
    && is_digit d2
    && not (ltb month 1 || ltb 12 month || ltb day 1)
    && leb day (days_in_month (number (y1 ∷ y2 ∷ y3 ∷ y4 ∷ []) 0) month)
is_iso_calendar_date _ = false

-- A string that is not blank and not longer than `max`.
unfoldable pub required_text : Fields → Text → ℕ → Result Text
required_text input field max = elim (get field input) [
  | none ↦ err (invalid (field ∷ []))
  | some v ↦ elim v [
    | Json.str value ↦
        if nat_eq (length (trim value)) 0 || ltb max (length value)
        then err (invalid (field ∷ []))
        else ok value
    | _ ↦ err (invalid (field ∷ []))
  ]
]

-- A string not longer than `max`; `null` where the field is missing or null.
unfoldable pub optional_text : Fields → Text → ℕ → Result (Option Text)
optional_text input field max = elim (get field input) [
  | none ↦ ok none
  | some v ↦ elim v [
    | Json.null ↦ ok none
    | Json.str value ↦
        if ltb max (length value) then err (invalid (field ∷ [])) else ok (some value)
    | _ ↦ err (invalid (field ∷ []))
  ]
]

unfoldable pub required_date : Fields → Text → Result Text
required_date input field = elim (get field input) [
  | none ↦ err (invalid (field ∷ []))
  | some v ↦ elim v [
    | Json.str value ↦ if is_iso_calendar_date value then ok value else err (invalid (field ∷ []))
    | _ ↦ err (invalid (field ∷ []))
  ]
]

unfoldable pub optional_date : Fields → Text → Result (Option Text)
optional_date input field = elim (get field input) [
  | none ↦ ok none
  | some v ↦ elim v [
    | Json.null ↦ ok none
    | Json.str value ↦
        if is_iso_calendar_date value then ok (some value) else err (invalid (field ∷ []))
    | _ ↦ err (invalid (field ∷ []))
  ]
]

pub record AssignmentCreateRequest : Type 0 where
  pub department_id : Text
  pub department_name : Text
  pub position_name : Text
  pub effective_from : Text
  pub effective_to : Option Text
  pub position_id : Option Text
  pub reports_to_person_id : Option Text

-- `end !== null && end <= start`
abbrev ends_by : Option Text → Text → Bool
ends_by none start = false
ends_by (some end) start = text_le end start

unfoldable pub validate_assignment_create : Option Json → Result AssignmentCreateRequest
validate_assignment_create input = do
  source ← as_object input (invalid (codes "request" ∷ []))
  department_id ← required_text source (codes "departmentId") 64
  department_name ← required_text source (codes "departmentName") 64
  position_name ← required_text source (codes "positionName") 64
  effective_from ← required_date source (codes "effectiveFrom")
  position_id ← optional_text source (codes "positionId") 64
  reports_to_person_id ← optional_text source (codes "reportsToPersonId") 128
  effective_to ← optional_date source (codes "effectiveTo")
  reject_if (ends_by effective_to effective_from) (codes "effectiveTo" ∷ [])
  ok (record {
    department_id = department_id;
    department_name = department_name;
    position_name = position_name;
    effective_from = effective_from;
    effective_to = effective_to;
    position_id = position_id;
    reports_to_person_id = reports_to_person_id;
  })
