-- ===== src/Customers/UseCases/Creation.antt =====
-- What `createCustomer` of src/customers/application/create-customer.ts leaves behind, and the values
-- that it takes.
use dsh_backend_team.Base.{
  codes, ◌++◌, List, ℕ, ◌≤◌, ◌≡◌, refl, Bool, true, false, Option, none, some, [], ◌∷◌, Text, ◌==◌,
  trim, length, ltb, arith,
}
use dsh_backend_team.Base.Outcomes.{Ensures-ok, ok, err, Ensures, if-Ensures}
use dsh_backend_team.Json.{get, Fields, Json}
use dsh_backend_team.Customers.Patterns.{is_phone, is_email}
use dsh_backend_team.Customers.Customer.{
  values_or_errors, note_of, FieldError, company_of, email_of, contact_person_of, phone_of, name_of,
  text_or_empty, coerce_create, MutableValues, TextResult, FieldErrorCode, read_text, absent, fails,
  validate_text, validate_phone, validate_email, error_of, value_of,
}

-- A text that is there, has 1 to `max` code units and passes the test.
abbrev Fits : (Text → Bool) → ℕ → Option Text → Type 0
Fits p max none = Unit
Fits p max (some t) = (1 ≤ length t) × (length t ≤ max) × (p t ≡ true)

abbrev Reads : (Option Text → Type 0) → TextResult → Type 0
Reads P r = Ensures P r

read_text-Reads :
    (P : Option Text → Type 0) (must : Bool) (field : Text) (check : Text → TextResult)
    (raw : Option Json)
    → Reads P (absent must field)
    → ((t : Text) → (t == []) ≡ false → Reads P (check t))
    → Reads P (read_text must field check raw)
unfolding read_text
read_text-Reads P must field check none h k = h
read_text-Reads P must field check (some Json.null) h k = h
read_text-Reads P must field check (some (Json.str raw)) h k =
    if-Ensures P (trim raw == []) (absent must field) (check (trim raw)) (λ _. h) (k (trim raw))
read_text-Reads P must field check (some (Json.bool b)) h k = tt
read_text-Reads P must field check (some Json.num) h k = tt
read_text-Reads P must field check (some (Json.arr xs)) h k = tt
read_text-Reads P must field check (some (Json.obj fs)) h k = tt

length_of_text : (t : Text) → (t == []) ≡ false → 1 ≤ length t
unfolding ◌==◌
length_of_text [] h = absurd (ground arith)
length_of_text (c ∷ s) h = omega arith

abbrev any_text : Text → Bool
any_text t = true

-- Present where the field is required.
abbrev FitsField : Bool → (Text → Bool) → ℕ → Option Text → Type 0
FitsField true p max none = ⊥
FitsField false p max none = Unit
FitsField must p max (some t) = Fits p max (some t)

absent-Reads :
    (must : Bool) (p : Text → Bool) (max : ℕ) (field : Text)
    → Reads (FitsField must p max) (absent must field)
absent-Reads true p max field = tt
absent-Reads false p max field = tt

some-FitsField :
    (must : Bool) (p : Text → Bool) (max : ℕ) (t : Text)
    → Fits p max (some t)
    → FitsField must p max (some t)
some-FitsField true p max t h = h
some-FitsField false p max t h = h

validate_text-Reads :
    (field : Text) (max : ℕ) (must : Bool) (raw : Option Json)
    → Reads (FitsField must any_text max) (validate_text field max must raw)
unfolding validate_text
validate_text-Reads field max must raw =
    read_text-Reads (FitsField must any_text max) must field _ raw
      (absent-Reads must any_text max field)
      (λ t present.
        if-Ensures (FitsField must any_text max) (ltb max (length t))
          (fails field FieldErrorCode.too_long) (ok (some t)) (λ _. tt)
          (λ short.
            some-FitsField must any_text max t
              (length_of_text t present, ground (arith, short), refl)))

validate_phone-Reads :
    (field : Text) (raw : Option Json)
    → Reads (FitsField true is_phone 20) (validate_phone field raw)
unfolding validate_phone
validate_phone-Reads field raw =
    read_text-Reads (FitsField true is_phone 20) true field _ raw tt (λ t present.
      if-Ensures (FitsField true is_phone 20) (is_phone t) (ok (some t))
        (fails field FieldErrorCode.invalid_format)
        (λ shaped. (length_of_text t present, ground (arith, shaped), shaped)) (λ _. tt))

validate_email-Reads :
    (field : Text) (raw : Option Json)
    → Reads (FitsField false is_email 100) (validate_email field raw)
unfolding validate_email
validate_email-Reads field raw =
    read_text-Reads (FitsField false is_email 100) false field _ raw tt (λ t present.
      if-Ensures (FitsField false is_email 100) (ltb 100 (length t))
        (fails field FieldErrorCode.too_long) _ (λ _. tt)
        (λ short.
          if-Ensures (FitsField false is_email 100) (is_email t) (ok (some t))
            (fails field FieldErrorCode.invalid_format)
            (λ shaped. (length_of_text t present, ground (arith, short), shaped)) (λ _. tt)))

-- The values that the contract admits.
pub record IsAdmitted (v : MutableValues) : Type 0 where
  pub name : Fits any_text 100 (some v.name)
  pub phone : Fits is_phone 20 (some v.phone)
  pub contact_person : Fits any_text 50 v.contact_person
  pub email : Fits is_email 100 v.email
  pub company : Fits any_text 100 v.company
  pub note : Fits any_text 1000 v.note

no_error : (r : TextResult) → error_of r ≡ [] → r ≡ ok (value_of r)
no_error (ok v) h = refl
no_error (err e) h = absurd (ground arith)

append_nil_parts : {A : Type 0} (xs ys : List A) → xs ++ ys ≡ [] → (xs ≡ []) × (ys ≡ [])
append_nil_parts [] ys h = (refl, h)
append_nil_parts (x ∷ xs) ys h = absurd (ground arith)

module _ (p : Text → Bool) (max : ℕ) (r : TextResult) (clean : error_of r ≡ []) where
  required_value : Reads (FitsField true p max) r → Fits p max (some (text_or_empty (value_of r)))
  required_value h =
      go (value_of r) (Ensures-ok (FitsField true p max) r (value_of r) h (no_error r clean))
    where
      go : (v : Option Text) → FitsField true p max v → Fits p max (some (text_or_empty v))
      go none k = absurd k
      go (some t) k = k

  optional_value : Reads (FitsField false p max) r → Fits p max (value_of r)
  optional_value h =
      go (value_of r) (Ensures-ok (FitsField false p max) r (value_of r) h (no_error r clean))
    where
      go : (v : Option Text) → FitsField false p max v → Fits p max v
      go none k = tt
      go (some t) k = k

values_or_errors-Ensures :
    (P : MutableValues → Type 0) (errors : List FieldError) (v : MutableValues)
    → (errors ≡ [] → P v)
    → Ensures P (values_or_errors errors v)
values_or_errors-Ensures P [] v h = h refl
values_or_errors-Ensures P (e ∷ errors) v h = tt

-- The values that a creation takes are within the bounds of the contract, whatever the body: the
-- name has 1 to 100 code units, the phone fits its pattern, and the contact person, the email, the
-- company and the note are absent or non-empty and at most 50, 100, 100 and 1000 long, the email in
-- its pattern.
pub coerce_create-IsAdmitted : (body : Fields) → Ensures IsAdmitted (coerce_create body)
unfolding coerce_create
coerce_create-IsAdmitted body = values_or_errors-Ensures IsAdmitted _ _ (λ clean.
    let (rest, no_note) = append_nil_parts _ (error_of (note_of body)) clean in
    let (rest', no_company) = append_nil_parts _ (error_of (company_of body)) rest in
    let (rest'', no_email) = append_nil_parts _ (error_of (email_of body)) rest' in
    let (rest''', no_contact) = append_nil_parts _ (error_of (contact_person_of body)) rest'' in
    let (no_name, no_phone) =
      append_nil_parts (error_of (name_of body)) (error_of (phone_of body)) rest''' in
    record {
      name =
          required_value any_text 100 (name_of body) no_name
            (validate_text-Reads (codes "name") 100 true (get (codes "name") body));
      phone =
          required_value is_phone 20 (phone_of body) no_phone
            (validate_phone-Reads (codes "phone") (get (codes "phone") body));
      contact_person =
          optional_value any_text 50 (contact_person_of body) no_contact (
            validate_text-Reads (codes "contactPerson") 50 false
              (get (codes "contactPerson") body));
      email =
          optional_value is_email 100 (email_of body) no_email
            (validate_email-Reads (codes "email") (get (codes "email") body));
      company =
          optional_value any_text 100 (company_of body) no_company
            (validate_text-Reads (codes "company") 100 false (get (codes "company") body));
      note =
          optional_value any_text 1000 (note_of body) no_note
            (validate_text-Reads (codes "note") 1000 false (get (codes "note") body));
    })
