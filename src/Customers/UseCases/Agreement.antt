-- ===== src/Customers/UseCases/Agreement.antt =====
-- What the use cases of src/customers/application write is what they give back.
use dsh_backend_team.Base.{
  ℕ, ◌≡◌, refl, ap, Bool, true, false, ◌&&◌, ◌||◌, Option, none, some, [], Text, ◌==◌, trim, length,
  ltb, nat_eq, codes,
}
use dsh_backend_team.Base.Outcomes.{
  ok, err, Ensures, if-Ensures, bind-Ensures, bind_any-Ensures, seq-Ensures,
}
use dsh_backend_team.Customers.Customer.{MutableValues, Changes, text_or, nullable_or}
use dsh_backend_team.Customers.Repository.{
  CustomerRecord, text, CustomerVersionedPatch, RepositoryError, read_required_text,
  read_nullable_text, required_column, nullable_column, stored_as, resolve_key, ResolvedColumns,
  resolve_columns,
}
use dsh_backend_team.Customers.UseCases.{column_of, patched, patched_phone, to_persistence_patch}

pub read_required_text-same :
    (value column : Text) (max : ℕ) (non_blank : Bool)
    → Ensures (λ v. v ≡ value) (read_required_text (text value) column max non_blank)
unfolding read_required_text
read_required_text-same value column max non_blank =
    if-Ensures (λ v. v ≡ value)
      (nat_eq (length value) 0 || ltb max (length value) || non_blank && trim value == [])
      (err (RepositoryError.schema (some column))) (ok value) (λ h. tt) (λ h. refl)

-- A value that must not be null, and one that may be, are read as they were written.
pub nullable_column-same :
    (value : Option Text) (stored : Option (Option Text)) (column : Text) (max : ℕ)
    → Ensures (λ v. v ≡ value) (nullable_column (column_of value) stored column max)
unfolding nullable_column read_nullable_text
nullable_column-same none stored column max = refl
nullable_column-same (some value) stored column max =
    bind-Ensures (λ v. v ≡ value) (λ v. v ≡ some value) _ (λ v. ok (some v))
      (read_required_text-same value column max false) (λ v e. ap some e)

pub required_column-same :
    (value : Text) (stored : Option Text) (column : Text) (max : ℕ)
    → Ensures (λ v. v ≡ value) (required_column (text value) stored column max)
unfolding required_column
required_column-same value stored column max = read_required_text-same value column max true

-- What a patch makes of the stored column is what the changes make of the field.
nullable_column-patched :
    (change : Option (Option Text)) (old : Option Text) (column : Text) (max : ℕ)
    → Ensures
        (λ v. v ≡ nullable_or old change)
        (nullable_column (patched change) (some old) column max)
nullable_column-patched none old column max = unfold nullable_column in refl
nullable_column-patched (some value) old column max =
    nullable_column-same value (some old) column max

required_column-patched :
    (change : Option (Option Text)) (old : Text) (column : Text) (max : ℕ)
    → Ensures (λ v. v ≡ text_or old change) (required_column (patched change) (some old) column max)
unfolding required_column read_required_text
required_column-patched none old column max = refl
required_column-patched (some none) old column max = tt
required_column-patched (some (some value)) old column max =
    required_column-same value (some old) column max

required_column-patched_phone :
    (change : Option (Option Text)) (old : Text) (column : Text) (max : ℕ)
    → Ensures
        (λ v. v ≡ text_or old change)
        (required_column (patched_phone change) (some old) column max)
unfolding required_column read_required_text
required_column-patched_phone none old column max = refl
required_column-patched_phone (some none) old column max = tt
required_column-patched_phone (some (some value)) old column max =
    required_column-same value (some old) column max

-- The resolved columns are the values of the aggregate.
pub record Agree (columns : ResolvedColumns) (values : MutableValues) : Type 0 where
  pub name : columns.name ≡ values.name
  pub contact_person : columns.contact_person ≡ values.contact_person
  pub phone : columns.phone ≡ values.phone
  pub email : columns.email ≡ values.email
  pub company : columns.company ≡ values.company
  pub note : columns.note ≡ values.note

-- The values of the aggregate that the changes make.
abbrev pub changed_values : CustomerRecord → Changes → MutableValues
changed_values row changes = record {
  name = text_or row.name changes.name;
  contact_person = nullable_or row.contact_person changes.contact_person;
  phone = text_or row.phone changes.phone;
  email = nullable_or row.email changes.email;
  company = nullable_or row.company changes.company;
  note = nullable_or row.note changes.note;
}

module _ (derive : Option (Text → Text)) (stored : Option CustomerRecord)
    (patch : CustomerVersionedPatch) (v : MutableValues) where
  pub resolve_columns-Agree :
      Ensures
        (λ t. t ≡ v.name)
        (required_column patch.name (stored_as (λ s. s.name) stored) (codes "name") 100)
      → Ensures
          (λ t. t ≡ v.phone)
          (required_column patch.phone (stored_as (λ s. s.phone) stored) (codes "phone") 20)
      → Ensures
          (λ t. t ≡ v.contact_person)
          (nullable_column patch.contact_person
            (stored_as (λ s. s.contact_person) stored)
            (codes "contact_person")
            50)
      → Ensures
          (λ t. t ≡ v.email)
          (nullable_column patch.email (stored_as (λ s. s.email) stored) (codes "email") 100)
      → Ensures
          (λ t. t ≡ v.company)
          (nullable_column patch.company (stored_as (λ s. s.company) stored) (codes "company") 100)
      → Ensures
          (λ t. t ≡ v.note)
          (nullable_column patch.note (stored_as (λ s. s.note) stored) (codes "note") 1000)
      → Ensures (λ c. Agree c v) (resolve_columns derive stored patch)
  unfolding resolve_columns
  resolve_columns-Agree h1 h2 h3 h4 h5 h6 =
      let Q : ResolvedColumns → Type 0 = λ c. Agree c v in
      seq-Ensures Q _ _ (
        seq-Ensures Q _ _ (
          bind-Ensures (λ t. t ≡ v.name) Q _ _ h1
            (λ name e1.
              bind-Ensures (λ t. t ≡ v.phone) Q _ _ h2
                (λ phone e2.
                  bind-Ensures (λ t. t ≡ v.contact_person) Q _ _ h3
                    (λ contact_person e3.
                      bind-Ensures (λ t. t ≡ v.email) Q _ _ h4
                        (λ email e4.
                          bind-Ensures (λ t. t ≡ v.company) Q _ _ h5
                            (λ company e5.
                              bind-Ensures (λ t. t ≡ v.note) Q _ _ h6
                                (λ note e6.
                                  bind_any-Ensures Q (resolve_key derive stored patch phone)
                                    (λ key. ok (record {
                                      name = name;
                                      contact_person = contact_person;
                                      phone = phone;
                                      phone_key = key;
                                      email = email;
                                      company = company;
                                      note = note;
                                    }))
                                    (λ key. record {
                                      name = e1;
                                      contact_person = e3;
                                      phone = e2;
                                      email = e4;
                                      company = e5;
                                      note = e6;
                                    })))))))))

pub updated_columns-Agree :
    (derive phone_key_for : Option (Text → Text)) (row : CustomerRecord) (changes : Changes)
    → Ensures
        (λ c. Agree c (changed_values row changes))
        (resolve_columns derive (some row) (to_persistence_patch phone_key_for changes))
unfolding to_persistence_patch
updated_columns-Agree derive phone_key_for row changes =
    resolve_columns-Agree derive (some row) (to_persistence_patch phone_key_for changes)
      (changed_values row changes)
      (required_column-patched changes.name row.name (codes "name") 100)
      (required_column-patched_phone changes.phone row.phone (codes "phone") 20)
      (nullable_column-patched changes.contact_person row.contact_person (codes "contact_person")
        50)
      (nullable_column-patched changes.email row.email (codes "email") 100)
      (nullable_column-patched changes.company row.company (codes "company") 100)
      (nullable_column-patched changes.note row.note (codes "note") 1000)
