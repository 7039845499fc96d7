-- ===== src/Customers/Repository/Invariant.antt =====
-- The invariant of the table of customers of
-- src/customers/persistence/memory-customer-repository.ts.
use dsh_backend_team.Base.{
  find, ◌∷◌, nat_eq, trim, ◌≤◌, ◌≡◌, refl, Bool, true, false, not, ◌&&◌, ◌||◌, Option, none, some,
  List, [], Text, codes, ◌==◌, ==_sym, length, ltb, set, set-All, set-Pairs, All, All-map, Pairs,
  arith,
}
use dsh_backend_team.Base.Outcomes.{
  ok, err, Ensures, bind-Ensures, bind_any-Ensures, throw_if-Ensures, seq-Ensures, if-Ensures,
}
use dsh_backend_team.Customers.Patterns.{is_customer_id, is_phone_key}
use dsh_backend_team.Customers.Repository.{
  CustomerRecord, Column, undefined, null, text, CustomerVersionedPatch, CustomerInsertInput,
  RepositoryError, read_required_text, required_column, key_of_phone, submits_other, is_undefined,
  stored_as, resolve_key, ResolvedColumns, resolve_columns,
}
use dsh_backend_team.Customers.Repository.Calls.{inserted_row, values, new_row}

-- What the table demands of a row by itself.
pub record IsRow (row : CustomerRecord) : Type 0 where
  pub identified : is_customer_id row.customer_id ≡ true
  pub reachable : is_phone_key row.phone_key ≡ true
  pub named : 1 ≤ length row.name
  pub short : length row.name ≤ 100
  pub versioned : 1 ≤ row.version

-- Two entries with different identifiers and different keys of the phone.
abbrev pub apart : Text × CustomerRecord → Text × CustomerRecord → Bool
apart a b = not (a.0 == b.0) && not (a.1.phone_key == b.1.phone_key)

abbrev pub IsEntry : Text × CustomerRecord → Type 0
IsEntry e = (e.0 ≡ e.1.customer_id) × IsRow e.1

pub record IsSound (rows : List (Text × CustomerRecord)) : Type 0 where
  pub entries : All IsEntry rows
  pub unique : Pairs apart rows

apart-keys : (a b : Text × CustomerRecord) → apart a b ≡ true → (a.0 == b.0) ≡ false
apart-keys a b h = ground arith

-- A row is written under its identifier where no other row has the key of its phone.
pub set-IsSound :
    (rows : List (Text × CustomerRecord)) (row : CustomerRecord)
    → IsRow row
    → All (λ e. (e.0 == row.customer_id) ≡ false → (e.1.phone_key == row.phone_key) ≡ false) rows
    → IsSound rows
    → IsSound (set row.customer_id row rows)
set-IsSound rows row h free s = record {
  entries = set-All IsEntry row.customer_id row rows (refl, h) s.entries;
  unique =
      set-Pairs apart apart-keys row.customer_id row rows
        (All-map
          (λ e f k.
            let other = f k in
            (
              ground
                  (arith, k, other, ==_sym row.customer_id e.0, ==_sym row.phone_key e.1.phone_key),
              ground (arith, k, other),
            ))
          rows free)
        s.unique;
}

-- What the resolved columns give to the invariant.
abbrev pub AreSound : ResolvedColumns → Type 0
AreSound c = (is_phone_key c.phone_key ≡ true) × (1 ≤ length c.name) × (length c.name ≤ 100)

abbrev IsName : Text → Type 0
IsName name = (1 ≤ length name) × (length name ≤ 100)

read_required_text-IsName :
    (value : Column) (column : Text) → Ensures IsName (read_required_text value column 100 true)
unfolding read_required_text
read_required_text-IsName undefined column = tt
read_required_text-IsName null column = tt
read_required_text-IsName (text value) column =
    if-Ensures IsName (nat_eq (length value) 0 || ltb 100 (length value) || trim value == [])
      (err (RepositoryError.schema (some column))) (ok value) (λ h. tt) (λ h. ground (arith, h))

abbrev WhereStored : {A : Type 0} → (A → Type 0) → Option A → Type 0
WhereStored P none = Unit
WhereStored P (some a) = P a

required_column-IsName :
    (value : Column) (stored : Option Text) (column : Text)
    → WhereStored IsName stored
    → Ensures IsName (required_column value stored column 100)
unfolding required_column
required_column-IsName undefined none column h = tt
required_column-IsName undefined (some old) column h = h
required_column-IsName null stored column h = read_required_text-IsName null column
required_column-IsName (text value) stored column h = read_required_text-IsName (text value) column

key_of_phone-IsPhoneKey :
    (derive : Option (Text → Text)) (phone : Text) (submitted : Column)
    → Ensures (λ key. is_phone_key key ≡ true) (key_of_phone derive phone submitted)
unfolding key_of_phone
key_of_phone-IsPhoneKey (some f) phone submitted =
    throw_if-Ensures (λ key. is_phone_key key ≡ true) (not (is_phone_key (f phone))) _ _
      (λ h.
        throw_if-Ensures (λ key. is_phone_key key ≡ true) (submits_other submitted (f phone)) _ _
          (λ k. ground (arith, h)))
key_of_phone-IsPhoneKey none phone undefined = tt
key_of_phone-IsPhoneKey none phone null = tt
key_of_phone-IsPhoneKey none phone (text key) =
    if-Ensures (λ k. is_phone_key k ≡ true) (is_phone_key key) (ok key)
      (err (RepositoryError.schema (some (codes "phone_key")))) (λ h. h) (λ h. tt)

resolve_key-IsPhoneKey :
    (derive : Option (Text → Text)) (stored : Option CustomerRecord)
    (patch : CustomerVersionedPatch) (phone : Text)
    → WhereStored IsRow stored
    → Ensures (λ key. is_phone_key key ≡ true) (resolve_key derive stored patch phone)
resolve_key-IsPhoneKey derive none patch phone h =
    if-Ensures (λ k. is_phone_key k ≡ true) (is_undefined patch.phone) _ _ (λ e. tt)
      (λ e. key_of_phone-IsPhoneKey derive phone patch.phone_key)
resolve_key-IsPhoneKey derive (some stored) patch phone h =
    if-Ensures (λ k. is_phone_key k ≡ true) (is_undefined patch.phone) _ _ (λ e. h.reachable)
      (λ e. key_of_phone-IsPhoneKey derive phone patch.phone_key)

stored_name :
    (stored : Option CustomerRecord)
    → WhereStored IsRow stored
    → WhereStored IsName (stored_as (λ s. s.name) stored)
stored_name none h = tt
stored_name (some row) h = (h.named, h.short)

pub resolve_columns-AreSound :
    (derive : Option (Text → Text)) (stored : Option CustomerRecord)
    (patch : CustomerVersionedPatch)
    → WhereStored IsRow stored
    → Ensures AreSound (resolve_columns derive stored patch)
unfolding resolve_columns
resolve_columns-AreSound derive stored patch h = throw_if-Ensures AreSound _ _ _ (λ _.
    throw_if-Ensures AreSound _ _ _ (λ _.
      bind-Ensures IsName AreSound _ _
        (required_column-IsName patch.name (stored_as (λ s. s.name) stored) _
          (stored_name stored h))
        (λ name named. bind_any-Ensures AreSound _ _ (λ phone.
          bind_any-Ensures AreSound _ _ (λ contact_person. bind_any-Ensures AreSound _ _ (λ email.
            bind_any-Ensures AreSound _ _ (λ company. bind_any-Ensures AreSound _ _ (λ note.
              bind-Ensures (λ key. is_phone_key key ≡ true) AreSound _
                (λ key. ok (record {
                  name = name;
                  contact_person = contact_person;
                  phone = phone;
                  phone_key = key;
                  email = email;
                  company = company;
                  note = note;
                }))
                (resolve_key-IsPhoneKey derive stored patch phone h)
                (λ key shaped. (shaped, named.0, named.1))))))))))

new_row-IsRow :
    (customer_id created_by updated_by created_at updated_at : Text) (columns : ResolvedColumns)
    → is_customer_id customer_id ≡ true
    → AreSound columns
    → IsRow (new_row customer_id created_by updated_by created_at updated_at columns)
new_row-IsRow customer_id created_by updated_by created_at updated_at columns h sound = record {
  identified = h;
  reachable = sound.0;
  named = sound.1;
  short = sound.2;
  versioned = omega arith;
}

pub inserted_row-IsRow :
    (derive : Option (Text → Text)) (input : CustomerInsertInput)
    → Ensures IsRow (inserted_row derive input)
unfolding inserted_row
inserted_row-IsRow derive input = seq-Ensures IsRow _ _ (
    seq-Ensures IsRow _ _ (
      bind_any-Ensures IsRow _ _ (λ customer_id. throw_if-Ensures IsRow _ _ _ (λ shaped.
        bind_any-Ensures IsRow _ _ (λ created_by. bind_any-Ensures IsRow _ _ (λ updated_by.
          bind_any-Ensures IsRow _ _ (λ created_at. bind_any-Ensures IsRow _ _ (λ updated_at.
            throw_if-Ensures IsRow _ _ _ (λ _.
              bind-Ensures AreSound IsRow _
                (λ columns.
                  ok (new_row customer_id created_by updated_by created_at updated_at columns))
                (resolve_columns-AreSound derive none input.columns tt)
                (λ columns sound.
                  new_row-IsRow customer_id created_by updated_by created_at updated_at columns
                    (ground (arith, shaped)) sound))))))))))

-- No row has the key, where the search finds none.
pub All-values :
    (p : CustomerRecord → Bool) (rows : List (Text × CustomerRecord))
    → find p (values rows) ≡ none
    → All (λ e. p e.1 ≡ false) rows
All-values p [] h = tt
All-values p ((k, v) ∷ m) h = ground (arith, All-values p m)
