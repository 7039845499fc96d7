-- ===== src/Customers/UseCases/ReadBack.antt =====
-- What `createCustomer` of src/customers/application/create-customer.ts stores, read back as
-- update-customer.ts reads it.
use dsh_backend_team.Customers.Repository.Contract.{if_match-eq-if}
use mathlib.Core.Path.{subst}
use dsh_backend_team.Customers.UseCases.Update.{throwing-Ensures}
use dsh_backend_team.Customers.Patterns.{is_customer_id}
use dsh_backend_team.Base.{
  lookup-set, ◌∙◌, if◌then◌else◌, sym, ap, ◌≡◌, refl, true, false, not, Option, none, some, List,
  [], Text, ◌==◌, codes, trim, lookup, is_some, arith,
}
use dsh_backend_team.Base.Outcomes.{
  ◌>>=◌, Outcome, ok, err, Ensures, bind-Ensures, seq-Ensures, throw_if-Ensures, if-Ensures,
}
use dsh_backend_team.Json.{Fields}
use dsh_backend_team.Customers.Customer.{
  Customer, MutableValues, FieldError, CreateResult, create, coerce_create, create_with,
}
use dsh_backend_team.Customers.Repository.{
  RepositoryError, CustomerRecord, text, read_timestamp, resolve_columns,
}
use dsh_backend_team.Customers.Repository.Calls.{
  write_row, insert, Repository, inserted_row, new_row, check_unique, values,
}
use dsh_backend_team.Customers.Repository.Sound.{unless_owned-Ensures}
use dsh_backend_team.Customers.UseCases.{
  insert_created, as_created, create_customer, UseCaseError, throwing, customer_of,
  created_customer, to_insert_input, aggregate_of,
}
use dsh_backend_team.Customers.UseCases.Agreement.{
  Agree, resolve_columns-Agree, required_column-same, nullable_column-same, read_required_text-same,
}
use dsh_backend_team.Customers.UseCases.Creation.{IsAdmitted, coerce_create-IsAdmitted}

read_timestamp-same :
    (value column : Text) → Ensures (λ v. v ≡ value) (read_timestamp (text value) column)
unfolding read_timestamp
read_timestamp-same value column =
    bind-Ensures (λ v. v ≡ value) (λ v. v ≡ value) _ _
      (read_required_text-same value column 40 true)
      (λ v e. throw_if-Ensures (λ t. t ≡ value) _ _ (ok v) (λ _. e))

created_columns-Agree :
    (derive phone_key_for : Option (Text → Text)) (c : Customer)
    → Ensures
        (λ columns. Agree columns c.values)
        (resolve_columns derive none (to_insert_input phone_key_for c).columns)
unfolding to_insert_input
created_columns-Agree derive phone_key_for c =
    resolve_columns-Agree derive none (to_insert_input phone_key_for c).columns c.values
      (required_column-same c.values.name none (codes "name") 100)
      (required_column-same c.values.phone none (codes "phone") 20)
      (nullable_column-same c.values.contact_person none (codes "contact_person") 50)
      (nullable_column-same c.values.email none (codes "email") 100)
      (nullable_column-same c.values.company none (codes "company") 100)
      (nullable_column-same c.values.note none (codes "note") 1000)

-- A new customer, as the table has it.
abbrev first_version : Customer → Customer
first_version c = record c { version = 1 }

abbrev IsRowOf : Customer → CustomerRecord → Type 0
IsRowOf c row = aggregate_of row ≡ first_version c

inserted_row-same :
    (derive phone_key_for : Option (Text → Text)) (c : Customer)
    → Ensures (IsRowOf c) (inserted_row derive (to_insert_input phone_key_for c))
unfolding inserted_row to_insert_input
inserted_row-same derive phone_key_for c =
    let Q : CustomerRecord → Type 0 = IsRowOf c in
    seq-Ensures Q _ _ (
      seq-Ensures Q _ _ (
        bind-Ensures (λ v. v ≡ c.customer_id) Q _ _
          (read_required_text-same c.customer_id (codes "customer_id") 40 true)
          (λ id e1. throw_if-Ensures Q _ _ _ (λ _.
            bind-Ensures (λ v. v ≡ c.created_by) Q _ _
              (read_required_text-same c.created_by (codes "created_by") 64 true)
              (λ created_by e2.
                bind-Ensures (λ v. v ≡ c.updated_by) Q _ _
                  (read_required_text-same c.updated_by (codes "updated_by") 64 true)
                  (λ updated_by e3.
                    bind-Ensures (λ v. v ≡ c.created_at) Q _ _
                      (read_timestamp-same c.created_at (codes "created_at"))
                      (λ created_at e4.
                        bind-Ensures (λ v. v ≡ c.updated_at) Q _ _
                          (read_timestamp-same c.updated_at (codes "updated_at"))
                          (λ updated_at e5. throw_if-Ensures Q _ _ _ (λ _.
                            bind-Ensures (λ columns. Agree columns c.values) Q
                              (resolve_columns derive none
                                (to_insert_input phone_key_for c).columns)
                              (λ columns.
                                ok (new_row id created_by updated_by created_at updated_at columns))
                              (created_columns-Agree derive phone_key_for c)
                              (λ columns a. cc (
                                e1, e2, e3, e4, e5, a.name, a.contact_person, a.phone, a.email,
                                a.company, a.note,
                              )))))))))))

check_unique-fresh :
    (rows : List (Text × CustomerRecord)) (row : CustomerRecord)
    → Ensures (λ r. (r ≡ row) × (lookup row.customer_id rows ≡ none)) (check_unique rows row)
unfolding check_unique
check_unique-fresh rows row =
    if-Ensures (λ r. (r ≡ row) × (lookup row.customer_id rows ≡ none))
      (is_some (lookup row.customer_id rows)) _ _ (λ e. tt)
      (λ e.
        unless_owned-Ensures row (λ r. (r ≡ row) × (lookup row.customer_id rows ≡ none)) _
          (λ k. (refl, absent_of (lookup row.customer_id rows) e)))
  where
    absent_of : (o : Option CustomerRecord) → is_some o ≡ false → o ≡ none
    absent_of none h = refl
    absent_of (some r) h = absurd (ground arith)

-- What is stored is a first version with admitted values.
abbrev IsFirst : Customer → Type 0
IsFirst c = (c.version ≡ 1) × IsAdmitted c.values

abbrev IsFirstResult : CreateResult → Type 0
IsFirstResult (CreateResult.created c ignored) = IsFirst c
IsFirstResult (CreateResult.not_created errors ignored) = Unit

create-IsFirst :
    (body : Fields) (actor new_id now : Text) → Ensures IsFirstResult (create body actor new_id now)
unfolding create
create-IsFirst body actor new_id now = go (coerce_create body) (coerce_create-IsAdmitted body)
  where
    go :
        (o : Outcome (List FieldError) MutableValues)
        → Ensures IsAdmitted o
        → Ensures IsFirstResult (create_with body actor new_id now o)
    go (err errors) h = tt
    go (ok values) h =
        throw_if-Ensures IsFirstResult (trim actor == []) _ _
          (λ _. throw_if-Ensures IsFirstResult (not (is_customer_id new_id)) _ _ (λ _. (refl, h)))

created_customer-IsFirst :
    (draft : Fields) (actor new_id now : Text)
    → Ensures IsFirst (created_customer draft actor new_id now)
unfolding created_customer
created_customer-IsFirst draft actor new_id now =
    bind-Ensures IsFirstResult IsFirst
      (throwing UseCaseError.domain (create draft actor new_id now)) _
      (throwing-Ensures IsFirstResult UseCaseError.domain _ (create-IsFirst draft actor new_id now))
      as_first
  where
    as_first : (r : CreateResult) → IsFirstResult r → Ensures IsFirst (customer_of r)
    as_first (CreateResult.created c ignored) h = h
    as_first (CreateResult.not_created errors ignored) h = tt

-- What a successful creation leaves behind.
pub record Created (before after : Repository) (customer : Customer) : Type 0 where
  pub row : CustomerRecord
  pub fresh : lookup customer.customer_id before.rows ≡ none
  pub table :
      (j : Text)
      → lookup j after.rows ≡ (if customer.customer_id == j then some row else lookup j before.rows)
  pub same : aggregate_of row ≡ customer
  pub first : customer.version ≡ 1
  pub admitted : IsAdmitted customer.values
  pub unlogged : after.changes ≡ before.changes

-- What the checks have found of the row of a new customer.
abbrev IsStored : Repository → Customer → CustomerRecord → Type 0
IsStored before customer row = IsRowOf customer row × (lookup row.customer_id before.rows ≡ none)

check_unique-IsStored :
    (derive phone_key_for : Option (Text → Text)) (before : Repository) (customer : Customer)
    → Ensures (IsStored before customer) (
        inserted_row derive (to_insert_input phone_key_for customer) >>= λ row.
        check_unique before.rows row)
check_unique-IsStored derive phone_key_for before customer =
    bind-Ensures (IsRowOf customer) (IsStored before customer) _
      (λ row. check_unique before.rows row) (inserted_row-same derive phone_key_for customer)
      (λ row e. kept row e (check_unique before.rows row) (check_unique-fresh before.rows row))
  where
    kept :
        (row : CustomerRecord)
        → IsRowOf customer row
        → (o : Outcome RepositoryError CustomerRecord)
        → Ensures (λ r. (r ≡ row) × (lookup row.customer_id before.rows ≡ none)) o
        → Ensures (IsStored before customer) o
    kept row e (ok r) h = subst (IsStored before customer) (sym h.0) (e, h.1)
    kept row e (err x) h = tt

value_or : Customer → Outcome UseCaseError Customer → Customer
value_or default (ok c) = c
value_or default (err e) = default

module _ (derive phone_key_for : Option (Text → Text)) (before after : Repository)
    (customer : Customer) where
  write_row-Created :
      (c : Customer) (o : Outcome RepositoryError CustomerRecord)
      → IsFirst c
      → Ensures (IsStored before c) o
      → as_created c (write_row o before) ≡ (ok customer, after)
      → Created before after customer
  unfolding value_or
  write_row-Created c (err e) first h k = absurd (ground arith)
  write_row-Created c (ok row) first h k =
      let given : c ≡ customer = ap (λ p. value_or c p.0) k in
      let numbered : first_version c ≡ c = cc (first.0) in
      let same : aggregate_of row ≡ customer = h.0 ∙ numbered ∙ given in
      let id : row.customer_id ≡ customer.customer_id = ap (λ d. d.customer_id) same in
      record {
        row = row;
        fresh = ap (λ j. lookup j before.rows) (sym id) ∙ h.1;
        table = λ j.
            ap (λ p. lookup j p.1.rows) (sym k)
            ∙ lookup-set j row.customer_id row before.rows
            ∙ if_match-eq-if (row.customer_id == j) row (lookup j before.rows)
            ∙ ap (λ i. if i == j then some row else lookup j before.rows) id;
        same = same;
        first = ap (λ d. d.version) (sym given) ∙ first.0;
        admitted = subst (λ d. IsAdmitted d.values) given first.1;
        unlogged = ap (λ p. p.1.changes) (sym k);
      }

  -- A successful `createCustomer` writes one new row under an identifier that no row had, and leaves
  -- all other rows and the logs as they were. Read back, the row is the aggregate that the call
  -- gives: nothing is lost between the columns and the fields. Its version is 1, and its values are
  -- within the bounds of the contract.
  pub create_customer-Created :
      (draft : Fields) (actor new_id now : Text)
      → create_customer derive phone_key_for draft actor new_id now before ≡ (ok customer, after)
      → Created before after customer
  unfolding create_customer insert
  create_customer-Created draft actor new_id now =
      go (created_customer draft actor new_id now) (created_customer-IsFirst draft actor new_id now)
    where
      go :
          (o : Outcome UseCaseError Customer)
          → Ensures IsFirst o
          → insert_created derive phone_key_for before o ≡ (ok customer, after)
          → Created before after customer
      go (ok c) first k =
          write_row-Created c _ first (check_unique-IsStored derive phone_key_for before c) k
      go (err e) first k = absurd (ground arith)
