-- ===== src/Personnel/Laws/History.antt =====
-- The history of a person, of src/personnel/domain/lifecycle.ts: its order and its pages.
use dsh_backend_team.Base.{
  none, some, text_lt_total, Bool-cases, inr, inl, length, filter, some, is_some, All-map, ◌⊎◌,
  Bool, text_lt, Option, ◌≤◌, ℕ, zero, suc, ◌+◌, ◌*◌, ◌-◌, ◌≡◌, refl, sym, ◌∙◌, ap, true, false,
  List, [], ◌∷◌, ◌++◌, Text, take, drop, sort, IsSorted, sort-IsSorted, sort-perm, All,
  text_lt_asymm, text_le_lt_trans, text_lt_le_trans, ◌==◌, arith,
}
use mathlib.Core.List.{Perm}
use dsh_backend_team.Personnel.Rows.{PersonRow, ChangeRecordRow}
use dsh_backend_team.Personnel.Action.{World, ok, lift}
use dsh_backend_team.Personnel.Action.Inversion.{
  Returns, gets-Returns, throw_if-Returns, seq-Returns, pure-Returns,
}
use dsh_backend_team.Personnel.Store.{find_person_by_id, list_change_records}
use dsh_backend_team.Personnel.Lifecycle.{
  Page, page_of, check_page, logged_earlier, list_person_history,
}

module _ {ℓ} {A : Type ℓ} where
  -- The items of the first pages, one page after the other.
  abbrev pub first_pages : ℕ → ℕ → List A → List A
  first_pages zero size items = []
  first_pages (suc n) size items = first_pages n size items ++ (page_of items (suc n) size).items

  take_add : (m n k : ℕ) (xs : List A) → k ≡ m + n → take k xs ≡ take m xs ++ take n (drop m xs)
  take_add zero n k xs e = ap (λ j. take j xs) (omega arith)
  take_add (suc m) n zero xs e = absurd (omega arith)
  take_add (suc m) zero (suc k) [] e = refl
  take_add (suc m) (suc n) (suc k) [] e = refl
  take_add (suc m) n (suc k) (x ∷ xs) e = ap (λ l. x ∷ l) (take_add m n k xs (omega arith))

  -- The pages partition the list: the first pages one after the other are its beginning, of as
  -- many items as they have room for, so none is missing and none comes twice.
  pub first_pages_lem :
      (n size : ℕ) (items : List A) → first_pages n size items ≡ take (n * size) items
  unfolding page_of
  first_pages_lem zero size items =
      let none_yet : 0 ≡ 0 * size = omega arith in ap (λ j. take j items) none_yet
  first_pages_lem (suc n) size items =
      let before : (suc n - 1) ≡ n = omega arith in
      let all : suc n * size ≡ n * size + size = omega arith in
      ap (λ l. l ++ take size (drop ((suc n - 1) * size) items)) (first_pages_lem n size items)
      ∙ ap (λ j. take (n * size) items ++ take size (drop (j * size) items)) before
      ∙ sym (take_add (n * size) size (suc n * size) items all)

-- What a comparison of identifiers keeps to: it is a strict weak order, as `localeCompare` is.
pub record IsOrder (before : Text → Text → Bool) : Type 0 where
  pub asymm : (a b : Text) → before a b ≡ true → before b a ≡ false
  pub trans : (a b c : Text) → before a b ≡ false → before b c ≡ false → before a c ≡ false

module _ (before : Text → Text → Bool) (order : IsOrder before) where
  logged_earlier_asymm :
      (x y : ChangeRecordRow) → logged_earlier before x y ≡ true → logged_earlier before y x ≡ false
  logged_earlier_asymm x y h =
      ground (arith, text_lt_asymm x.occurred_at y.occurred_at, order.asymm x.id y.id)

  logged_earlier_trans :
      (x y z : ChangeRecordRow)
      → logged_earlier before x y ≡ false
      → logged_earlier before y z ≡ false
      → logged_earlier before x z ≡ false
  logged_earlier_trans x y z h k = ground (
    arith,
    text_le_lt_trans y.occurred_at x.occurred_at z.occurred_at,
    text_le_lt_trans z.occurred_at y.occurred_at x.occurred_at,
    text_lt_le_trans z.occurred_at y.occurred_at x.occurred_at,
    order.trans x.id y.id z.id,
  )

-- Of two records the first is to be listed before the second: it is later, or of the same moment
-- and its identifier does not come before the other's.
abbrev pub IsListedBefore : (Text → Text → Bool) → ChangeRecordRow → ChangeRecordRow → Type 0
IsListedBefore before x y =
    (text_lt y.occurred_at x.occurred_at ≡ true)
    ⊎ ((x.occurred_at ≡ y.occurred_at) × (before x.id y.id ≡ false))

not_earlier-IsListedBefore :
    (before : Text → Text → Bool) (x y : ChangeRecordRow)
    → logged_earlier before x y ≡ false
    → IsListedBefore before x y
not_earlier-IsListedBefore before x y h = go (Bool-cases (text_lt y.occurred_at x.occurred_at))
  where
    go :
        (text_lt y.occurred_at x.occurred_at ≡ true) ⊎ (text_lt y.occurred_at x.occurred_at ≡ false)
        → IsListedBefore before x y
    go (inl later) = inl later
    go (inr never) =
        inr (text_lt_total x.occurred_at y.occurred_at (ground arith) never, ground arith)

-- Each record is to be listed before all that follow it.
abbrev pub IsLatestFirst : (Text → Text → Bool) → List ChangeRecordRow → Type 0
IsLatestFirst before [] = Unit {0}
IsLatestFirst before (x ∷ rest) = All (IsListedBefore before x) rest × IsLatestFirst before rest

sorted-IsLatestFirst :
    (before : Text → Text → Bool) (records : List ChangeRecordRow)
    → IsSorted (logged_earlier before) records
    → IsLatestFirst before records
sorted-IsLatestFirst before [] h = tt
sorted-IsLatestFirst before (x ∷ rest) h = (
  All-map (λ y e. not_earlier-IsListedBefore before x y e) rest h.0,
  sorted-IsLatestFirst before rest h.1,
)

-- A history that is given: all records of the person, each before those that are earlier, and of
-- them the items of the page, from behind the pages before it.
pub record Listed (before : Text → Text → Bool) (id : Text) (page size : ℕ) (w : World)
    (p : Page ChangeRecordRow) : Type 0 where
  pub person : PersonRow
  pub found : find_person_by_id id w ≡ some person
  pub records : List ChangeRecordRow
  pub same_records : Perm records (filter (λ r. r.person_id == id) w.change_records)
  pub latest_first : IsLatestFirst before records
  pub first_page : 1 ≤ page
  pub some_items : 1 ≤ size
  pub most_items : size ≤ 200
  pub items : (k : ℕ) × ((suc k ≡ page) × (p.items ≡ take size (drop (k * size) records)))
  pub given_page : p.page ≡ page
  pub given_size : p.page_size ≡ size
  pub total : p.total ≡ length records

is_some-eq : {A : Type 0} (o : Option A) → is_some o ≡ true → (a : A) × (o ≡ some a)
is_some-eq none h = absurd (ground arith)
is_some-eq (some a) h = (a, refl)

check_page-ok :
    (page size : ℕ) → check_page page size ≡ ok tt → (1 ≤ page) × ((1 ≤ size) × (size ≤ 200))
unfolding check_page
check_page-ok page size h = (ground arith, (ground arith, ground arith))

page_of-items :
    {A : Type 0} (items : List A) (page size : ℕ)
    → 1 ≤ page
    → (k : ℕ) × ((suc k ≡ page)
        × ((page_of items page size).items ≡ take size (drop (k * size) items)))
unfolding page_of
page_of-items items zero size h = absurd (omega arith)
page_of-items items (suc k) size h =
    let same : (suc k - 1) ≡ k = omega arith in
    (k, (refl, ap (λ j. take size (drop (j * size) items)) same))

-- The history that comes back of a stored person is cut from all records of the person and no
-- other, the latest first, and of one moment in the order of the identifiers, from the greatest,
-- as the given comparison orders them. The page is at least the first, of 1 to 200 items; the items
-- are as many records as that, or those that there are, from behind those of the pages before it,
-- and the total counts all.
pub list_person_history-Listed :
    (before : Text → Text → Bool) (id : Text) (page size : ℕ) (w : World) (p : Page ChangeRecordRow)
    → IsOrder before
    → Returns (list_person_history before id page size) w p
    → Listed before id page size w p
unfolding list_person_history lift page_of
list_person_history-Listed before id page size w p order h =
    let (found, h₁) = throw_if-Returns _ _ _ w p (gets-Returns _ _ w p h) in
    let (_, (in_range, h₂)) = seq-Returns _ _ w p h₁ in
    let made = sym (pure-Returns _ p w (gets-Returns _ _ w p h₂)) in
    let (first, (some_items, most)) = check_page-ok page size in_range in
    let records = sort (logged_earlier before) (list_change_records id w) in
    let (k, (e, items)) = page_of-items records page size first in
    let (person, stored) = is_some-eq (find_person_by_id id w) (ground arith) in
    record {
      person = person;
      found = stored;
      records = records;
      same_records = sort-perm (logged_earlier before) (list_change_records id w);
      latest_first = sorted-IsLatestFirst before records (
          sort-IsSorted (logged_earlier before) (logged_earlier_asymm before order)
            (logged_earlier_trans before order) (list_change_records id w));
      first_page = first;
      some_items = some_items;
      most_items = most;
      items = (k, (e, ap (λ x. x.items) made ∙ items));
      given_page = ap (λ x. x.page) made;
      given_size = ap (λ x. x.page_size) made;
      total = ap (λ x. x.total) made;
    }
