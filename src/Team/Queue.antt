-- ===== src/Team/Queue.antt =====
-- The queue with two priorities of packages/agent-team/src/task-queue.ts.
use dsh_backend_team.Base.{
  ℕ, zero, suc, ◌+◌, ◌≤◌, arith, ap, sym, ◌∙◌, ◌≡◌, refl, Bool, true, false, ◌||◌, Option, none,
  some, List, [], ◌∷◌, ◌++◌, length, length-append, any, if◌then◌else◌,
}
use mathlib.Core.List.{append_assoc, append-nil}

pub data TaskPriority : Type 0 where
  blocking : TaskPriority
  normal : TaskPriority

-- The two lanes; an entry is its value, since a lane fixes the priority of its entries.
pub record TaskQueue {ℓ} (T : Type ℓ) : Type ℓ where
  pub blocking : List T
  pub normal : List T

module _ {ℓ} {T : Type ℓ} where
  abbrev pub empty : TaskQueue T
  empty = record { blocking = []; normal = [] }

  unfoldable pub enqueue : T → TaskPriority → TaskQueue T → TaskQueue T
  enqueue value TaskPriority.blocking q = record q { blocking = q.blocking ++ value ∷ [] }
  enqueue value TaskPriority.normal q = record q { normal = q.normal ++ value ∷ [] }

  abbrev pub size : TaskQueue T → ℕ
  size q = length q.blocking + length q.normal

  abbrev pub has : (T → Bool) → TaskQueue T → Bool
  has p q = any p q.blocking || any p q.normal

  abbrev pub first_of : List T → List T → Option T
  first_of (x ∷ xs) ys = some x
  first_of [] (y ∷ ys) = some y
  first_of [] [] = none

  unfoldable pub peek : TaskQueue T → Option T
  peek q = first_of q.blocking q.normal

  abbrev pub priority_of : List T → List T → Option TaskPriority
  priority_of (x ∷ xs) ys = some TaskPriority.blocking
  priority_of [] (y ∷ ys) = some TaskPriority.normal
  priority_of [] [] = none

  unfoldable pub peek_priority : TaskQueue T → Option TaskPriority
  peek_priority q = priority_of q.blocking q.normal

  abbrev pub take_from : (T → Bool) → List T → List T → Option T × TaskQueue T
  take_from p (x ∷ xs) ys =
      if p x
      then (some x, record { blocking = xs; normal = ys })
      else (none, record { blocking = x ∷ xs; normal = ys })
  take_from p [] (y ∷ ys) =
      if p y
      then (some y, record { blocking = []; normal = ys })
      else (none, record { blocking = []; normal = y ∷ ys })
  take_from p [] [] = (none, record { blocking = []; normal = [] })

  -- `takeHead`, and `take`, which is the same
  unfoldable pub take_head : (T → Bool) → TaskQueue T → Option T × TaskQueue T
  take_head p q = take_from p q.blocking q.normal

  -- The first entry of a lane that is meant, and the lane without it.
  abbrev pub cut_at : Bool → T → List T → Option T × List T → Option T × List T
  cut_at true x xs rest = (some x, xs)
  cut_at false x xs (found, rest) = (found, x ∷ rest)

  abbrev pub cut : (T → Bool) → List T → Option T × List T
  cut p [] = (none, [])
  cut p (x ∷ xs) = let rest = cut p xs in cut_at (p x) x xs rest

  abbrev pub removed :
      Option T × List T → Option T × List T → List T → List T → Option T × TaskQueue T
  removed (some x, b) other bs ns = (some x, record { blocking = b; normal = ns })
  removed (none, b) (x, n) bs ns = (x, record { blocking = bs; normal = n })

  unfoldable pub remove : (T → Bool) → TaskQueue T → Option T × TaskQueue T
  remove p q = removed (cut p q.blocking) (cut p q.normal) q.blocking q.normal

  -- The entries in the order in which the queue gives them out.
  abbrev pub order : TaskQueue T → List T
  order q = q.blocking ++ q.normal

  -- The loop that empties a queue, `for (;;) { takeHead(() => true) … }`, with fuel.
  unfoldable pub take_all : ℕ → TaskQueue T → List T
  take_all zero q = []
  take_all (suc n) q =
      let (head, rest) = take_head (λ _. true) q in
      let later = take_all n rest in elim head [ none ↦ [] | some x ↦ x ∷ later ]

  take_all_lanes :
      (n : ℕ) (bs ns : List T)
      → length bs + length ns ≤ n
      → take_all n (record { blocking = bs; normal = ns }) ≡ bs ++ ns
  unfolding take_all take_head
  take_all_lanes zero [] [] h = refl
  take_all_lanes zero [] (y ∷ ns) h = absurd (omega arith)
  take_all_lanes zero (x ∷ bs) ns h = absurd (omega arith)
  take_all_lanes (suc n) [] [] h = refl
  take_all_lanes (suc n) [] (y ∷ ns) h = ap (λ l. y ∷ l) (take_all_lanes n [] ns (omega arith))
  take_all_lanes (suc n) (x ∷ bs) ns h = ap (λ l. x ∷ l) (take_all_lanes n bs ns (omega arith))

  -- Entries that enter one after the other.
  unfoldable pub enqueue_all : List (T × TaskPriority) → TaskQueue T → TaskQueue T
  enqueue_all [] q = q
  enqueue_all ((x, p) ∷ rest) q = enqueue_all rest (enqueue x p q)

  -- The values of one priority, in the order of the list.
  unfoldable pub blocking_of : List (T × TaskPriority) → List T
  blocking_of [] = []
  blocking_of ((x, TaskPriority.blocking) ∷ rest) = x ∷ blocking_of rest
  blocking_of ((x, TaskPriority.normal) ∷ rest) = blocking_of rest

  unfoldable pub normal_of : List (T × TaskPriority) → List T
  normal_of [] = []
  normal_of ((x, TaskPriority.blocking) ∷ rest) = normal_of rest
  normal_of ((x, TaskPriority.normal) ∷ rest) = x ∷ normal_of rest

  enqueue_all_lem :
      (es : List (T × TaskPriority)) (q : TaskQueue T)
      → enqueue_all es q
        ≡ record { blocking = q.blocking ++ blocking_of es; normal = q.normal ++ normal_of es }
  unfolding enqueue_all enqueue blocking_of normal_of
  enqueue_all_lem [] q =
      ap (λ l. record { blocking = l; normal = q.normal }) (sym (append-nil q.blocking))
      ∙ ap (λ l. record { blocking = q.blocking ++ []; normal = l }) (sym (append-nil q.normal))
  enqueue_all_lem ((x, TaskPriority.blocking) ∷ rest) q =
      enqueue_all_lem rest (record q { blocking = q.blocking ++ x ∷ [] })
      ∙ ap (λ l. record { blocking = l; normal = q.normal ++ normal_of rest })
          (append_assoc q.blocking (x ∷ []) (blocking_of rest))
  enqueue_all_lem ((x, TaskPriority.normal) ∷ rest) q =
      enqueue_all_lem rest (record q { normal = q.normal ++ x ∷ [] })
      ∙ ap (λ l. record { blocking = q.blocking ++ blocking_of rest; normal = l })
          (append_assoc q.normal (x ∷ []) (normal_of rest))

  length-of :
      (es : List (T × TaskPriority)) → length (blocking_of es) + length (normal_of es) ≡ length es
  unfolding blocking_of normal_of
  length-of [] = refl
  length-of ((x, TaskPriority.blocking) ∷ rest) = omega (arith, length-of rest)
  length-of ((x, TaskPriority.normal) ∷ rest) = omega (arith, length-of rest)

  -- Of entries that enter one after the other, the loop that empties the queue, with fuel for
  -- each, gives out each once: first the blocking ones, those that waited and then the new ones
  -- in the order in which they entered, and behind them all the normal ones, likewise.
  pub take_all-order :
      (n : ℕ) (es : List (T × TaskPriority)) (q : TaskQueue T)
      → size q + length es ≤ n
      → take_all n (enqueue_all es q) ≡ (q.blocking ++ blocking_of es) ++ (q.normal ++ normal_of es)
  take_all-order n es q h =
      ap (take_all n) (enqueue_all_lem es q)
      ∙ take_all_lanes n (q.blocking ++ blocking_of es) (q.normal ++ normal_of es) (
          omega (
            arith,
            length-append q.blocking (blocking_of es),
            length-append q.normal (normal_of es),
            length-of es,
            h,
          ))

  -- An entry that enters comes behind all of its priority, and before the normal ones if it is
  -- blocking.
  enqueue-order :
      (x : T) (p : TaskPriority) (q : TaskQueue T)
      → order (enqueue x p q) ≡ elim p [
        | TaskPriority.blocking ↦ q.blocking ++ x ∷ q.normal
        | TaskPriority.normal ↦ order q ++ x ∷ []
      ]
  unfolding enqueue
  enqueue-order x TaskPriority.blocking q = append_assoc q.blocking (x ∷ []) q.normal
  enqueue-order x TaskPriority.normal q = sym (append_assoc q.blocking q.normal (x ∷ []))

  cut-append_none :
      (p : T → Bool) (xs ys : List T)
      → (cut p xs).0 ≡ none
      → cut p (xs ++ ys) ≡ ((cut p ys).0, xs ++ (cut p ys).1)
  cut-append_none p [] ys h = refl
  cut-append_none p (x ∷ xs) ys h = go (p x) h (cut-append_none p xs ys)
    where
      go :
          (b : Bool)
          → (cut_at b x xs (cut p xs)).0 ≡ none
          → ((cut p xs).0 ≡ none → cut p (xs ++ ys) ≡ ((cut p ys).0, xs ++ (cut p ys).1))
          → cut_at b x (xs ++ ys) (cut p (xs ++ ys)) ≡ ((cut p ys).0, x ∷ xs ++ (cut p ys).1)
      go true h k = absurd (ground arith)
      go false h k = ap (λ r. (r.0, x ∷ r.1)) (k h)

  cut-append_some :
      (p : T → Bool) (v : T) (xs ys : List T)
      → (cut p xs).0 ≡ some v
      → cut p (xs ++ ys) ≡ (some v, (cut p xs).1 ++ ys)
  cut-append_some p v [] ys h = absurd (ground arith)
  cut-append_some p v (x ∷ xs) ys h = go (p x) h (cut-append_some p v xs ys)
    where
      go :
          (b : Bool)
          → (cut_at b x xs (cut p xs)).0 ≡ some v
          → ((cut p xs).0 ≡ some v → cut p (xs ++ ys) ≡ (some v, (cut p xs).1 ++ ys))
          → cut_at b x (xs ++ ys) (cut p (xs ++ ys)) ≡ (some v, (cut_at b x xs (cut p xs)).1 ++ ys)
      go true h k = ap (λ o. (o, xs ++ ys)) h
      go false h k = ap (λ r. (r.0, x ∷ r.1)) (k h)

  -- Removing takes the first entry that is meant out of the order, and no other.
  pub remove-order :
      (p : T → Bool) (q : TaskQueue T) → ((remove p q).0, order (remove p q).1) ≡ cut p (order q)
  unfolding remove
  remove-order p q = go (cut p q.blocking) refl
    where
      go :
          (r : Option T × List T)
          → cut p q.blocking ≡ r
          → (
            (removed r (cut p q.normal) q.blocking q.normal).0,
            order (removed r (cut p q.normal) q.blocking q.normal).1,
          )
            ≡ cut p (order q)
      go (none, b) e = sym (cut-append_none p q.blocking q.normal (ap (λ r. r.0) e))
      go (some v, b) e = sym (
          cut-append_some p v q.blocking q.normal (ap (λ r. r.0) e)
          ∙ ap (λ r. (some v, r.1 ++ q.normal)) e)
