-- ===== src/Policy/Tokens/Retry.antt =====
-- What `transactWithRetry` of packages/policy-engine/src/approval-token.ts comes to.
use dsh_backend_team.Base.{
  ℕ, zero, suc, ◌+◌, ◌≡◌, refl, Bool, true, false, Option, none, some, nat_eq, if◌then◌else◌,
}
use dsh_backend_team.Base.Outcomes.{Outcome, ok, err}
use dsh_backend_team.Core.State.{BackendTeamState}
use dsh_backend_team.Policy.Tokens.{
  TokenError, Turn, written, transact_change, attempted, attempt, is_retryable, transact_with_retry,
}

-- What is written for a state and a changed one
abbrev pub next_state : (current changed : BackendTeamState) → BackendTeamState
next_state current changed = record changed { revision = current.revision + 1 }

-- The others keep the property.
pub record Keeps (P : Option BackendTeamState → Type 0) (turn : Turn) : Type 0 where
  pub loading : (store : Option BackendTeamState) → P store → P (turn.before_load store)
  pub writing : (store : Option BackendTeamState) → P store → P (turn.before_write store)

module _ (P : Option BackendTeamState → Type 0)
    (change : ℕ → BackendTeamState → Outcome TokenError BackendTeamState) where
  -- A change was made to a state with the property, and what it gave was written.
  pub record Committed (after : Option BackendTeamState) : Type 0 where
    pub now : ℕ
    pub current : BackendTeamState
    pub changed : BackendTeamState
    pub held : P (some current)
    pub made : change now current ≡ ok changed
    pub stored : after ≡ some (next_state current changed)

  -- The result is a write, or an error with a store that still has the property.
  abbrev pub Ends : Outcome TokenError (Unit {0}) × Option BackendTeamState → Type 0
  Ends (ok u, after) = Committed after
  Ends (err e, after) = P after

  written-Ends :
      (now : ℕ) (current : BackendTeamState) (o : Outcome TokenError BackendTeamState)
      → P (some current)
      → change now current ≡ o
      → Ends (written current o)
  written-Ends now current (err e) h m = h
  written-Ends now current (ok changed) h m = go (nat_eq changed.revision current.revision)
    where
      go :
          (b : Bool)
          → Ends (
              if b
              then (ok tt, some (next_state current changed))
              else (err TokenError.revision_modified, some current))
      go true = record {
        now = now;
        current = current;
        changed = changed;
        held = h;
        made = m;
        stored = refl;
      }
      go false = h

  transact_change-Ends :
      (now : ℕ) (locked : Bool) (expected : ℕ) (store : Option BackendTeamState)
      → P store
      → Ends (transact_change locked expected (change now) store)
  unfolding transact_change
  transact_change-Ends now true expected store h = h
  transact_change-Ends now false expected none h = h
  transact_change-Ends now false expected (some current) h = go (nat_eq current.revision expected)
    where
      go :
          (b : Bool)
          → Ends (
              if b
              then written current (change now current)
              else (err TokenError.conflict, some current))
      go true = written-Ends now current (change now current) h refl
      go false = h

  attempt-Ends :
      (turn : Turn) (store : Option BackendTeamState)
      → Keeps P turn
      → P store
      → Ends (attempt turn change store)
  unfolding attempt
  attempt-Ends turn store k h = go (turn.before_load store) (k.loading store h)
    where
      go : (loaded : Option BackendTeamState) → P loaded → Ends (attempted turn change loaded)
      go none h = h
      go (some loaded) h =
          transact_change-Ends turn.now turn.locked loaded.revision
            (turn.before_write (some loaded)) (k.writing (some loaded) h)

  -- All attempts together end in the same way.
  pub transact_with_retry-Ends :
      (left : ℕ) (turns : ℕ → Turn) (store : Option BackendTeamState)
      → ((n : ℕ) → Keeps P (turns n))
      → P store
      → Ends (transact_with_retry left turns change store)
  unfolding transact_with_retry
  transact_with_retry-Ends zero turns store k h = attempt-Ends (turns zero) store (k zero) h
  transact_with_retry-Ends (suc left) turns store k h =
      go (attempt (turns (suc left)) change store)
        (attempt-Ends (turns (suc left)) store (k (suc left)) h)
        (λ store. transact_with_retry-Ends left turns store k)
    where
      go :
          (done : Outcome TokenError (Unit {0}) × Option BackendTeamState)
          → Ends done
          → ((store : Option BackendTeamState)
              → P store
              → Ends (transact_with_retry left turns change store))
          → Ends
              (if is_retryable done.0 then transact_with_retry left turns change done.1 else done)
      go (ok u, after) e rest = e
      go (err x, after) e rest = choose (is_retryable (err x))
        where
          choose :
              (b : Bool)
              → Ends (if b then transact_with_retry left turns change after else (err x, after))
          choose true = rest after e
          choose false = e
