-- ===== src/Policy/Tokens/Quiet.antt =====
-- `transactWithRetry` of packages/policy-engine/src/approval-token.ts where an attempt is left alone.
use dsh_backend_team.Policy.Tokens.Retry.{next_state}
use dsh_backend_team.Base.{
  ap, sym, ◌∙◌, ◌≤◌, ◌⊎◌, inl, inr, Bool-cases, arith, ℕ, zero, suc, ◌≡◌, refl, Bool, true, false,
  Option, none, some, nat_eq, if◌then◌else◌,
}
use dsh_backend_team.Base.Outcomes.{Outcome, ok, err}
use mathlib.Core.Path.{subst}
use dsh_backend_team.Core.State.{BackendTeamState}
use dsh_backend_team.Policy.Tokens.{
  TokenError, Turn, changed_at, written, transact_change, attempted, attempt, is_retryable,
  transact_with_retry,
}

-- The others do nothing, and the lock is free.
pub record IsQuiet (turn : Turn) : Type 0 where
  pub loading : (store : Option BackendTeamState) → turn.before_load store ≡ store
  pub writing : (store : Option BackendTeamState) → turn.before_write store ≡ store
  pub free : turn.locked ≡ false

-- The call ends with a conflict that is worth another attempt.
abbrev pub ends_in_conflict : Outcome TokenError (Unit {0}) × Option BackendTeamState → Bool
ends_in_conflict p = is_retryable p.0

module _ (change : ℕ → BackendTeamState → Outcome TokenError BackendTeamState) where
  abbrev pub when_quiet :
      ℕ → Option BackendTeamState → Outcome TokenError (Unit {0}) × Option BackendTeamState
  when_quiet now none = (err TokenError.not_created, none)
  when_quiet now (some current) = written current (change now current)

  -- Without the others an attempt makes the change to what is stored.
  pub attempt-quiet :
      (turn : Turn) (store : Option BackendTeamState)
      → IsQuiet turn
      → attempt turn change store ≡ when_quiet turn.now store
  unfolding attempt transact_change
  attempt-quiet turn none q = ap (attempted turn change) (q.loading none)
  attempt-quiet turn (some current) q =
      let same : nat_eq current.revision current.revision ≡ true = ground arith in
      ap (attempted turn change) (q.loading (some current))
      ∙ ap
          (λ b.
            transact_change b current.revision (change turn.now) (turn.before_write (some current)))
          q.free
      ∙ ap (changed_at current.revision (change turn.now)) (q.writing (some current))
      ∙ ap
          (λ b.
            if b
            then written current (change turn.now current)
            else (err TokenError.conflict, some current))
          same

  module _
      (firm : (now : ℕ) (s : BackendTeamState) (e : TokenError)
        → change now s ≡ err e
        → is_retryable (err e) ≡ false) where
    pub quiet-firm :
        (now : ℕ) (store : Option BackendTeamState)
        → ends_in_conflict (when_quiet now store) ≡ false
    quiet-firm now none = refl
    quiet-firm now (some current) = go (change now current) refl
      where
        go :
            (o : Outcome TokenError BackendTeamState)
            → change now current ≡ o
            → ends_in_conflict (written current o) ≡ false
        go (err e) m = firm now current e m
        go (ok changed) m = choose (nat_eq changed.revision current.revision)
          where
            choose :
                (b : Bool)
                → ends_in_conflict (
                    if b
                    then (ok tt, some (next_state current changed))
                    else (err TokenError.revision_modified, some current))
                  ≡ false
            choose true = refl
            choose false = refl

    -- One quiet attempt among them all is enough: the call does not end with a conflict.
    pub transact_with_retry-quiet :
        (left i : ℕ) (turns : ℕ → Turn) (store : Option BackendTeamState)
        → i ≤ left
        → IsQuiet (turns i)
        → ends_in_conflict (transact_with_retry left turns change store) ≡ false
    unfolding transact_with_retry
    transact_with_retry-quiet zero i turns store b q =
        let last : i ≡ zero = omega arith in
        let q : IsQuiet (turns zero) = subst (λ n. IsQuiet (turns n)) last q in
        ap ends_in_conflict (attempt-quiet (turns zero) store q) ∙ quiet-firm (turns zero).now store
    transact_with_retry-quiet (suc left) i turns store b q =
        go (attempt (turns (suc left)) change store) refl (Bool-cases (nat_eq i (suc left)))
          (λ store lower. transact_with_retry-quiet left i turns store lower q)
      where
        go :
            (done : Outcome TokenError (Unit {0}) × Option BackendTeamState)
            → attempt (turns (suc left)) change store ≡ done
            → (nat_eq i (suc left) ≡ true) ⊎ (nat_eq i (suc left) ≡ false)
            → ((store : Option BackendTeamState)
                → i ≤ left
                → ends_in_conflict (transact_with_retry left turns change store) ≡ false)
            → ends_in_conflict
                (if is_retryable done.0 then transact_with_retry left turns change done.1 else done)
              ≡ false
        go (ok u, after) a c rest = refl
        go (err x, after) a (inl last) rest =
            let q : IsQuiet (turns (suc left)) = subst (λ n. IsQuiet (turns n)) (ground arith) q in
            let calm : is_retryable (err x) ≡ false =
              ap ends_in_conflict (sym a ∙ attempt-quiet (turns (suc left)) store q)
              ∙ quiet-firm (turns (suc left)).now store in
            ap
              (λ b.
                ends_in_conflict
                  (if b then transact_with_retry left turns change after else (err x, after)))
              calm
            ∙ calm
        go (err x, after) a (inr other) rest =
            choose (is_retryable (err x)) refl (rest after (ground arith))
          where
            choose :
                (b : Bool)
                → is_retryable (err x) ≡ b
                → ends_in_conflict (transact_with_retry left turns change after) ≡ false
                → ends_in_conflict
                    (if b then transact_with_retry left turns change after else (err x, after))
                  ≡ false
            choose true e r = r
            choose false e r = e

  -- Where the first attempt is quiet and ends without a conflict, it is the only one.
  pub transact_with_retry-first :
      (left : ℕ) (turns : ℕ → Turn) (store : Option BackendTeamState)
      → IsQuiet (turns left)
      → ends_in_conflict (when_quiet (turns left).now store) ≡ false
      → transact_with_retry left turns change store ≡ when_quiet (turns left).now store
  unfolding transact_with_retry
  transact_with_retry-first zero turns store q e = attempt-quiet (turns zero) store q
  transact_with_retry-first (suc left) turns store q e =
      let first = attempt-quiet (turns (suc left)) store q in
      let calm : ends_in_conflict (attempt (turns (suc left)) change store) ≡ false =
        ap ends_in_conflict first ∙ e in
      ap
        (λ b.
          if b
          then transact_with_retry left turns change (attempt (turns (suc left)) change store).1
          else attempt (turns (suc left)) change store)
        calm
      ∙ first
