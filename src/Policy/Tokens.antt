-- ===== src/Policy/Tokens.antt =====
-- `ApprovalTokenService` of packages/policy-engine/src/approval-token.ts without the execution of
-- commands. The digests and the secret are the runtime's. Between the steps of a call other
-- writers may change the store: a `Turn` says what they do in one attempt.
pub mod Digests
pub mod Service
pub mod Retry
pub mod Quiet
pub mod Single
pub mod Once
pub mod Opaque
pub mod Settled
pub mod Issued
mod Tests
use dsh_backend_team.Base.{
  ℕ, zero, suc, ◌+◌, Bool, true, false, ◌&&◌, Option, none, some, List, [], ◌∷◌, ◌++◌, Text, codes,
  ◌==◌, all, leb, nat_eq, length, split_on, if◌then◌else◌,
}
use dsh_backend_team.Base.Outcomes.{Outcome, ok, err}
use dsh_backend_team.Core.State.{BackendTeamState}
use dsh_backend_team.Policy.Targets.{PathError}
use dsh_backend_team.Policy.Base64.{is_opaque_code, encode, decode}

abbrev pub prefix : Text
prefix = codes "dsh-at1"

-- `isSafeTokenId`
unfoldable pub is_safe_token_id : Text → Bool
is_safe_token_id id = all is_opaque_code id && leb 16 (length id) && leb (length id) 128

-- A token as it is handed out
unfoldable pub print_token : (token_id : Text) → (secret : List ℕ) → Text
print_token token_id secret = prefix ++ (b'.' ∷ (token_id ++ (b'.' ∷ encode secret)))

abbrev is_secret_text : Text → Bool
is_secret_text s = all is_opaque_code s && nat_eq (length s) 43

abbrev pub checked_token : Bool → Text → List ℕ → Option (Text × List ℕ)
checked_token true id secret = some (id, secret)
checked_token false id secret = none

abbrev pub token_of_parts : List Text → Option (Text × List ℕ)
token_of_parts (p ∷ id ∷ s ∷ []) =
    checked_token
      (p == prefix
        && is_safe_token_id id
        && is_secret_text s
        && nat_eq (length (decode s)) 32
        && encode (decode s) == s)
      id (decode s)
token_of_parts _ = none

-- `parseToken`
unfoldable pub parse_token : Text → Option (Text × List ℕ)
unfolding split_on
parse_token value = token_of_parts (split_on b'.' value)

pub data TokenError : Type 0 where
  no_matching_approval : TokenError
  other_workspace : TokenError
  bad_expiry : TokenError
  bad_secret : TokenError
  bad_token_id : TokenError
  wrong_state : TokenError
  collision : TokenError
  evidence_required : TokenError
  not_consumable : TokenError
  not_created : TokenError
  revision_modified : TokenError
  conflict : TokenError
  busy : TokenError
  path : PathError → TokenError

-- What an attempt meets: what the others do before its load and between the load and the write,
-- whether the lock is taken at the write, and the time there.
pub record Turn : Type 0 where
  pub before_load : Option BackendTeamState → Option BackendTeamState
  pub before_write : Option BackendTeamState → Option BackendTeamState
  pub locked : Bool
  pub now : ℕ

abbrev pub written :
    BackendTeamState
    → Outcome TokenError BackendTeamState
    → Outcome TokenError (Unit {0}) × Option BackendTeamState
written current (err e) = (err e, some current)
written current (ok changed) =
    if nat_eq changed.revision current.revision
    then (ok tt, some (record changed { revision = current.revision + 1 }))
    else (err TokenError.revision_modified, some current)

abbrev pub changed_at :
    ℕ
    → (BackendTeamState → Outcome TokenError BackendTeamState)
    → Option BackendTeamState
    → Outcome TokenError (Unit {0}) × Option BackendTeamState
changed_at expected change none = (err TokenError.not_created, none)
changed_at expected change (some current) =
    if nat_eq current.revision expected
    then written current (change current)
    else (err TokenError.conflict, some current)

-- `transact` of the state store for a change that may throw, behind the lock
unfoldable pub transact_change :
    Bool
    → ℕ
    → (BackendTeamState → Outcome TokenError BackendTeamState)
    → Option BackendTeamState
    → Outcome TokenError (Unit {0}) × Option BackendTeamState
transact_change true expected change store = (err TokenError.busy, store)
transact_change false expected change store = changed_at expected change store

abbrev pub attempted :
    Turn
    → (ℕ → BackendTeamState → Outcome TokenError BackendTeamState)
    → Option BackendTeamState
    → Outcome TokenError (Unit {0}) × Option BackendTeamState
attempted turn change none = (err TokenError.not_created, none)
attempted turn change (some loaded) =
    transact_change turn.locked loaded.revision (change turn.now) (turn.before_write (some loaded))

-- An attempt of `transactWithRetry`
unfoldable pub attempt :
    Turn
    → (ℕ → BackendTeamState → Outcome TokenError BackendTeamState)
    → Option BackendTeamState
    → Outcome TokenError (Unit {0}) × Option BackendTeamState
unfolding transact_change
attempt turn change store = attempted turn change (turn.before_load store)

-- `isRetryableConflict`
abbrev pub is_retryable : Outcome TokenError (Unit {0}) → Bool
is_retryable (err TokenError.conflict) = true
is_retryable (err TokenError.busy) = true
is_retryable _ = false

-- `transactWithRetry` with so many attempts left behind the next one
unfoldable pub transact_with_retry :
    ℕ
    → (ℕ → Turn)
    → (ℕ → BackendTeamState → Outcome TokenError BackendTeamState)
    → Option BackendTeamState
    → Outcome TokenError (Unit {0}) × Option BackendTeamState
unfolding attempt
transact_with_retry zero turns change store = attempt (turns zero) change store
transact_with_retry (suc left) turns change store =
    let done = attempt (turns (suc left)) change store in
    let rest = transact_with_retry left turns change done.1 in
    if is_retryable done.0 then rest else done

-- `RETRY_LIMIT`, less the first attempt
abbrev pub retries : ℕ
retries = 199
