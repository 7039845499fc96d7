-- ===== src/Policy/Tokens/Service.antt =====
-- `issue` and `consume` of `ApprovalTokenService` in packages/policy-engine/src/approval-token.ts. A
-- path has the same canonical form all through a call.
use dsh_backend_team.Base.{
  ℕ, Bool, true, false, not, ◌&&◌, Option, none, some, List, [], ◌∷◌, ◌++◌, map, Text, ◌==◌, any,
  find, leb, nat_eq, length, is_some, if◌then◌else◌,
}
use dsh_backend_team.Base.Outcomes.{Outcome, ok, err, ◌>>=◌, ◌>>◌, throw_if}
use dsh_backend_team.Core.State.{ApprovalKind, ApprovalTokenRecord, BackendTeamState}
use dsh_backend_team.Policy.Actions.{PolicyAction, PolicyContext, PolicyDecision, Effect}
use dsh_backend_team.Policy.Targets.{PathError, real}
use dsh_backend_team.Policy.Engine.{authorize}
use dsh_backend_team.Policy.Tokens.Digests.{Runtime, canonical_action_digest}
use dsh_backend_team.Policy.Tokens.{
  TokenError, Turn, is_safe_token_id, print_token, parse_token, transact_with_retry, retries,
}

pub record ApprovalTokenIssue : Type 0 where
  pub kind : ApprovalKind
  pub workspace_root : Text
  pub context : PolicyContext
  pub action : PolicyAction
  pub expires_at : Option ℕ

pub record ApprovalTokenUse : Type 0 where
  pub kind : ApprovalKind
  pub workspace_root : Text
  pub context : PolicyContext
  pub action : PolicyAction

abbrev kind_number : ApprovalKind → ℕ
kind_number ApprovalKind.requirements = 0
kind_number ApprovalKind.design = 1
kind_number ApprovalKind.install = 2
kind_number ApprovalKind.migration = 3
kind_number ApprovalKind.shared_config = 4

abbrev pub same_kind : ApprovalKind → ApprovalKind → Bool
same_kind a b = nat_eq (kind_number a) (kind_number b)

abbrev approves : ApprovalKind → Option ApprovalKind → Bool
approves kind none = false
approves kind (some asked) = same_kind asked kind

abbrev is_ask : Effect → Bool
is_ask Effect.ask = true
is_ask _ = false

abbrev pub thrown_path : {A : Type 0} → Outcome PathError A → Outcome TokenError A
thrown_path (ok a) = ok a
thrown_path (err e) = err (TokenError.path e)

-- The expiry, if it is a canonical timestamp in the future
abbrev pub expiry_after : ℕ → Option ℕ → Outcome TokenError ℕ
expiry_after now none = err TokenError.bad_expiry
expiry_after now (some t) = if leb t now then err TokenError.bad_expiry else ok t

abbrev pub is_not_consumable : TokenError → Bool
is_not_consumable TokenError.not_consumable = true
is_not_consumable _ = false

-- The answer for an error of the change
abbrev pub answer_for : Bool → TokenError → Outcome TokenError Bool
answer_for true e = ok false
answer_for false e = err e

-- What a token is checked for
pub record Claim : Type 0 where
  pub token_id : Text
  pub secret : List ℕ
  pub kind : ApprovalKind
  pub workspace_root : Text
  pub action_digest : List ℕ

-- The change of `issue`
unfoldable pub add_token :
    ApprovalTokenRecord → (now : ℕ) → BackendTeamState → Outcome TokenError BackendTeamState
add_token token now state = do
  throw_if (not (state.workspace_root == token.workspace_root)) TokenError.wrong_state
  throw_if (any (λ r. r.token_id == token.token_id) state.approval_tokens) TokenError.collision
  ok (record state { approval_tokens = state.approval_tokens ++ token ∷ [] })

abbrev pub handed_out :
    Text
    → List ℕ
    → Outcome TokenError (Unit {0}) × Option BackendTeamState
    → Outcome TokenError Text × Option BackendTeamState
handed_out token_id secret (ok u, store) = (ok (print_token token_id secret), store)
handed_out token_id secret (err e, store) = (err e, store)

abbrev pub issue_record :
    (ℕ → Turn)
    → Option BackendTeamState
    → (secret : List ℕ) → (token_id : Text) → Outcome TokenError ApprovalTokenRecord
    → Outcome TokenError Text × Option BackendTeamState
issue_record turns store secret token_id (err e) = (err e, store)
issue_record turns store secret token_id (ok token) =
    handed_out token_id secret (transact_with_retry retries turns (add_token token) store)

-- `constantTimeDigestMatch` for a record that is there
abbrev pub digest_matches : (persisted candidate : List ℕ) → Bool
digest_matches persisted candidate = nat_eq (length persisted) 32 && persisted == candidate

abbrev pub mark_used : Text → ℕ → ApprovalTokenRecord → ApprovalTokenRecord
mark_used token_id consumed_at r =
    if r.token_id == token_id then record r { used_at = some consumed_at } else r

abbrev pub consumed_or_not :
    Outcome TokenError (Unit {0}) × Option BackendTeamState
    → Outcome TokenError Bool × Option BackendTeamState
consumed_or_not (ok u, store) = (ok true, store)
consumed_or_not (err e, store) = (answer_for (is_not_consumable e) e, store)

abbrev pub is_command : PolicyAction → Bool
is_command (PolicyAction.command c) = true
is_command _ = false

-- An unsafe path gives no claim, and any other error of the file system is thrown.
abbrev pub claim_with : Outcome PathError (List ℕ) → Outcome TokenError (Option (List ℕ))
claim_with (ok action_digest) = ok (some action_digest)
claim_with (err PathError.unsafe) = ok none
claim_with (err PathError.file_system) = err (TokenError.path PathError.file_system)

abbrev pub claimed : ApprovalTokenUse → Text × List ℕ → Text → Option (List ℕ) → Option Claim
claimed input token root none = none
claimed input token root (some action_digest) = some (record {
  token_id = token.0;
  secret = token.1;
  kind = input.kind;
  workspace_root = root;
  action_digest = action_digest;
})

module _ (runtime : Runtime) where
  -- The checks of `issue`, and the record that it adds
  unfoldable pub issued_record :
      ApprovalTokenIssue
      → (now : ℕ) → (secret : List ℕ) → (token_id : Text) → Outcome TokenError ApprovalTokenRecord
  issued_record input now secret token_id = do
    let decision : PolicyDecision = authorize runtime.host runtime.fs input.action input.context
    throw_if (not (is_ask decision.effect && approves input.kind decision.approval_kind))
        TokenError.no_matching_approval
    root ← thrown_path (real runtime.fs input.workspace_root)
    context_root ← thrown_path (real runtime.fs input.context.workspace_root)
    throw_if (not (root == context_root)) TokenError.other_workspace
    expires_at ← expiry_after now input.expires_at
    throw_if (not (nat_eq (length secret) 32)) TokenError.bad_secret
    throw_if (not (is_safe_token_id token_id)) TokenError.bad_token_id
    action_digest ← thrown_path (canonical_action_digest runtime root input.action)
    ok (record {
      token_id = token_id;
      kind = input.kind;
      workspace_root = root;
      secret_digest = runtime.sha256 secret;
      action_digest = action_digest;
      expires_at = expires_at;
      used_at = none;
    })

  -- `issue`
  unfoldable pub issue :
      (ℕ → Turn)
      → ApprovalTokenIssue
      → (now : ℕ) → (secret : List ℕ) → (token_id : Text) → Option BackendTeamState
      → Outcome TokenError Text × Option BackendTeamState
  unfolding issued_record add_token
  issue turns input now secret token_id store =
      issue_record turns store secret token_id (issued_record input now secret token_id)

  -- The checks of `consumePrepared` on the record that is found
  unfoldable pub is_consumable : Claim → (now : ℕ) → ApprovalTokenRecord → Bool
  is_consumable claim now r =
      digest_matches r.secret_digest (runtime.sha256 claim.secret)
      && same_kind r.kind claim.kind
      && r.workspace_root == claim.workspace_root
      && r.action_digest == claim.action_digest
      && not (leb r.expires_at now)
      && not (is_some r.used_at)

  abbrev pub consume_found :
      Claim
      → (consumed_at now : ℕ) → BackendTeamState
      → Option ApprovalTokenRecord
      → Outcome TokenError BackendTeamState
  consume_found claim consumed_at now state none = err TokenError.not_consumable
  consume_found claim consumed_at now state (some r) =
      if is_consumable claim now r
      then ok (record state {
        approval_tokens = map (mark_used r.token_id consumed_at) state.approval_tokens;
      })
      else err TokenError.not_consumable

  -- The change of `consumePrepared`
  unfoldable pub consume_token :
      Claim → (consumed_at now : ℕ) → BackendTeamState → Outcome TokenError BackendTeamState
  unfolding is_consumable
  consume_token claim consumed_at now state =
      if state.workspace_root == claim.workspace_root
      then consume_found claim consumed_at now state
          (find (λ r. r.token_id == claim.token_id) state.approval_tokens)
      else err TokenError.wrong_state

  -- `consumePrepared` with the canonical root: a first load, and then the change
  unfoldable pub consume_prepared :
      (ℕ → Turn)
      → Claim
      → (consumed_at : ℕ) → Option BackendTeamState
      → Outcome TokenError Bool × Option BackendTeamState
  unfolding consume_token
  consume_prepared turns claim consumed_at none = (err TokenError.not_created, none)
  consume_prepared turns claim consumed_at (some before) =
      if before.workspace_root == claim.workspace_root
      then consumed_or_not
          (transact_with_retry retries turns (consume_token claim consumed_at) (some before))
      else (ok false, some before)

  abbrev pub digest_if : Bool → Text → PolicyAction → Outcome TokenError (Option (List ℕ))
  digest_if true root action = claim_with (canonical_action_digest runtime root action)
  digest_if false root action = ok none

  -- The steps of `consume` before `consumePrepared`; none where it answers false
  unfoldable pub claim_of : ApprovalTokenUse → Text × List ℕ → Outcome TokenError (Option Claim)
  unfolding canonical_action_digest
  claim_of input token = do
    throw_if (is_command input.action) TokenError.evidence_required
    root ← thrown_path (real runtime.fs input.workspace_root)
    context_root ← thrown_path (real runtime.fs input.context.workspace_root)
    action_digest ← digest_if (root == context_root) root input.action
    ok (claimed input token root action_digest)

  abbrev pub consume_claim :
      (ℕ → Turn)
      → (consumed_at : ℕ) → Option BackendTeamState
      → Outcome TokenError (Option Claim)
      → Outcome TokenError Bool × Option BackendTeamState
  consume_claim turns consumed_at store (err e) = (err e, store)
  consume_claim turns consumed_at store (ok none) = (ok false, store)
  consume_claim turns consumed_at store (ok (some claim)) =
      consume_prepared turns claim consumed_at store

  abbrev pub consume_parsed :
      (ℕ → Turn)
      → ApprovalTokenUse
      → (consumed_at : ℕ) → Option BackendTeamState
      → Option (Text × List ℕ)
      → Outcome TokenError Bool × Option BackendTeamState
  consume_parsed turns input consumed_at store none = (ok false, store)
  consume_parsed turns input consumed_at store (some token) =
      consume_claim turns consumed_at store (claim_of input token)

  -- `consume`
  unfoldable pub consume :
      (ℕ → Turn)
      → (token : Text) → ApprovalTokenUse
      → (consumed_at : ℕ) → Option BackendTeamState
      → Outcome TokenError Bool × Option BackendTeamState
  unfolding consume_prepared claim_of
  consume turns token input consumed_at store =
      consume_parsed turns input consumed_at store (parse_token token)
