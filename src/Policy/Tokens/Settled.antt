-- ===== src/Policy/Tokens/Settled.antt =====
-- The two changes of packages/policy-engine/src/approval-token.ts under `transactWithRetry`.
use dsh_backend_team.Policy.Tokens.Quiet.{IsQuiet, transact_with_retry-quiet}
use dsh_backend_team.Base.{
  ◌≢◌, ℕ, ◌≤◌, ◌≡◌, refl, sym, ap, ◌∙◌, Bool, true, false, not, Option, none, some, [], ◌∷◌, ◌++◌,
  ◌==◌, any, find, arith, if◌then◌else◌,
}
use dsh_backend_team.Base.Outcomes.{Outcome, ok, err, ◌>>=◌, ◌>>◌, throw_if}
use dsh_backend_team.Core.State.{ApprovalTokenRecord, BackendTeamState}
use dsh_backend_team.Policy.Tokens.{TokenError, Turn, is_retryable, transact_with_retry, retries}
use dsh_backend_team.Policy.Tokens.Digests.{Runtime}
use dsh_backend_team.Policy.Tokens.Service.{
  Claim, add_token, consume_token, consume_found, is_consumable,
}

pub add_token-firm :
    (token : ApprovalTokenRecord) (later : ℕ) (s : BackendTeamState) (e : TokenError)
    → add_token token later s ≡ err e
    → is_retryable (err e) ≡ false
unfolding add_token ◌>>◌ ◌>>=◌ throw_if
add_token-firm token later s e =
    go (not (s.workspace_root == token.workspace_root))
      (any (λ r. r.token_id == token.token_id) s.approval_tokens)
  where
    added : BackendTeamState
    added = record s { approval_tokens = s.approval_tokens ++ token ∷ [] }

    go :
        (a b : Bool)
        → (throw_if a TokenError.wrong_state >> (throw_if b TokenError.collision >> ok added))
          ≡ err e
        → is_retryable (err e) ≡ false
    go true b m =
        let same : TokenError.wrong_state ≡ e = cc in ap (λ x. is_retryable (err x)) (sym same)
    go false true m =
        let same : TokenError.collision ≡ e = cc in ap (λ x. is_retryable (err x)) (sym same)
    go false false m = absurd (ground arith)

consume_token-firm :
    (runtime : Runtime) (claim : Claim) (at now : ℕ) (s : BackendTeamState) (e : TokenError)
    → consume_token runtime claim at now s ≡ err e
    → is_retryable (err e) ≡ false
unfolding consume_token
consume_token-firm runtime claim at now s e = home (s.workspace_root == claim.workspace_root)
  where
    thrown :
        (x : TokenError)
        → is_retryable (err x) ≡ false
        → ◌≡◌ {A = Outcome TokenError BackendTeamState} (err x) (err e)
        → is_retryable (err e) ≡ false
    thrown x h m = let same : x ≡ e = cc in ap (λ y. is_retryable (err y)) (sym same) ∙ h

    checked :
        (b : Bool) (changed : BackendTeamState)
        → (if b then ok changed else err TokenError.not_consumable) ≡ err e
        → is_retryable (err e) ≡ false
    checked true changed m = absurd (ground arith)
    checked false changed m = thrown TokenError.not_consumable refl m

    found :
        (o : Option ApprovalTokenRecord)
        → consume_found runtime claim at now s o ≡ err e
        → is_retryable (err e) ≡ false
    found none m = thrown TokenError.not_consumable refl m
    found (some r) m = checked (is_consumable runtime claim now r) _ m

    home :
        (b : Bool)
        → (if b
            then consume_found runtime claim at now s
                (find (λ r. r.token_id == claim.token_id) s.approval_tokens)
            else err TokenError.wrong_state)
          ≡ err e
        → is_retryable (err e) ≡ false
    home true m = found (find (λ r. r.token_id == claim.token_id) s.approval_tokens) m
    home false m = thrown TokenError.wrong_state refl m

settled :
    (o : Outcome TokenError (Unit {0}))
    → is_retryable o ≡ false
    → (o ≢ err TokenError.conflict) × (o ≢ err TokenError.busy)
settled o h = (
  (λ e. ground (arith, sym h ∙ ap is_retryable e)),
  (λ e. ground (arith, sym h ∙ ap is_retryable e)),
)

-- Of the 200 attempts of `transactWithRetry` one is enough in which nobody else writes or holds the
-- lock, whatever the others do in all the rest: neither the change of `issue` nor that of `consume`
-- then ends with a conflict of revisions or with a busy lock.
pub retries-settle :
    (runtime : Runtime) (token : ApprovalTokenRecord) (claim : Claim) (at i : ℕ) (turns : ℕ → Turn)
    (store : Option BackendTeamState)
    → i ≤ retries
    → IsQuiet (turns i)
    → (((transact_with_retry retries turns (add_token token) store).0 ≢ err TokenError.conflict)
        × ((transact_with_retry retries turns (add_token token) store).0 ≢ err TokenError.busy))
      × (((transact_with_retry retries turns (consume_token runtime claim at) store).0
            ≢ err TokenError.conflict)
          × ((transact_with_retry retries turns (consume_token runtime claim at) store).0
              ≢ err TokenError.busy))
retries-settle runtime token claim at i turns store h q = (
  settled (transact_with_retry retries turns (add_token token) store).0 (
      transact_with_retry-quiet (add_token token) (add_token-firm token) retries i turns store h q),
  settled (transact_with_retry retries turns (consume_token runtime claim at) store).0 (
      transact_with_retry-quiet (consume_token runtime claim at)
        (consume_token-firm runtime claim at) retries i turns store h q),
)
