-- ===== src/Policy/Tokens/Once.antt =====
-- What `consume` of packages/policy-engine/src/approval-token.ts answers for a token that is used.
use mathlib.Core.Path.{subst}
use mathlib.Core.Option.{some-injective}
use dsh_backend_team.Base.{
  ℕ, ◌≡◌, ◌≢◌, refl, sym, ap, ◌∙◌, Bool, true, false, Option, none, some, List, [], ◌∷◌, Text, ◌==◌,
  All, arith, if◌then◌else◌,
}
use dsh_backend_team.Base.Outcomes.{
  Outcome, ok, err, Ensures, Ensures-ok, bind_any-Ensures, seq-Ensures,
}
use dsh_backend_team.Core.State.{ApprovalTokenRecord, BackendTeamState}
use dsh_backend_team.Policy.Tokens.{TokenError, Turn, transact_with_retry, retries, parse_token}
use dsh_backend_team.Policy.Tokens.Retry.{
  next_state, Committed, Keeps, Ends, transact_with_retry-Ends,
}
use dsh_backend_team.Policy.Tokens.Digests.{Runtime}
use dsh_backend_team.Policy.Tokens.Service.{
  claimed, ApprovalTokenIssue, ApprovalTokenUse, Claim, add_token, consume_token, consumed_or_not,
  answer_for, is_not_consumable, issue, issue_record, issued_record, handed_out, consume,
  consume_parsed, consume_claim, consume_prepared, claim_of,
}
use dsh_backend_team.Policy.Tokens.Single.{
  IsUsed, KeepsUsed, TokenCall, turns_of, after_call, after_calls, add_token-IsUsed,
  consume_token-IsUsed, consume_token-marks, consume_token-refused,
}

module _ (runtime : Runtime) where
  abbrev HasId : Text → Option Claim → Type 0
  HasId id none = Unit
  HasId id (some claim) = claim.token_id ≡ id

  claimed-id :
      (input : ApprovalTokenUse) (token : Text × List ℕ) (root : Text) (d : Option (List ℕ))
      → HasId token.0 (claimed input token root d)
  claimed-id input token root none = tt
  claimed-id input token root (some d) = refl

  claim_of-id :
      (input : ApprovalTokenUse) (token : Text × List ℕ)
      → Ensures (HasId token.0) (claim_of runtime input token)
  unfolding claim_of
  claim_of-id input token = seq-Ensures (HasId token.0) _ _ (
      bind_any-Ensures (HasId token.0) _ _ (λ root.
        bind_any-Ensures (HasId token.0) _ _ (λ context_root.
          bind_any-Ensures (HasId token.0) _ _ (λ d. claimed-id input token root d))))

  module _ (P : Option BackendTeamState → Type 0) (claim : Claim) (turns : ℕ → Turn) (at : ℕ)
      (keeps : (n : ℕ) → Keeps P (turns n)) where
    -- A claim that is answered with true has made its change to a state with the property.
    consume_prepared-Committed :
        (store : Option BackendTeamState)
        → P store
        → (consume_prepared runtime turns claim at store).0 ≡ ok true
        → Committed P
            (consume_token runtime claim at)
            (consume_prepared runtime turns claim at store).1
    unfolding consume_prepared
    consume_prepared-Committed none h = λ e. absurd (ground arith)
    consume_prepared-Committed (some before) h = go (before.workspace_root == claim.workspace_root)
      where
        change : ℕ → BackendTeamState → Outcome TokenError BackendTeamState
        change = consume_token runtime claim at

        answered :
            (p : Outcome TokenError (Unit {0}) × Option BackendTeamState)
            → Ends P change p
            → (consumed_or_not p).0 ≡ ok true
            → Committed P change (consumed_or_not p).1
        answered (ok u, after) c e = c
        answered (err x, after) c e = refuse (is_not_consumable x) e
          where
            refuse : (b : Bool) → answer_for b x ≡ ok true → Committed P change after
            refuse true e = absurd (ground arith)
            refuse false e = absurd (ground arith)

        go :
            (b : Bool)
            → (if◌then◌else◌ {A = Outcome TokenError Bool × Option BackendTeamState} b
                (consumed_or_not (transact_with_retry retries turns change (some before)))
                (ok false, some before)).0
              ≡ ok true
            → Committed P change
                (if b
                  then consumed_or_not (transact_with_retry retries turns change (some before))
                  else (ok false, some before)).1
        go true e =
            answered (transact_with_retry retries turns change (some before))
              (transact_with_retry-Ends P change retries turns (some before) keeps h) e
        go false e = absurd (ground arith)

    consume_prepared-kept :
        ((now : ℕ) (s changed : BackendTeamState)
          → P (some s)
          → consume_token runtime claim at now s ≡ ok changed
          → P (some (next_state s changed)))
        → (store : Option BackendTeamState) → P store
        → P (consume_prepared runtime turns claim at store).1
    unfolding consume_prepared
    consume_prepared-kept f none h = h
    consume_prepared-kept f (some before) h = go (before.workspace_root == claim.workspace_root)
      where
        change : ℕ → BackendTeamState → Outcome TokenError BackendTeamState
        change = consume_token runtime claim at

        answered :
            (p : Outcome TokenError (Unit {0}) × Option BackendTeamState)
            → Ends P change p
            → P (consumed_or_not p).1
        answered (ok u, after) c =
            subst P (sym c.stored) (f c.now c.current c.changed c.held c.made)
        answered (err x, after) c = c

        go :
            (b : Bool)
            → P
                (if b
                  then consumed_or_not (transact_with_retry retries turns change (some before))
                  else (ok false, some before)).1
        go true =
            answered (transact_with_retry retries turns change (some before))
              (transact_with_retry-Ends P change retries turns (some before) keeps h)
        go false = h

  -- A call of `consume` keeps a used token, whichever token it is for.
  consume-IsUsed :
      (id : Text) (turns : ℕ → Turn) (token : Text) (input : ApprovalTokenUse) (at : ℕ)
      (store : Option BackendTeamState)
      → ((n : ℕ) → Keeps (IsUsed id) (turns n))
      → IsUsed id store
      → IsUsed id (consume runtime turns token input at store).1
  unfolding consume
  consume-IsUsed id turns token input at store k h = parsed (parse_token token)
    where
      with_claim :
          (o : Outcome TokenError (Option Claim))
          → IsUsed id (consume_claim runtime turns at store o).1
      with_claim (err e) = h
      with_claim (ok none) = h
      with_claim (ok (some claim)) =
          consume_prepared-kept (IsUsed id) claim turns at k
            (λ now s changed u m.
              Ensures-ok _ (consume_token runtime claim at now s) changed
                (consume_token-IsUsed id runtime claim at now s u) m)
            store h

      parsed :
          (o : Option (Text × List ℕ)) → IsUsed id (consume_parsed runtime turns input at store o).1
      parsed none = h
      parsed (some t) = with_claim (claim_of runtime input t)

  -- So does a call of `issue`.
  issue-IsUsed :
      (id : Text) (turns : ℕ → Turn) (input : ApprovalTokenIssue) (now : ℕ) (secret : List ℕ)
      (token_id : Text) (store : Option BackendTeamState)
      → ((n : ℕ) → Keeps (IsUsed id) (turns n))
      → IsUsed id store
      → IsUsed id (issue runtime turns input now secret token_id store).1
  unfolding issue
  issue-IsUsed id turns input now secret token_id store k h =
      go (issued_record runtime input now secret token_id)
    where
      ended :
          (token : ApprovalTokenRecord)
          (p : Outcome TokenError (Unit {0}) × Option BackendTeamState)
          → Ends (IsUsed id) (add_token token) p
          → IsUsed id (handed_out token_id secret p).1
      ended token (ok u, after) c = subst (IsUsed id) (sym c.stored) (
          Ensures-ok _ (add_token token c.now c.current) c.changed
            (add_token-IsUsed id token c.now c.current c.held) c.made)
      ended token (err e, after) c = c

      go :
          (o : Outcome TokenError ApprovalTokenRecord)
          → IsUsed id (issue_record turns store secret token_id o).1
      go (err e) = h
      go (ok token) =
          ended token (transact_with_retry retries turns (add_token token) store)
            (transact_with_retry-Ends (IsUsed id) (add_token token) retries turns store k h)

  after_calls-IsUsed :
      (id : Text) (calls : List TokenCall) (store : Option BackendTeamState)
      → All (λ c. KeepsUsed (turns_of c)) calls
      → IsUsed id store
      → IsUsed id (after_calls runtime calls store)
  unfolding after_calls after_call
  after_calls-IsUsed id [] store k h = h
  after_calls-IsUsed id (TokenCall.issuing turns input now secret token_id ∷ calls) store k h =
      after_calls-IsUsed id calls _ k.1
        (issue-IsUsed id turns input now secret token_id store (k.0 id) h)
  after_calls-IsUsed id (TokenCall.consuming turns token input at ∷ calls) store k h =
      after_calls-IsUsed id calls _ k.1 (consume-IsUsed id turns token input at store (k.0 id) h)

  -- The claim that a call makes, where it answers true
  consume-claim :
      (P : Option BackendTeamState → Type 0) (turns : ℕ → Turn) (token : Text)
      (input : ApprovalTokenUse) (at : ℕ) (store : Option BackendTeamState)
      → ((n : ℕ) → Keeps P (turns n))
      → P store
      → (consume runtime turns token input at store).0 ≡ ok true
      → (id : Text) × ((secret : List ℕ) × ((claim : Claim) × ((parse_token token
                ≡ some (id, secret))
              × ((claim.token_id ≡ id)
                  × Committed P
                      (consume_token runtime claim at)
                      (consume runtime turns token input at store).1))))
  unfolding consume
  consume-claim P turns token input at store k h = parsed (parse_token token) refl
    where
      with_claim :
          (t : Text × List ℕ) (o : Outcome TokenError (Option Claim))
          → Ensures (HasId t.0) o
          → (consume_claim runtime turns at store o).0 ≡ ok true
          → (claim : Claim) × ((claim.token_id ≡ t.0)
              × Committed P
                  (consume_token runtime claim at)
                  (consume_claim runtime turns at store o).1)
      with_claim t (err e) i a = absurd (ground arith)
      with_claim t (ok none) i a = absurd (ground arith)
      with_claim t (ok (some claim)) i a =
          (claim, (i, consume_prepared-Committed P claim turns at k store h a))

      parsed :
          (o : Option (Text × List ℕ))
          → parse_token token ≡ o
          → (consume_parsed runtime turns input at store o).0 ≡ ok true
          → (id : Text) × ((secret : List ℕ) × ((claim : Claim) × ((parse_token token
                    ≡ some (id, secret))
                  × ((claim.token_id ≡ id)
                      × Committed P
                          (consume_token runtime claim at)
                          (consume_parsed runtime turns input at store o).1))))
      parsed none e a = absurd (ground arith)
      parsed (some (id, secret)) e a =
          let (claim, (i, c)) =
            with_claim (id, secret) (claim_of runtime input (id, secret))
              (claim_of-id input (id, secret)) a in
          (id, (secret, (claim, (e, (i, c)))))

  -- A token that was consumed is not consumed again: after a call of `consume` that answered true
  -- and any calls of `issue` and `consume`, a call with the same token does not answer true,
  -- whatever it asks for. Between the loads and the writes of all these calls others may write
  -- anything that leaves the used tokens used.
  pub consume-once :
      (turns : ℕ → Turn) (token : Text) (input : ApprovalTokenUse) (at : ℕ)
      (store : Option BackendTeamState) (calls : List TokenCall) (later : ℕ → Turn)
      (again : ApprovalTokenUse) (after : ℕ)
      → (consume runtime turns token input at store).0 ≡ ok true
      → All (λ c. KeepsUsed (turns_of c)) calls
      → KeepsUsed later
      → (consume runtime later token again after
          (after_calls runtime calls (consume runtime turns token input at store).1)).0
        ≢ ok true
  consume-once turns token input at store calls later again after first k l second =
      let (id, (secret, (claim, (parsed, (named, c))))) =
        consume-claim (λ s. Unit) turns token input at store
          (λ n. record { loading = λ s h. tt; writing = λ s h. tt }) tt first in
      let used : IsUsed id (consume runtime turns token input at store).1 =
        subst (IsUsed id) (sym c.stored) (
          subst (λ i. IsUsed i (some (next_state c.current c.changed))) named
            (Ensures-ok _ (consume_token runtime claim at c.now c.current) c.changed
              (consume_token-marks runtime claim at c.now c.current) c.made)) in
      let kept = after_calls-IsUsed id calls _ k used in
      let (id₂, (secret₂, (claim₂, (parsed₂, (named₂, c₂))))) =
        consume-claim (IsUsed id) later token again after _ (l id) kept second in
      let same : claim₂.token_id ≡ id =
        named₂
        ∙ ap (λ (t : Text × List ℕ). t.0)
            (some-injective (id₂, secret₂) (id, secret) (sym parsed₂ ∙ parsed)) in
      let held : IsUsed claim₂.token_id (some c₂.current) =
        subst (λ i. IsUsed i (some c₂.current)) (sym same) c₂.held in
      let clash : true ≡ false =
        Ensures-ok (λ changed. true ≡ false) (consume_token runtime claim₂ after c₂.now c₂.current)
          c₂.changed (consume_token-refused runtime claim₂ after c₂.now c₂.current held) c₂.made in
      cc
