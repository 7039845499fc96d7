-- ===== src/Policy/Tokens/Single.antt =====
-- A token of packages/policy-engine/src/approval-token.ts is consumed once.
use dsh_backend_team.Policy.Tokens.{Turn}
use mathlib.Core.Path.{subst}
use mathlib.Core.Option.{some-injective}
use dsh_backend_team.Base.{
  arith, sym, refl, ==_refl, ℕ, ◌≡◌, refl, ap, ◌∙◌, Bool, true, false, Option, none, some, List, [],
  ◌∷◌, map, Text, ◌==◌, find, is_some, if◌then◌else◌, find-append, find-map, map_some,
}
use dsh_backend_team.Base.Outcomes.{Ensures, throw_if-Ensures, if-Ensures}
use dsh_backend_team.Core.State.{ApprovalTokenRecord, BackendTeamState}
use dsh_backend_team.Policy.Tokens.Retry.{Keeps, next_state}
use dsh_backend_team.Policy.Tokens.Digests.{Runtime}
use dsh_backend_team.Policy.Tokens.Service.{
  ApprovalTokenUse, consume, ApprovalTokenIssue, issue, Claim, add_token, consume_token,
  consume_found, is_consumable, mark_used,
}

abbrev named : Text → ApprovalTokenRecord → Bool
named id r = r.token_id == id

-- The state has a token of this name that is used.
abbrev used_in : Text → List ApprovalTokenRecord → Bool
used_in id tokens = elim (find (named id) tokens) [ none ↦ false | some r ↦ is_some r.used_at ]

abbrev pub IsUsed : Text → Option BackendTeamState → Type 0
IsUsed id none = true ≡ false
IsUsed id (some s) =
    (r : ApprovalTokenRecord) × ((find (λ r. r.token_id == id) s.approval_tokens ≡ some r)
      × (is_some r.used_at ≡ true))

module _ (id : Text) where
  mark_used-named :
      (other : Text) (at : ℕ) (r : ApprovalTokenRecord)
      → named id (mark_used other at r) ≡ named id r
  mark_used-named other at r = go (r.token_id == other)
    where
      go : (b : Bool) → named id (if b then record r { used_at = some at } else r) ≡ named id r
      go true = refl
      go false = refl

  mark_used-stays :
      (other : Text) (at : ℕ) (r : ApprovalTokenRecord)
      → is_some r.used_at ≡ true
      → is_some (mark_used other at r).used_at ≡ true
  mark_used-stays other at r h = go (r.token_id == other)
    where
      go :
          (b : Bool)
          → is_some
              (if◌then◌else◌ {A = ApprovalTokenRecord} b (record r { used_at = some at }) r).used_at
            ≡ true
      go true = refl
      go false = h

  abbrev StaysUsed : BackendTeamState → BackendTeamState → Type 0
  StaysUsed s changed = IsUsed id (some (next_state s changed))

  -- The change of `issue` keeps a used token.
  pub add_token-IsUsed :
      (token : ApprovalTokenRecord) (now : ℕ) (s : BackendTeamState)
      → IsUsed id (some s)
      → Ensures (StaysUsed s) (add_token token now s)
  unfolding add_token
  add_token-IsUsed token now s (r, (found, used)) = throw_if-Ensures (StaysUsed s) _ _ _ (λ same.
      throw_if-Ensures (StaysUsed s) _ _ _
        (λ fresh. (r, (find-append (named id) s.approval_tokens (token ∷ []) r found, used))))

  marked-IsUsed :
      (other : Text) (at : ℕ) (s : BackendTeamState)
      → IsUsed id (some s)
      → StaysUsed s (record s { approval_tokens = map (mark_used other at) s.approval_tokens })
  marked-IsUsed other at s (r, (found, used)) = (
    mark_used other at r,
    (
      find-map (named id) (mark_used other at) (mark_used-named other at) s.approval_tokens
          ∙ ap (map_some (mark_used other at)) found,
      mark_used-stays other at r used,
    ),
  )

  -- So does the change of `consume`.
  pub consume_token-IsUsed :
      (runtime : Runtime) (claim : Claim) (at now : ℕ) (s : BackendTeamState)
      → IsUsed id (some s)
      → Ensures (StaysUsed s) (consume_token runtime claim at now s)
  unfolding consume_token
  consume_token-IsUsed runtime claim at now s h =
      if-Ensures (StaysUsed s) (s.workspace_root == claim.workspace_root) _ _
        (λ e. go (find (λ r. r.token_id == claim.token_id) s.approval_tokens)) (λ e. tt)
    where
      go :
          (o : Option ApprovalTokenRecord)
          → Ensures (StaysUsed s) (consume_found runtime claim at now s o)
      go none = tt
      go (some r) =
          if-Ensures (StaysUsed s) (is_consumable runtime claim now r) _ _
            (λ e. marked-IsUsed r.token_id at s h) (λ e. tt)

-- Once it is made, the change of `consume` has its token used.
pub consume_token-marks :
    (runtime : Runtime) (claim : Claim) (at now : ℕ) (s : BackendTeamState)
    → Ensures (StaysUsed claim.token_id s) (consume_token runtime claim at now s)
unfolding consume_token
consume_token-marks runtime claim at now s =
    if-Ensures (StaysUsed claim.token_id s) (s.workspace_root == claim.workspace_root) _ _
      (λ e. go (find (named claim.token_id) s.approval_tokens) refl) (λ e. tt)
  where
    marked :
        (r : ApprovalTokenRecord)
        → find (named claim.token_id) s.approval_tokens ≡ some r
        → StaysUsed claim.token_id s
            (record s { approval_tokens = map (mark_used r.token_id at) s.approval_tokens })
    marked r found =
        let id = claim.token_id in
        (
          mark_used r.token_id at r,
          (
            find-map (named id) (mark_used r.token_id at) (mark_used-named id r.token_id at)
                  s.approval_tokens
                ∙ ap (map_some (mark_used r.token_id at)) found,
            ap
                (λ (b : Bool).
                  is_some
                    (if◌then◌else◌ {A = ApprovalTokenRecord} b (record r { used_at = some at })
                      r).used_at)
                (==_refl r.token_id),
          ),
        )

    go :
        (o : Option ApprovalTokenRecord)
        → find (named claim.token_id) s.approval_tokens ≡ o
        → Ensures (StaysUsed claim.token_id s) (consume_found runtime claim at now s o)
    go none f = tt
    go (some r) f =
        if-Ensures (StaysUsed claim.token_id s) (is_consumable runtime claim now r) _ _
          (λ e. marked r f) (λ e. tt)

-- The change of `consume` is not made for a used token.
pub consume_token-refused :
    (runtime : Runtime) (claim : Claim) (at now : ℕ) (s : BackendTeamState)
    → IsUsed claim.token_id (some s)
    → Ensures (λ changed. true ≡ false) (consume_token runtime claim at now s)
unfolding consume_token is_consumable
consume_token-refused runtime claim at now s (r, (found, used)) =
    if-Ensures (λ changed. true ≡ false) (s.workspace_root == claim.workspace_root) _ _
      (λ e. go (find (named claim.token_id) s.approval_tokens) found) (λ e. tt)
  where
    go :
        (o : Option ApprovalTokenRecord)
        → o ≡ some r
        → Ensures (λ changed. true ≡ false) (consume_found runtime claim at now s o)
    go none f = tt
    go (some q) f =
        if-Ensures (λ changed. true ≡ false) (is_consumable runtime claim now q) _ _
          (λ e.
            let same : q ≡ r = some-injective q r f in
            let still : is_some q.used_at ≡ true =
              subst (λ (x : ApprovalTokenRecord). is_some x.used_at ≡ true) (sym same) used in
            ground (arith, e, still))
          (λ e. tt)

-- The other writers never take a use back.
abbrev pub KeepsUsed : (ℕ → Turn) → Type 0
KeepsUsed turns = (id : Text) (n : ℕ) → Keeps (IsUsed id) (turns n)

pub data TokenCall : Type 0 where
  issuing :
      (ℕ → Turn)
      → ApprovalTokenIssue
      → (now : ℕ) → (secret : List ℕ) → (token_id : Text) → TokenCall
  consuming : (ℕ → Turn) → (token : Text) → ApprovalTokenUse → (consumed_at : ℕ) → TokenCall

abbrev pub turns_of : TokenCall → ℕ → Turn
turns_of (TokenCall.issuing turns input now secret token_id) = turns
turns_of (TokenCall.consuming turns token input consumed_at) = turns

module _ (runtime : Runtime) where
  -- The store behind a call
  unfoldable pub after_call : TokenCall → Option BackendTeamState → Option BackendTeamState
  after_call (TokenCall.issuing turns input now secret token_id) store =
      (issue runtime turns input now secret token_id store).1
  after_call (TokenCall.consuming turns token input consumed_at) store =
      (consume runtime turns token input consumed_at store).1

  unfoldable pub after_calls : List TokenCall → Option BackendTeamState → Option BackendTeamState
  after_calls [] store = store
  after_calls (c ∷ cs) store = after_calls cs (after_call c store)
