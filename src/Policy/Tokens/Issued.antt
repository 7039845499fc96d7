-- ===== src/Policy/Tokens/Issued.antt =====
-- A token that `issue` of packages/policy-engine/src/approval-token.ts gives is consumed for what it
-- was issued for.
use dsh_backend_team.Policy.Tokens.Quiet.{
  IsQuiet, when_quiet, ends_in_conflict, transact_with_retry-first, quiet-firm,
}
use mathlib.Core.Path.{subst}
use mathlib.Core.Option.{some-injective}
use dsh_backend_team.Base.{
  map, ℕ, ◌<◌, ◌≡◌, refl, sym, ap, ◌∙◌, Bool, true, false, Option, none, some, List, Text, ◌==◌,
  ==_iff, ==_refl, find, is_some, nat_eq, leb, length, arith, if◌then◌else◌, find-append_fresh,
}
use dsh_backend_team.Base.Outcomes.{
  Outcome, ok, err, Ensures, bind_eq-Ensures, throw_if-Ensures, ◌>>=◌, ◌>>◌, throw_if,
}
use dsh_backend_team.Core.State.{ApprovalKind, ApprovalTokenRecord, BackendTeamState}
use dsh_backend_team.Policy.Base64.{AreBytes}
use dsh_backend_team.Policy.Targets.{real, PathError}
use dsh_backend_team.Policy.Tokens.{
  TokenError, Turn, transact_with_retry, retries, parse_token, print_token, is_safe_token_id,
  written,
}
use dsh_backend_team.Policy.Tokens.Retry.{next_state}
use dsh_backend_team.Policy.Tokens.Digests.{Runtime, canonical_action_digest}
use dsh_backend_team.Policy.Tokens.Service.{
  mark_used, ApprovalTokenIssue, ApprovalTokenUse, Claim, add_token, consume_token, consume_found,
  is_consumable, consumed_or_not, issue, issue_record, issued_record, handed_out, consume,
  consume_parsed, consume_claim, consume_prepared, claim_of, thrown_path, expiry_after, is_command,
  same_kind,
}
use dsh_backend_team.Policy.Tokens.Settled.{add_token-firm}
use dsh_backend_team.Policy.Tokens.Opaque.{parse_token-print}

-- The use that a token is issued for
abbrev pub use_of : ApprovalTokenIssue → ApprovalTokenUse
use_of input = record {
  kind = input.kind;
  workspace_root = input.workspace_root;
  context = input.context;
  action = input.action;
}

same_kind_refl : (kind : ApprovalKind) → same_kind kind kind ≡ true
same_kind_refl ApprovalKind.requirements = refl
same_kind_refl ApprovalKind.design = refl
same_kind_refl ApprovalKind.install = refl
same_kind_refl ApprovalKind.migration = refl
same_kind_refl ApprovalKind.shared_config = refl

thrown_path-ok : {A : Type 0} (m : Outcome PathError A) (a : A) → thrown_path m ≡ ok a → m ≡ ok a
thrown_path-ok (ok b) a e = let same : b ≡ a = cc in ap ok same
thrown_path-ok (err x) a e = absurd (ground arith)

module _ (runtime : Runtime) (input : ApprovalTokenIssue) (now : ℕ) (secret : List ℕ)
    (token_id : Text) where
  -- What the record of an issued token says
  record IssuedAs (token : ApprovalTokenRecord) : Type 0 where
    id : token.token_id ≡ token_id
    kind : token.kind ≡ input.kind
    root : real runtime.fs input.workspace_root ≡ ok token.workspace_root
    context_root : real runtime.fs input.context.workspace_root ≡ ok token.workspace_root
    secret_digest : token.secret_digest ≡ runtime.sha256 secret
    action_digest :
        canonical_action_digest runtime token.workspace_root input.action ≡ ok token.action_digest
    expiry : input.expires_at ≡ some token.expires_at
    unused : token.used_at ≡ none
    secret_size : length secret ≡ 32
    safe : is_safe_token_id token_id ≡ true

  expiry_after-ok : (o : Option ℕ) (t : ℕ) → expiry_after now o ≡ ok t → o ≡ some t
  expiry_after-ok none t e = absurd (ground arith)
  expiry_after-ok (some u) t e = go (leb u now) e
    where
      go : (b : Bool) → (if b then err TokenError.bad_expiry else ok u) ≡ ok t → some u ≡ some t
      go true e = absurd (ground arith)
      go false e = let same : u ≡ t = cc in ap some same

  issued_record-IssuedAs : Ensures IssuedAs (issued_record runtime input now secret token_id)
  unfolding issued_record
  issued_record-IssuedAs = throw_if-Ensures IssuedAs _ _ _ (λ asked.
      bind_eq-Ensures IssuedAs (thrown_path (real runtime.fs input.workspace_root)) _ (λ root r.
        bind_eq-Ensures IssuedAs (thrown_path (real runtime.fs input.context.workspace_root)) _
          (λ context_root c. throw_if-Ensures IssuedAs _ _ _ (λ same.
            bind_eq-Ensures IssuedAs (expiry_after now input.expires_at) _ (λ expires_at x.
              throw_if-Ensures IssuedAs _ _ _ (λ size. throw_if-Ensures IssuedAs _ _ _ (λ safe.
                bind_eq-Ensures IssuedAs
                  (thrown_path (canonical_action_digest runtime root input.action)) _
                  (λ d a.
                    let alike : context_root ≡ root =
                      sym ((==_iff root context_root).0 (ground arith)) in
                    record {
                      id = refl;
                      kind = refl;
                      root = thrown_path-ok _ root r;
                      context_root = thrown_path-ok _ context_root c ∙ ap ok alike;
                      secret_digest = refl;
                      action_digest = thrown_path-ok _ d a;
                      expiry = expiry_after-ok input.expires_at expires_at x;
                      unused = refl;
                      secret_size = ground arith;
                      safe = ground arith;
                    }))))))))

  -- The claim of the use
  abbrev claim_for : ApprovalTokenRecord → Claim
  claim_for token = record {
    token_id = token_id;
    secret = secret;
    kind = input.kind;
    workspace_root = token.workspace_root;
    action_digest = token.action_digest;
  }

  claim_of-issued :
      (token : ApprovalTokenRecord)
      → IssuedAs token
      → is_command input.action ≡ false
      → claim_of runtime (use_of input) (token_id, secret) ≡ ok (some (claim_for token))
  unfolding claim_of ◌>>=◌ ◌>>◌ throw_if
  claim_of-issued token i plain =
      rw (plain, i.root, i.context_root, ==_refl token.workspace_root, i.action_digest) refl

  is_consumable-issued :
      (token : ApprovalTokenRecord) (later : ℕ)
      → IssuedAs token
      → length (runtime.sha256 secret) ≡ 32
      → later < token.expires_at
      → is_consumable runtime (claim_for token) later token ≡ true
  unfolding is_consumable
  is_consumable-issued token later i hash early =
      let digest : (token.secret_digest == runtime.sha256 secret) ≡ true =
        (==_iff token.secret_digest (runtime.sha256 secret)).1 i.secret_digest in
      let size : length token.secret_digest ≡ 32 =
        ap (λ (d : List ℕ). length d) i.secret_digest ∙ hash in
      let kind : same_kind token.kind input.kind ≡ true =
        ap (same_kind token.kind) (sym i.kind) ∙ same_kind_refl token.kind in
      let unused : is_some token.used_at ≡ false = ap (λ (o : Option ℕ). is_some o) i.unused in
      ground (
        arith,
        digest,
        size,
        kind,
        unused,
        early,
        ==_refl token.workspace_root,
        ==_refl token.action_digest,
      )

  consume_token-issued :
      (token : ApprovalTokenRecord) (s : BackendTeamState) (at later : ℕ)
      → IssuedAs token
      → length (runtime.sha256 secret) ≡ 32
      → later < token.expires_at
      → s.workspace_root ≡ token.workspace_root
      → find (λ r. r.token_id == token_id) s.approval_tokens ≡ some token
      → (changed : BackendTeamState) × ((consume_token runtime (claim_for token) at later s
            ≡ ok changed)
          × (changed.revision ≡ s.revision))
  unfolding consume_token is_consumable
  consume_token-issued token s at later i hash early home found =
      let claim = claim_for token in
      let changed : BackendTeamState = record s {
        approval_tokens = map (mark_used token.token_id at) s.approval_tokens;
      } in
      let here : (s.workspace_root == token.workspace_root) ≡ true =
        (==_iff s.workspace_root token.workspace_root).1 home in
      (
        changed,
        (
          ap
                (λ b.
                  if b
                  then consume_found runtime claim at later s
                      (find (λ r. r.token_id == token_id) s.approval_tokens)
                  else err TokenError.wrong_state)
                here
              ∙ ap (consume_found runtime claim at later s) found
              ∙ ap (λ b. if b then ok changed else err TokenError.not_consumable)
                  (is_consumable-issued token later i hash early),
          refl,
        ),
      )

-- The state behind a quiet issue
abbrev IsAdded : ApprovalTokenRecord → BackendTeamState → BackendTeamState → Type 0
IsAdded token s changed =
    (changed.revision ≡ s.revision)
    × ((changed.workspace_root ≡ token.workspace_root)
        × (find (λ r. r.token_id == token.token_id) changed.approval_tokens ≡ some token))

add_token-IsAdded :
    (token : ApprovalTokenRecord) (later : ℕ) (s : BackendTeamState)
    → Ensures (IsAdded token s) (add_token token later s)
unfolding add_token
add_token-IsAdded token later s = throw_if-Ensures (IsAdded token s) _ _ _ (λ home.
    throw_if-Ensures (IsAdded token s) _ _ _ (λ fresh. (
      refl,
      (
        (==_iff s.workspace_root token.workspace_root).0 (ground arith),
        find-append_fresh (λ r. r.token_id == token.token_id) s.approval_tokens token fresh
            (==_refl token.token_id),
      ),
    )))

written-ok :
    (current changed : BackendTeamState)
    → changed.revision ≡ current.revision
    → written current (ok changed) ≡ (ok tt, some (next_state current changed))
written-ok current changed e =
    let same : nat_eq changed.revision current.revision ≡ true = ground arith in
    ap
      (λ b.
        if b
        then (ok tt, some (next_state current changed))
        else (err TokenError.revision_modified, some current))
      same

module _ (runtime : Runtime) (hash : (bytes : List ℕ) → length (runtime.sha256 bytes) ≡ 32) where
  -- A claim that the state satisfies is answered with true.
  consume_prepared-issued :
      (input : ApprovalTokenIssue) (now : ℕ) (secret : List ℕ) (token_id : Text)
      (token : ApprovalTokenRecord) (later : ℕ → Turn) (at : ℕ) (s added : BackendTeamState)
      → IssuedAs runtime input now secret token_id token
      → IsAdded token s added
      → IsQuiet (later retries)
      → (later retries).now < token.expires_at
      → (consume_prepared runtime later
          (claim_for runtime input now secret token_id token)
          at
          (some (next_state s added))).0
        ≡ ok true
  unfolding consume_prepared
  consume_prepared-issued input now secret token_id token later at s added i
        (revision, (home, found)) q early =
      let claim = claim_for runtime input now secret token_id token in
      let store = next_state s added in
      let found_by_id =
        subst (λ id. find (λ r. r.token_id == id) added.approval_tokens ≡ some token) i.id found in
      let (changed, (made, same)) =
        consume_token-issued runtime input now secret token_id token store at (later retries).now i
          (hash secret) early home found_by_id in
      let done : when_quiet (consume_token runtime claim at) (later retries).now (some store)
          ≡ (ok tt, some (next_state store changed)) =
        ap (written store) made ∙ written-ok store changed same in
      let first =
        transact_with_retry-first (consume_token runtime claim at) retries later (some store) q
          (ap ends_in_conflict done) in
      let here : (added.workspace_root == token.workspace_root) ≡ true =
        (==_iff added.workspace_root token.workspace_root).1 home in
      ap
        (λ b.
          (if◌then◌else◌ {A = Outcome TokenError Bool × Option BackendTeamState} b
            (consumed_or_not
              (transact_with_retry retries later (consume_token runtime claim at) (some store)))
            (ok false, some store)).0)
        here
      ∙ ap (λ p. (consumed_or_not p).0) (first ∙ done)

  -- A token that is issued can be used: where neither call is disturbed in its first attempt, the
  -- same action, kind and workspace come with the token, the action is no command, and the token has
  -- not expired at the time of the use, `consume` answers true. The digests of SHA-256 have 32 bytes.
  pub issue-consume :
      (turns later : ℕ → Turn) (input : ApprovalTokenIssue) (now at expires_at : ℕ)
      (secret : List ℕ) (token_id token : Text) (store after : Option BackendTeamState)
      → issue runtime turns input now secret token_id store ≡ (ok token, after)
      → AreBytes secret
      → is_command input.action ≡ false
      → IsQuiet (turns retries)
      → IsQuiet (later retries)
      → input.expires_at ≡ some expires_at
      → (later retries).now < expires_at
      → (consume runtime later token (use_of input) at after).0 ≡ ok true
  unfolding issue consume
  issue-consume turns later input now at expires_at secret token_id token store after e bytes plain
        q l expiry early =
      recorded (issued_record runtime input now secret token_id)
        (issued_record-IssuedAs runtime input now secret token_id) e
    where
      consumed :
          (r : ApprovalTokenRecord) (s added : BackendTeamState)
          → IssuedAs runtime input now secret token_id r
          → IsAdded r s added
          → print_token token_id secret ≡ token
          → some (next_state s added) ≡ after
          → (consume_parsed runtime later (use_of input) at after (parse_token token)).0 ≡ ok true
      consumed r s added i a printed stored =
          let parsed =
            (parse_token-print token_id secret i.safe i.secret_size bytes token).1 (sym printed) in
          let same : expires_at ≡ r.expires_at =
            some-injective expires_at r.expires_at (sym expiry ∙ i.expiry) in
          let early : (later retries).now < r.expires_at = omega arith in
          ap (λ p. (consume_parsed runtime later (use_of input) at after p).0) parsed
          ∙ ap (λ o. (consume_claim runtime later at after o).0)
              (claim_of-issued runtime input now secret token_id r i plain)
          ∙ ap
              (λ st.
                (consume_prepared runtime later (claim_for runtime input now secret token_id r) at
                  st).0)
              (sym stored)
          ∙ consume_prepared-issued input now secret token_id r later at s added i a l early

      issued :
          (r : ApprovalTokenRecord) (s : BackendTeamState)
          → IssuedAs runtime input now secret token_id r
          → (o : Outcome TokenError BackendTeamState) → Ensures (IsAdded r s) o
          → handed_out token_id secret (written s o) ≡ (ok token, after)
          → (consume_parsed runtime later (use_of input) at after (parse_token token)).0 ≡ ok true
      issued r s i (err x) a h = absurd (ground arith)
      issued r s i (ok added) a h =
          let end : ◌≡◌ {A = Outcome TokenError Text × Option BackendTeamState}
              (ok (print_token token_id secret), some (next_state s added)) (ok token, after) =
            ap (handed_out token_id secret) (sym (written-ok s added a.0)) ∙ h in
          let told : ◌≡◌ {A = Outcome TokenError Text} (ok (print_token token_id secret))
              (ok token) =
            ap (λ (p : Outcome TokenError Text × Option BackendTeamState). p.0) end in
          let printed : print_token token_id secret ≡ token = cc in
          consumed r s added i a printed
            (ap (λ (p : Outcome TokenError Text × Option BackendTeamState). p.1) end)

      ended :
          (r : ApprovalTokenRecord)
          → IssuedAs runtime input now secret token_id r
          → (store : Option BackendTeamState)
          → handed_out token_id secret (when_quiet (add_token r) (turns retries).now store)
            ≡ (ok token, after)
          → (consume_parsed runtime later (use_of input) at after (parse_token token)).0 ≡ ok true
      ended r i none h = absurd (ground arith)
      ended r i (some s) h =
          issued r s i (add_token r (turns retries).now s)
            (add_token-IsAdded r (turns retries).now s) h

      recorded :
          (o : Outcome TokenError ApprovalTokenRecord)
          → Ensures (IssuedAs runtime input now secret token_id) o
          → issue_record turns store secret token_id o ≡ (ok token, after)
          → (consume_parsed runtime later (use_of input) at after (parse_token token)).0 ≡ ok true
      recorded (err x) i h = absurd (ground arith)
      recorded (ok r) i h = ended r i store (
          ap (handed_out token_id secret) (
            sym (
              transact_with_retry-first (add_token r) retries turns store q
                (quiet-firm (add_token r) (add_token-firm r) (turns retries).now store)))
          ∙ h)
