-- ===== src/Core/State.antt =====
-- The state of a task and its revisions: the fields of `BackendTeamState`
-- (packages/contracts/src/state.ts) that packages/core reads, and `transact` of
-- packages/core/src/state-store.ts. The lock, the file and the schema are the store's own: a
-- mutation is taken to give a state that its schema accepts.
use dsh_backend_team.Base.{
  ℕ, ◌+◌, ◌≡◌, refl, sym, ap, ◌∙◌, Bool, true, false, Option, none, some, List, Text, nat_eq, arith,
}
use dsh_backend_team.Core.Phase.{Phase}

pub data ApprovalKind : Type 0 where
  requirements : ApprovalKind
  design : ApprovalKind
  install : ApprovalKind
  migration : ApprovalKind
  shared_config : ApprovalKind

pub record ApprovalRecord : Type 0 where
  pub kind : ApprovalKind
  pub artifact_hashes : List (Text × Text)
  pub approved_at : Text
  pub token_id : Text

-- A canonical timestamp, of which there is one for each time, is its milliseconds. A digest in hex
-- is its bytes.
pub record ApprovalTokenRecord : Type 0 where
  pub token_id : Text
  pub kind : ApprovalKind
  pub workspace_root : Text
  pub secret_digest : List ℕ
  pub action_digest : List ℕ
  pub expires_at : ℕ
  pub used_at : Option ℕ

-- A run; the kind is there only where a later schema wrote it.
pub record RunRecord : Type 0 where
  pub id : Text
  pub kind : Option Text

pub record FinalVerification : Type 0 where
  pub delivery_ready : Bool
  pub digest : Text

pub record BackendTeamState : Type 0 where
  pub revision : ℕ
  pub workspace_root : Text
  pub phase : Phase
  pub final_verification : Option FinalVerification
  pub runs : List RunRecord
  pub approvals : List ApprovalRecord
  pub approval_tokens : List ApprovalTokenRecord

pub data StateError : Type 0 where
  not_created : StateError
  revision_conflict : (expected actual : ℕ) → StateError
  revision_modified : StateError
  illegal_transition : StateError
  not_in_development : StateError
  not_in_verification : StateError
  approval_missing : StateError

pub data Stored : Type 0 where
  stored : BackendTeamState → Stored
  refused : StateError → Stored

abbrev pub commit :
    Bool → BackendTeamState → ℕ → Option BackendTeamState → Stored × Option BackendTeamState
commit true changed revision old =
    let next : BackendTeamState = record changed { revision = revision + 1 } in
    (Stored.stored next, some next)
commit false changed revision old = (Stored.refused StateError.revision_modified, old)

abbrev pub transact_at :
    Bool
    → ℕ
    → (BackendTeamState → BackendTeamState)
    → BackendTeamState
    → Stored × Option BackendTeamState
transact_at true expected change current =
    commit (nat_eq (change current).revision current.revision) (change current) current.revision
      (some current)
transact_at false expected change current =
    (Stored.refused (StateError.revision_conflict expected current.revision), some current)

-- `transact` on what is stored
unfoldable pub transact :
    ℕ
    → (BackendTeamState → BackendTeamState)
    → Option BackendTeamState
    → Stored × Option BackendTeamState
transact expected change none = (Stored.refused StateError.not_created, none)
transact expected change (some current) =
    transact_at (nat_eq current.revision expected) expected change current

unfoldable value_or : BackendTeamState → Stored → BackendTeamState
value_or default (Stored.stored s) = s
value_or default (Stored.refused e) = default

-- What a write that was accepted has stored.
pub transact_stored :
    (expected : ℕ) (f : BackendTeamState → BackendTeamState) (store : Option BackendTeamState)
    (next : BackendTeamState)
    → (transact expected f store).0 ≡ Stored.stored next
    → ((transact expected f store).1 ≡ some next) × (next.revision ≡ expected + 1)
unfolding transact value_or
transact_stored expected f none next h = absurd (ground arith)
transact_stored expected f (some current) next h = go (nat_eq current.revision expected) refl h
  where
    made :
        (b : Bool)
        → current.revision ≡ expected
        → (commit b (f current) current.revision (some current)).0 ≡ Stored.stored next
        → ((commit b (f current) current.revision (some current)).1 ≡ some next)
          × (next.revision ≡ expected + 1)
    made true e k =
        let same = ap (value_or next) k in
        (ap some same, sym (ap (λ s. s.revision) same) ∙ ap (λ n. n + 1) e)
    made false e k = absurd (ground arith)

    go :
        (b : Bool)
        → nat_eq current.revision expected ≡ b
        → (transact_at b expected f current).0 ≡ Stored.stored next
        → ((transact_at b expected f current).1 ≡ some next) × (next.revision ≡ expected + 1)
    go true e k = made (nat_eq (f current).revision current.revision) (ground arith) k
    go false e k = absurd (ground arith)

-- Of two writers who saw the same revision and write one after the other, the second is refused
-- with the revision that the first one made, and what the first one wrote stays.
pub transact-twice :
    (expected : ℕ) (f g : BackendTeamState → BackendTeamState) (store : Option BackendTeamState)
    (next : BackendTeamState)
    → (transact expected f store).0 ≡ Stored.stored next
    → transact expected g (transact expected f store).1
      ≡ (Stored.refused (StateError.revision_conflict expected (expected + 1)), some next)
unfolding transact
transact-twice expected f g store next h =
    let (kept, revision) = transact_stored expected f store next h in
    let moved : nat_eq next.revision expected ≡ false = ground arith in
    ap (transact expected g) kept
    ∙ ap (λ b. transact_at b expected g next) moved
    ∙ ap (λ r. (Stored.refused (StateError.revision_conflict expected r), some next)) revision
