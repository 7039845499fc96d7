-- ===== src/Policy/Tokens/Tests.antt =====
-- A token at work, and the theorems on tokens there.
use dsh_backend_team.Policy.Tokens.Quiet.{IsQuiet}
use dsh_backend_team.Base.{
  ltb, ℕ, ◌≡◌, ◌≢◌, ◌↔◌, refl, true, false, some, none, Option, List, [], ◌∷◌, Text, codes, ◌==◌,
  arith, split_on, starts_with, suc, zero,
}
use dsh_backend_team.Base.Outcomes.{err, ok, ◌>>=◌, ◌>>◌, throw_if}
use dsh_backend_team.Core.Phase.{Phase}
use dsh_backend_team.Core.State.{ApprovalKind, ApprovalTokenRecord, BackendTeamState}
use dsh_backend_team.Policy.Actions.{PolicyAction}
use dsh_backend_team.Policy.Engine.{authorize, normalize, prepared_in}
use dsh_backend_team.Policy.Installs.{is_global_install_flag}
use dsh_backend_team.Policy.Rules.{
  evaluate_rules, deny_production_database, deny_non_loopback_service,
  deny_system_or_global_install, deny_destructive_git, deny_unowned_delete,
  require_install_approval,
}
use dsh_backend_team.Policy.Base64.{encode, decode}
use dsh_backend_team.Policy.Targets.{real, Entry}
use dsh_backend_team.Policy.Tokens.{
  TokenError, attempt, transact_change, Turn, print_token, parse_token, is_safe_token_id,
  transact_with_retry, retries,
}
use dsh_backend_team.Policy.Tokens.Digests.{canonical_action_digest, normalized_action, Runtime}
use dsh_backend_team.Policy.Tokens.Service.{
  Claim, issued_record, add_token, claim_of, consume_prepared, consume_token, is_consumable,
  ApprovalTokenIssue, issue, consume,
}
use dsh_backend_team.Policy.Tokens.Settled.{retries-settle}
use dsh_backend_team.Policy.Tokens.Single.{KeepsUsed, TokenCall, after_calls}
use dsh_backend_team.Policy.Tokens.Once.{consume-once}
use dsh_backend_team.Policy.Tokens.Opaque.{parse_token-print}
use dsh_backend_team.Policy.Tokens.Issued.{use_of, issue-consume}

abbrev zeros : ℕ → List ℕ
zeros zero = []
zeros (suc n) = 0 ∷ zeros n

abbrev runtime : Runtime
runtime = record {
  host = record { hostname = λ url. none; process_cwd = codes "/w" };
  fs = record {
    realpath = λ path. some path;
    lstat = λ path. Entry.present;
    is_directory = λ path. true;
  };
  sha256 = λ bytes. zeros 32;
  sha256_canonical = λ action. zeros 32;
  executable_digest = λ path. ok (zeros 32);
}

abbrev turns : ℕ → Turn
turns n = record {
  before_load = λ store. store;
  before_write = λ store. store;
  locked = false;
  now = 10;
}

-- Five attempts find the lock taken.
abbrev busy_turns : ℕ → Turn
busy_turns n = record {
  before_load = λ store. store;
  before_write = λ store. store;
  locked = ltb 194 n;
  now = 10;
}

abbrev input : ApprovalTokenIssue
input = record {
  kind = ApprovalKind.install;
  workspace_root = codes "/w";
  context = record { workspace_root = codes "/w"; phase = Phase.build };
  action = PolicyAction.install (codes "zod" ∷ []);
  expires_at = some 20;
}

abbrev state : BackendTeamState
state = record {
  revision = 4;
  workspace_root = codes "/w";
  phase = Phase.build;
  final_verification = none;
  runs = [];
  approvals = [];
  approval_tokens = [];
}

abbrev secret : List ℕ
secret = 255 ∷ 1 ∷ zeros 30

abbrev id : Text
id = codes "abcdefghijklmnop"

abbrev token_record : ApprovalTokenRecord
token_record = record {
  token_id = id;
  kind = ApprovalKind.install;
  workspace_root = codes "/w";
  secret_digest = zeros 32;
  action_digest = zeros 32;
  expires_at = 20;
  used_at = none;
}

abbrev after_issue : Option BackendTeamState
after_issue = some (record state { revision = 5; approval_tokens = token_record ∷ [] })

token_text :
    print_token id secret
    ≡ codes "dsh-at1.abcdefghijklmnop._wEAAAAAAAAAAAAAAAAAAAAAAAAAAAAAAAAAAAAAAAA"
unfolding print_token encode
token_text = refl

issued :
    issue runtime turns input 10 secret id (some state) ≡ (ok (print_token id secret), after_issue)
unfolding issue issued_record add_token authorize normalize prepared_in evaluate_rules
    deny_production_database deny_non_loopback_service deny_system_or_global_install
    is_global_install_flag deny_destructive_git deny_unowned_delete require_install_approval real
    ◌>>=◌ ◌>>◌ throw_if is_safe_token_id canonical_action_digest normalized_action
    transact_with_retry attempt transact_change ◌==◌ starts_with
issued = refl

quiet : IsQuiet (turns retries)
quiet = record { loading = λ store. refl; writing = λ store. refl; free = refl }

consumed : (consume runtime turns (print_token id secret) (use_of input) 11 after_issue).0 ≡ ok true
unfolding consume parse_token split_on print_token encode decode is_safe_token_id claim_of real
    ◌>>=◌ ◌>>◌ throw_if canonical_action_digest normalized_action consume_prepared consume_token
    is_consumable transact_with_retry attempt transact_change ◌==◌
consumed = refl

issue-consume_example :
    (consume runtime turns (print_token id secret) (use_of input) 11 after_issue).0 ≡ ok true
issue-consume_example =
    issue-consume runtime (λ bytes. refl) turns turns input 10 11 20 secret id
      (print_token id secret) (some state) after_issue issued (omega arith) refl quiet quiet refl
      (omega arith)

parse_token-print_example :
    (parse_token (print_token id secret) ≡ some (id, secret))
    ↔ (print_token id secret ≡ print_token id secret)
unfolding is_safe_token_id
parse_token-print_example =
    parse_token-print id secret refl refl (omega arith) (print_token id secret)

keeps : KeepsUsed turns
keeps = λ name n. record { loading = λ store h. h; writing = λ store h. h }

abbrev calls : List TokenCall
calls = TokenCall.consuming turns (codes "x") (use_of input) 12 ∷ []

consume-once_example :
    (consume runtime turns (print_token id secret) (use_of input) 13 (
      after_calls runtime calls
        (consume runtime turns (print_token id secret) (use_of input) 11 after_issue).1)).0
    ≢ ok true
consume-once_example =
    consume-once runtime turns (print_token id secret) (use_of input) 11 after_issue calls turns
      (use_of input) 13 consumed (keeps, tt) keeps

abbrev claim : Claim
claim = record {
  token_id = id;
  secret = secret;
  kind = ApprovalKind.install;
  workspace_root = codes "/w";
  action_digest = zeros 32;
}

retries-settle_example :
    (((transact_with_retry retries busy_turns (add_token token_record) (some state)).0
        ≢ err TokenError.conflict)
      × ((transact_with_retry retries busy_turns (add_token token_record) (some state)).0
          ≢ err TokenError.busy))
    × (((transact_with_retry retries busy_turns (consume_token runtime claim 11) (some state)).0
          ≢ err TokenError.conflict)
        × ((transact_with_retry retries busy_turns (consume_token runtime claim 11) (some state)).0
            ≢ err TokenError.busy))
retries-settle_example =
    retries-settle runtime token_record claim 11 194 busy_turns (some state) (omega arith)
      (record { loading = λ store. refl; writing = λ store. refl; free = refl })
