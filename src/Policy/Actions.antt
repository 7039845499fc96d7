-- ===== src/Policy/Actions.antt =====
-- The actions, contexts and decisions of packages/contracts/src/policy.ts, as they are once their
-- schemas have accepted them. Of the layout of the workspace there is the root alone. The reason
-- of a decision, a sentence for people, is left out.
use dsh_backend_team.Base.{Option, List, Text}
use dsh_backend_team.Core.Phase.{Phase}
use dsh_backend_team.Core.State.{ApprovalKind}

-- A command of the action `command`
pub record Command : Type 0 where
  pub executable : Text
  pub args : List Text
  pub cwd : Text
  pub env : List (Text × Text)
  pub execution_fingerprint : Text

pub data PolicyAction : Type 0 where
  read : (target_path : Text) → PolicyAction
  write : (target_path : Text) → PolicyAction
  delete : (target_path : Text) → PolicyAction
  install : (packages : List Text) → PolicyAction
  migration : (target_path : Text) → PolicyAction
  shared_config : (target_path : Text) → PolicyAction
  database : (connection_string : Text) → PolicyAction
  command : Command → PolicyAction

pub record PolicyContext : Type 0 where
  pub workspace_root : Text
  pub phase : Phase

pub data Effect : Type 0 where
  allow : Effect
  ask : Effect
  deny : Effect

pub data RuleId : Type 0 where
  deny_production_database : RuleId
  deny_non_loopback_service : RuleId
  deny_system_or_global_install : RuleId
  deny_destructive_git : RuleId
  deny_unowned_delete : RuleId
  require_install_approval : RuleId
  require_migration_approval : RuleId
  require_shared_config_approval : RuleId
  allow_known_read : RuleId
  deny_unknown : RuleId
  deny_invalid_contract : RuleId
  deny_path_requires_handle : RuleId
  allow_owned_write : RuleId

pub record PolicyDecision : Type 0 where
  pub effect : Effect
  pub rule_id : RuleId
  pub approval_kind : Option ApprovalKind
  pub canonical_target_path : Option Text

-- What the runtime gives: `new URL(..).hostname`, where it does not throw, and the directory of the
-- process, which `resolve` takes for a path that is not absolute.
pub record Host : Type 0 where
  pub hostname : Text → Option Text
  pub process_cwd : Text
