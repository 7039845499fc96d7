-- ===== src/Policy/Rules.antt =====
-- `evaluateRules` of packages/policy-engine/src/rules.ts: the first rule that decides. The two rules
-- that never decide are left out.
pub mod Decisions
pub mod GlobalOptions
pub mod Losses
pub mod Screening
use dsh_backend_team.Base.{
  ℕ, ◌-◌, Bool, true, false, not, ◌&&◌, ◌||◌, Option, none, some, List, [], ◌∷◌, ◌++◌, map, Text,
  codes, ◌==◌, any, drop, length, leb, text_member, starts_with, ends_with, includes, split_on,
  if◌then◌else◌,
}
use dsh_backend_team.Core.State.{ApprovalKind}
use dsh_backend_team.Policy.Actions.{
  Command, PolicyAction, PolicyContext, Effect, RuleId, PolicyDecision, Host,
}
use dsh_backend_team.Policy.Paths.{last_part}
use dsh_backend_team.Policy.Commands.{
  command_name, is_loopback_host, is_loopback_url, service_hosts,
}
use dsh_backend_team.Policy.Git.{is_destructive_git, is_recursive_delete_flag}
use dsh_backend_team.Policy.Installs.{
  is_global_install_flag, has_forbidden_global_install, has_unsafe_database_target,
}

abbrev pub denied : RuleId → PolicyDecision
denied rule = record {
  effect = Effect.deny;
  rule_id = rule;
  approval_kind = none;
  canonical_target_path = none;
}

abbrev pub asked : RuleId → ApprovalKind → PolicyDecision
asked rule kind = record {
  effect = Effect.ask;
  rule_id = rule;
  approval_kind = some kind;
  canonical_target_path = none;
}

abbrev pub allowed : RuleId → PolicyDecision
allowed rule = record {
  effect = Effect.allow;
  rule_id = rule;
  approval_kind = none;
  canonical_target_path = none;
}

abbrev pub when : Bool → PolicyDecision → Option PolicyDecision
when true decision = some decision
when false decision = none

abbrev values_of : List (Text × Text) → List Text
values_of [] = []
values_of ((key, value) ∷ env) = value ∷ values_of env

-- `denyProductionDatabase`
unfoldable pub deny_production_database : Host → PolicyAction → Option PolicyDecision
deny_production_database host (PolicyAction.database url) =
    when (not (is_loopback_url host url)) (denied RuleId.deny_production_database)
deny_production_database host (PolicyAction.command c) =
    when (any (has_unsafe_database_target host) (c.args ++ values_of c.env))
      (denied RuleId.deny_production_database)
deny_production_database host _ = none

-- `denyNonLoopbackService`
unfoldable pub deny_non_loopback_service : PolicyAction → Option PolicyDecision
deny_non_loopback_service (PolicyAction.command c) =
    when (any (λ host. not (is_loopback_host host)) (service_hosts c))
      (denied RuleId.deny_non_loopback_service)
deny_non_loopback_service _ = none

-- `PRIVILEGE_WRAPPERS`, `SHELL_WRAPPERS` and the wrappers that the rule names
abbrev pub wrappers : List Text
wrappers = map codes (
    "sudo" ∷ "su" ∷ "doas" ∷ "pkexec" ∷ "sh" ∷ "bash" ∷ "zsh" ∷ "fish" ∷ "cmd" ∷ "powershell"
    ∷ "pwsh" ∷ "env" ∷ "command" ∷ "xargs" ∷ "nohup" ∷ [])

-- `SYSTEM_INSTALLERS`
abbrev pub system_installers : List Text
system_installers = map codes ("brew" ∷ "apt" ∷ "apt-get" ∷ "yum" ∷ "dnf" ∷ "pacman" ∷ [])

-- `NODE_INSTALLERS`
abbrev node_installers : List Text
node_installers = map codes ("npm" ∷ "pnpm" ∷ "yarn" ∷ "bun" ∷ [])

abbrev first_is_global : List Text → Bool
first_is_global [] = false
first_is_global (argument ∷ args) = argument == codes "global"

-- `denySystemOrGlobalInstall`
unfoldable pub deny_system_or_global_install :
    Host → PolicyAction → PolicyContext → Option PolicyDecision
deny_system_or_global_install host (PolicyAction.install packages) context =
    when (any is_global_install_flag packages) (denied RuleId.deny_system_or_global_install)
deny_system_or_global_install host (PolicyAction.command c) context =
    when
      (text_member (command_name c) wrappers
        || text_member (command_name c) system_installers
        || has_forbidden_global_install host context.workspace_root c
        || command_name c == codes "yarn" && first_is_global c.args)
      (denied RuleId.deny_system_or_global_install)
deny_system_or_global_install host _ context = none

-- `denyDestructiveGit`
unfoldable pub deny_destructive_git : PolicyAction → Option PolicyDecision
deny_destructive_git (PolicyAction.command c) =
    when
      (command_name c == codes "rm" && any is_recursive_delete_flag c.args
        || command_name c == codes "git" && is_destructive_git c.args)
      (denied RuleId.deny_destructive_git)
deny_destructive_git _ = none

-- `isGenericDeleteCommand`
unfoldable pub is_generic_delete_command : Command → Bool
is_generic_delete_command c =
    text_member (command_name c) (map codes ("rm" ∷ "unlink" ∷ "rmdir" ∷ []))
    || command_name c == codes "find"
      && any (λ a. text_member a (map codes ("-delete" ∷ "-exec" ∷ "-execdir" ∷ []))) c.args

-- `denyUnownedDelete`
unfoldable pub deny_unowned_delete : PolicyAction → Option PolicyDecision
deny_unowned_delete (PolicyAction.delete target) = some (denied RuleId.deny_unowned_delete)
deny_unowned_delete (PolicyAction.command c) =
    when (is_generic_delete_command c) (denied RuleId.deny_unowned_delete)
deny_unowned_delete _ = none

-- `pathTarget`, of which a read has none
abbrev pub path_target : PolicyAction → Option Text
path_target (PolicyAction.write target) = some target
path_target (PolicyAction.delete target) = some target
path_target (PolicyAction.migration target) = some target
path_target (PolicyAction.shared_config target) = some target
path_target _ = none

abbrev target_passes : (Text → Bool) → PolicyAction → Bool
target_passes test action = elim (path_target action) [ none ↦ false | some target ↦ test target ]

abbrev has_part : List Text → Text → Bool
has_part words target = any (λ part. text_member part words) (split_on b'/' target)

-- The regular expression of `isInstallPath`
unfoldable pub is_install_target : Text → Bool
unfolding split_on
is_install_target target =
    has_part (codes "node_modules" ∷ []) target
    || text_member (last_part target) (
        map codes
          ("package-lock.json" ∷ "pnpm-lock.yaml" ∷ "yarn.lock" ∷ "bun.lock" ∷ "bun.lockb" ∷ []))

-- The regular expression of `isMigrationPath`
unfoldable pub is_migration_target : Text → Bool
unfolding split_on
is_migration_target target =
    has_part (map codes ("migration" ∷ "migrations" ∷ "drizzle" ∷ [])) target
    || ends_with (codes ".sql") target

-- `(?:\.[^/]+)?\.json`
abbrev is_json_end : Text → Bool
is_json_end s =
    s == codes ".json"
    || starts_with (codes ".") s && ends_with (codes ".json") s && leb 7 (length s)

-- The regular expression of `isSharedConfigPath` and `isSharedConfigCommand`
unfoldable pub is_shared_config_target : Text → Bool
is_shared_config_target target =
    last_part target == codes "package.json"
    || starts_with (codes "tsconfig") (last_part target) && is_json_end (drop 8 (last_part target))
    || any
        (λ stem.
          starts_with stem (last_part target) && leb (length stem) (length (last_part target) - 1))
        (map codes ("eslint.config." ∷ "vite.config." ∷ "vitest.config." ∷ []))

-- `isInstallCommand`
unfoldable pub is_install_command : Command → Bool
is_install_command c =
    text_member (command_name c) node_installers
    && any (λ a. text_member a (map codes ("install" ∷ "add" ∷ "i" ∷ []))) c.args

-- `isMigrationCommand`
unfoldable pub is_migration_command : Command → Bool
is_migration_command c =
    any (λ a. includes a (codes "migrat") || includes a (codes "drizzle")) c.args

abbrev if_command : (Command → Bool) → PolicyAction → Bool
if_command test (PolicyAction.command c) = test c
if_command test _ = false

abbrev is_install : PolicyAction → Bool
is_install (PolicyAction.install packages) = true
is_install _ = false

abbrev is_migration : PolicyAction → Bool
is_migration (PolicyAction.migration target) = true
is_migration _ = false

abbrev is_shared_config : PolicyAction → Bool
is_shared_config (PolicyAction.shared_config target) = true
is_shared_config _ = false

-- `requireInstallApproval`
unfoldable pub require_install_approval : PolicyAction → Option PolicyDecision
require_install_approval action =
    when
      (is_install action
        || if_command is_install_command action
        || target_passes is_install_target action)
      (asked RuleId.require_install_approval ApprovalKind.install)

-- `requireMigrationApproval`
unfoldable pub require_migration_approval : PolicyAction → Option PolicyDecision
require_migration_approval action =
    when
      (is_migration action
        || target_passes is_migration_target action
        || if_command is_migration_command action)
      (asked RuleId.require_migration_approval ApprovalKind.migration)

-- `requireSharedConfigApproval`
unfoldable pub require_shared_config_approval : PolicyAction → Option PolicyDecision
require_shared_config_approval action =
    when
      (is_shared_config action
        || target_passes is_shared_config_target action
        || if_command (λ c. any is_shared_config_target c.args) action)
      (asked RuleId.require_shared_config_approval ApprovalKind.shared_config)

-- `allowKnownRead`
unfoldable pub allow_known_read : PolicyAction → Option PolicyDecision
allow_known_read (PolicyAction.read target) = some (allowed RuleId.allow_known_read)
allow_known_read _ = none

-- `RULES`, each at the action and the context
abbrev pub rules : Host → PolicyAction → PolicyContext → List (Option PolicyDecision)
rules host action context =
    deny_production_database host action
    ∷ deny_non_loopback_service action
    ∷ deny_system_or_global_install host action context
    ∷ deny_destructive_git action
    ∷ deny_unowned_delete action
    ∷ require_install_approval action
    ∷ require_migration_approval action
    ∷ require_shared_config_approval action
    ∷ allow_known_read action
    ∷ []

abbrev pub first_decision : List (Option PolicyDecision) → PolicyDecision
first_decision [] = denied RuleId.deny_unknown
first_decision (none ∷ rest) = first_decision rest
first_decision (some decision ∷ rest) = decision

-- `evaluateRules`
unfoldable pub evaluate_rules : Host → PolicyAction → PolicyContext → PolicyDecision
evaluate_rules host action context = first_decision (rules host action context)
