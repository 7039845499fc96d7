-- ===== src/Policy/Tests.antt =====
-- Decisions at concrete commands, and the theorems on the rules there.
use dsh_backend_team.Policy.Commands.{
  service_hosts, is_loopback_url, is_loopback_host, is_host_flag,
}
use dsh_backend_team.Base.{
  map, is_space, includes, split_on, starts_with, Option, ◌≡◌, refl, true, false, some, none, List,
  [], ◌∷◌, Text, codes, ◌==◌, is_some,
}
use dsh_backend_team.Core.Phase.{Phase}
use dsh_backend_team.Core.State.{ApprovalKind}
use dsh_backend_team.Policy.Actions.{
  Command, PolicyAction, PolicyContext, PolicyDecision, Effect, Host,
}
use dsh_backend_team.Policy.Paths.{last_part, resolve, basename}
use dsh_backend_team.Policy.Rules.GlobalOptions.{GlobalOptions}
use dsh_backend_team.Policy.Rules.Losses.{LosesWork}
use dsh_backend_team.Policy.Targets.{
  FileSystem, Entry, canonicalize_target_path, is_ambiguous, nearest_existing_parent, appended,
  is_within, has_prefix, real, is_validated_basename,
}
use dsh_backend_team.Policy.Engine.{
  Verifier, preflight_owned_write, normalize, prepared_in, is_granted_write,
  has_safe_existing_parent,
}
use dsh_backend_team.Policy.Grants.{IsGranted, preflight_owned_write-IsGranted}
use dsh_backend_team.Policy.Paths.{dirname, resolved_parts}
use dsh_backend_team.Base.Outcomes.{◌>>=◌, ◌>>◌, throw_if}
use dsh_backend_team.Policy.Installs.{
  is_outside_or_system_prefix, is_global_install_flag, has_forbidden_global_install,
  has_unsafe_database_target,
}
use dsh_backend_team.Policy.Rules.{
  deny_destructive_git, deny_unowned_delete, is_generic_delete_command, require_install_approval,
  is_install_command, require_migration_approval, is_migration_command,
  require_shared_config_approval, is_shared_config_target, is_install_target, is_migration_target,
  allow_known_read, deny_system_or_global_install, deny_non_loopback_service,
  deny_production_database, evaluate_rules,
}
use dsh_backend_team.Policy.Rules.Decisions.{is_allow, is_ask, evaluate_rules-allow}
use dsh_backend_team.Policy.Rules.Screening.{is_deny, evaluate_rules-git, evaluate_rules-host}

-- Hosts that read every URL as the same name
abbrev host : Host
host = record { hostname = λ url. some (codes "127.0.0.1"); process_cwd = codes "/w" }

abbrev strange_host : Host
strange_host = record { hostname = λ url. some (codes "db.example"); process_cwd = codes "/w" }

abbrev context : PolicyContext
context = record { workspace_root = codes "/w"; phase = Phase.build }

abbrev with_args : Text → List Text → Command
with_args executable args = record {
  executable = executable;
  args = args;
  cwd = codes "/w/a";
  env = [];
  execution_fingerprint = codes "f";
}

abbrev reset : Command
reset =
    with_args (codes "/usr/bin/git")
      (codes "-C" ∷ codes "push" ∷ codes "--no-pager" ∷ codes "reset" ∷ codes "--hard" ∷ [])

abbrev serve : Command
serve = with_args (codes "/usr/bin/node") (codes "a.js" ∷ codes "--host" ∷ codes "0.0.0.0" ∷ [])

evaluate_rules-git_example :
    is_deny (evaluate_rules host (PolicyAction.command reset) context).effect ≡ true
unfolding basename ◌==◌
evaluate_rules-git_example =
    evaluate_rules-git host context reset (codes "reset") (codes "--hard" ∷ []) refl refl
      (GlobalOptions.valued (codes "-C") (codes "push") _ refl
        (GlobalOptions.plain (codes "--no-pager") [] refl GlobalOptions.nothing))
      (LosesWork.hard_reset _ refl)

evaluate_rules-host_example :
    is_deny (evaluate_rules host (PolicyAction.command serve) context).effect ≡ true
unfolding ◌==◌ is_host_flag is_loopback_host starts_with
evaluate_rules-host_example =
    evaluate_rules-host host context serve (codes "a.js" ∷ []) [] (codes "--host") (codes "0.0.0.0")
      refl refl refl

evaluate_rules-allow_example :
    (is_allow (evaluate_rules host (PolicyAction.command serve) context).effect ≡ false)
    × (is_some (evaluate_rules host (PolicyAction.command serve) context).approval_kind
        ≡ is_ask (evaluate_rules host (PolicyAction.command serve) context).effect)
evaluate_rules-allow_example = evaluate_rules-allow host context (PolicyAction.command serve)

abbrev decided : Text → List Text → Effect × Option ApprovalKind
decided executable args =
    let d : PolicyDecision =
      evaluate_rules host (PolicyAction.command (with_args executable args)) context in
    (d.effect, d.approval_kind)

-- A prefix in the workspace is no global installation, and one above it is. A flag of a service
-- may name a loopback address, and the command is unknown all the same.
decisions :
    map
      (λ (c : Text × List Text). decided c.0 c.1)
      ((codes "/usr/bin/npm", codes "install" ∷ codes "zod" ∷ [])
        ∷ (codes "npm", codes "i" ∷ codes "--prefix" ∷ codes "../b" ∷ [])
        ∷ (codes "npm", codes "i" ∷ codes "--prefix" ∷ codes "../../b" ∷ [])
        ∷ (codes "npx", codes "drizzle-kit" ∷ codes "push" ∷ [])
        ∷ (codes "node", codes "a.js" ∷ codes "--host=127.0.0.1" ∷ [])
        ∷ [])
    ≡ (Effect.ask, some ApprovalKind.install)
      ∷ (Effect.ask, some ApprovalKind.install)
      ∷ (Effect.deny, none)
      ∷ (Effect.ask, some ApprovalKind.migration)
      ∷ (Effect.deny, none)
      ∷ []
unfolding evaluate_rules deny_production_database has_unsafe_database_target starts_with includes
    deny_non_loopback_service service_hosts is_loopback_host ◌==◌ deny_system_or_global_install
    basename has_forbidden_global_install is_global_install_flag is_outside_or_system_prefix resolve
    deny_destructive_git deny_unowned_delete is_generic_delete_command require_install_approval
    is_install_command require_migration_approval is_migration_command
    require_shared_config_approval is_shared_config_target allow_known_read last_part split_on
decisions = refl

remote_database :
    has_unsafe_database_target strange_host (codes "a JDBC:postgresql://db.example/x b") ≡ true
unfolding is_space has_unsafe_database_target starts_with is_loopback_host is_loopback_url ◌==◌
    split_on
remote_database = refl

-- A file system with no links, where every path is a directory
abbrev plain_fs : FileSystem
plain_fs = record {
  realpath = λ path. some path;
  lstat = λ path. Entry.present;
  is_directory = λ path. true;
}

abbrev source_file : PolicyAction
source_file = PolicyAction.write (codes "src/a.ts")

abbrev yes_to_all : Option Verifier
yes_to_all = some (λ action target phase. true)

preflight_run :
    is_allow (preflight_owned_write host plain_fs yes_to_all source_file context).effect ≡ true
unfolding preflight_owned_write normalize prepared_in canonicalize_target_path is_ambiguous
    nearest_existing_parent appended is_within has_prefix real is_validated_basename resolved_parts
    resolve is_granted_write has_safe_existing_parent dirname ◌>>=◌ ◌>>◌ throw_if ◌==◌ split_on
    starts_with evaluate_rules deny_production_database deny_non_loopback_service
    deny_system_or_global_install deny_destructive_git deny_unowned_delete require_install_approval
    is_install_target require_migration_approval is_migration_target require_shared_config_approval
    is_shared_config_target allow_known_read last_part
preflight_run = refl

preflight_example :
    IsGranted host plain_fs yes_to_all source_file context
      (preflight_owned_write host plain_fs yes_to_all source_file context)
preflight_example =
    preflight_owned_write-IsGranted host plain_fs yes_to_all source_file context preflight_run
