-- ===== src/Policy/Rules/Screening.antt =====
-- Commands that the rules of packages/policy-engine/src/rules.ts deny, described by their arguments.
use mathlib.Core.Path.{subst}
use mathlib.Core.Option.{some-injective}
use dsh_backend_team.Base.{
  any_behind, any_before, All, ==_iff, ◌≡◌, refl, sym, ap, ◌∙◌, Bool, true, false, not, ◌||◌,
  Option, none, some, List, [], ◌∷◌, ◌++◌, Text, codes, ◌==◌, any, arith, any-append,
}
use dsh_backend_team.Policy.Actions.{
  Command, PolicyAction, PolicyContext, Effect, PolicyDecision, Host, RuleId,
}
use dsh_backend_team.Policy.Commands.{
  flag_values, next_value, is_host_flag, command_name, is_loopback_host, service_hosts,
  hosts_of_args, hosts_of_env, host_flags,
}
use dsh_backend_team.Policy.Git.{is_destructive_git}
use dsh_backend_team.Policy.Rules.GlobalOptions.{GlobalOptions}
use dsh_backend_team.Policy.Rules.Losses.{LosesWork, is_destructive_git-LosesWork}
use dsh_backend_team.Policy.Rules.{
  when, first_decision, evaluate_rules, denied, deny_production_database, deny_non_loopback_service,
  deny_system_or_global_install, deny_destructive_git, deny_unowned_delete,
  require_install_approval, require_migration_approval, require_shared_config_approval,
  allow_known_read,
}
use dsh_backend_team.Policy.Rules.Decisions.{Given, when-Given}

abbrev pub is_deny : Effect → Bool
is_deny Effect.deny = true
is_deny Effect.allow = false
is_deny Effect.ask = false

abbrev IsDenied : PolicyDecision → Type 0
IsDenied d = is_deny d.effect ≡ true

-- The rules before one that denies deny, if they decide.
denied_by :
    (before : List (Option PolicyDecision)) (o : Option PolicyDecision)
    (rest : List (Option PolicyDecision)) (rule : RuleId)
    → All (Given IsDenied) before
    → o ≡ some (denied rule)
    → IsDenied (first_decision (before ++ o ∷ rest))
denied_by [] none rest rule h e = absurd (ground arith)
denied_by [] (some d) rest rule h e = ap (λ d. is_deny d.effect) (some-injective d (denied rule) e)
denied_by (none ∷ before) o rest rule h e = denied_by before o rest rule h.1 e
denied_by (some d ∷ before) o rest rule h e = h.0

any-next_value :
    (p : Text → Bool) (after : List Text) (flag name : Text)
    → is_host_flag flag ≡ true
    → p name ≡ true
    → any p (next_value flag (name ∷ after)) ≡ true
unfolding next_value
any-next_value p after flag name f h = rw f (ground (arith, h))

-- A host behind a flag is among those of the arguments.
any-hosts_of_args :
    (p : Text → Bool) (before after : List Text) (flag name : Text)
    → is_host_flag flag ≡ true
    → p name ≡ true
    → any p (hosts_of_args (before ++ flag ∷ name ∷ after)) ≡ true
unfolding hosts_of_args
any-hosts_of_args p [] after flag name f h =
    any_before p (next_value flag (name ∷ after))
      (flag_values host_flags flag ++ hosts_of_args (name ∷ after))
      (any-next_value p after flag name f h)
any-hosts_of_args p (argument ∷ before) after flag name f h =
    let rest = before ++ flag ∷ name ∷ after in
    any_behind p (next_value argument rest) _ (
      any_behind p (flag_values host_flags argument) _
        (any-hosts_of_args p before after flag name f h))

module _ (host : Host) (context : PolicyContext) (c : Command) where
  abbrev action : PolicyAction
  action = PolicyAction.command c

  production_database-IsDenied : Given IsDenied (deny_production_database host action)
  unfolding deny_production_database
  production_database-IsDenied = when-Given IsDenied _ (denied RuleId.deny_production_database) refl

  non_loopback_service-IsDenied : Given IsDenied (deny_non_loopback_service action)
  unfolding deny_non_loopback_service
  non_loopback_service-IsDenied =
      when-Given IsDenied _ (denied RuleId.deny_non_loopback_service) refl

  global_install-IsDenied : Given IsDenied (deny_system_or_global_install host action context)
  unfolding deny_system_or_global_install
  global_install-IsDenied = when-Given IsDenied _ (denied RuleId.deny_system_or_global_install) refl

  abbrev rules_behind_git : List (Option PolicyDecision)
  rules_behind_git =
      deny_unowned_delete action
      ∷ require_install_approval action
      ∷ require_migration_approval action
      ∷ require_shared_config_approval action
      ∷ allow_known_read action
      ∷ []

  denied_as_git :
      command_name c ≡ codes "git"
      → is_destructive_git c.args ≡ true
      → deny_destructive_git action ≡ some (denied RuleId.deny_destructive_git)
  unfolding deny_destructive_git
  denied_as_git name h =
      let git : (command_name c == codes "git") ≡ true =
        (==_iff (command_name c) (codes "git")).1 name in
      ground (arith, git, h)

  denied_as_service :
      (before after : List Text) (flag name : Text)
      → c.args ≡ before ++ flag ∷ name ∷ after
      → is_host_flag flag ≡ true
      → is_loopback_host name ≡ false
      → deny_non_loopback_service action ≡ some (denied RuleId.deny_non_loopback_service)
  unfolding deny_non_loopback_service service_hosts
  denied_as_service before after flag name args f h =
      let p : Text → Bool = λ x. not (is_loopback_host x) in
      let found : any p (hosts_of_args c.args) ≡ true =
        subst (λ a. any p (hosts_of_args a) ≡ true) (sym args)
          (any-hosts_of_args p before after flag name f (ground (arith, h))) in
      let all_found : any p (hosts_of_args c.args ++ hosts_of_env c.env) ≡ true =
        any-append p (hosts_of_args c.args) (hosts_of_env c.env)
        ∙ ap (λ b. b || any p (hosts_of_env c.env)) found in
      ap (λ b. when b (denied RuleId.deny_non_loopback_service)) all_found

  -- A Git command that loses work is denied where nothing stands before the subcommand but the
  -- options -C, -c, --git-dir and --work-tree, each with its value, the options -p, --paginate, -P,
  -- --no-pager, --bare, --no-replace-objects, --no-lazy-fetch, --no-optional-locks, --no-advice and
  -- the four --literal-, --glob-, --noglob- and --icase-pathspecs, and --git-dir=, --work-tree=,
  -- --namespace=, --exec-path= and --config-env= with anything behind it. Lost is work by a
  -- reset --hard; a clean with --force or with an f among the letters of a short option; a checkout
  -- with ., --, -f or --force; a restore with anything that is no option; a push with --force, -f,
  -- or anything that begins with +, --force= or --force-; a branch with -D, -d or --delete; a
  -- worktree remove with --force or -f; a tag with -d or --delete; a stash clear or drop.
  pub evaluate_rules-git :
      {options : List Text} (subcommand : Text) (rest : List Text)
      → command_name c ≡ codes "git"
      → c.args ≡ options ++ subcommand ∷ rest
      → GlobalOptions options
      → LosesWork subcommand rest
      → is_deny (evaluate_rules host (PolicyAction.command c) context).effect ≡ true
  unfolding evaluate_rules
  evaluate_rules-git {options} subcommand rest name args g w =
      denied_by
        (deny_production_database host action
          ∷ deny_non_loopback_service action
          ∷ deny_system_or_global_install host action context
          ∷ [])
        (deny_destructive_git action) rules_behind_git RuleId.deny_destructive_git
        (
          production_database-IsDenied,
          (non_loopback_service-IsDenied, (global_install-IsDenied, tt)),
        )
        (denied_as_git name (
          subst (λ a. is_destructive_git a ≡ true) (sym args)
            (is_destructive_git-LosesWork subcommand rest g w)))

  -- A command that names a host which is not a loopback address behind a flag such as `--host`,
  -- anywhere among its arguments, is denied.
  pub evaluate_rules-host :
      (before after : List Text) (flag name : Text)
      → c.args ≡ before ++ flag ∷ name ∷ after
      → is_host_flag flag ≡ true
      → is_loopback_host name ≡ false
      → is_deny (evaluate_rules host (PolicyAction.command c) context).effect ≡ true
  unfolding evaluate_rules
  evaluate_rules-host before after flag name args f h =
      denied_by (deny_production_database host action ∷ []) (deny_non_loopback_service action)
        (deny_system_or_global_install host action context
          ∷ deny_destructive_git action
          ∷ rules_behind_git)
        RuleId.deny_non_loopback_service (production_database-IsDenied, tt)
        (denied_as_service before after flag name args f h)
