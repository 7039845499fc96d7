-- ===== src/Policy/Engine.antt =====
-- `authorize` and `preflightOwnedWrite` of `DefaultPolicyEngine` in
-- packages/policy-engine/src/policy-engine.ts. The input has passed its schemas. The I/O behind a
-- verified file handle is not modelled.
use dsh_backend_team.Policy.Paths.{resolve, dirname}
use dsh_backend_team.Core.Phase.{Phase}
use dsh_backend_team.Base.{
  codes, ◌++◌, starts_with, ◌&&◌, false, true, ◌||◌, Bool, Option, none, some, Text, ◌==◌,
  if◌then◌else◌,
}
use dsh_backend_team.Base.Outcomes.{Outcome, ok, err}
use dsh_backend_team.Policy.Actions.{
  Effect, Command, PolicyAction, PolicyContext, PolicyDecision, RuleId, Host,
}
use dsh_backend_team.Policy.Targets.{Entry, FileSystem, PathError, canonicalize_target_path}
use dsh_backend_team.Policy.Rules.{denied, evaluate_rules}

pub record Prepared : Type 0 where
  pub action : PolicyAction
  pub context : PolicyContext
  pub canonical_target_path : Option Text

abbrev pub path_of : PolicyAction → Option Text
path_of (PolicyAction.read target) = some target
path_of (PolicyAction.write target) = some target
path_of (PolicyAction.delete target) = some target
path_of (PolicyAction.migration target) = some target
path_of (PolicyAction.shared_config target) = some target
path_of _ = none

-- The action with another target
abbrev pub with_target : Text → PolicyAction → PolicyAction
with_target target (PolicyAction.read old) = PolicyAction.read target
with_target target (PolicyAction.write old) = PolicyAction.write target
with_target target (PolicyAction.delete old) = PolicyAction.delete target
with_target target (PolicyAction.migration old) = PolicyAction.migration target
with_target target (PolicyAction.shared_config old) = PolicyAction.shared_config target
with_target target (PolicyAction.install packages) = PolicyAction.install packages
with_target target (PolicyAction.database url) = PolicyAction.database url
with_target target (PolicyAction.command c) = PolicyAction.command c

abbrev pub canonicalized : PolicyAction → PolicyContext → Outcome PathError Text → Option Prepared
canonicalized action context (err e) = none
canonicalized action context (ok target) = some (record {
  action = with_target target action;
  context = context;
  canonical_target_path = some target;
})

abbrev in_directory : Command → PolicyContext → Text → Outcome PathError Text → Option Prepared
in_directory c context cwd (err e) = none
in_directory c context cwd (ok canonical) =
    if canonical == cwd
    then some (record {
      action = PolicyAction.command (record c { cwd = cwd });
      context = context;
      canonical_target_path = none;
    })
    else none

module _ (host : Host) (fs : FileSystem) where
  abbrev command_in : Command → PolicyContext → Option Text → Option Prepared
  command_in c context none = none
  command_in c context (some cwd) =
      in_directory c context cwd (canonicalize_target_path host fs context.workspace_root cwd)

  abbrev prepared_path : PolicyAction → PolicyContext → Option Text → Option Prepared
  prepared_path action context none =
      some (record { action = action; context = context; canonical_target_path = none })
  prepared_path action context (some target) =
      canonicalized action context (canonicalize_target_path host fs context.workspace_root target)

  -- `normalize` once the context is canonical
  unfoldable pub prepared_in : PolicyAction → PolicyContext → Option Prepared
  prepared_in (PolicyAction.command c) context = command_in c context (fs.realpath c.cwd)
  prepared_in action context = prepared_path action context (path_of action)

  -- `normalize`
  unfoldable pub normalize : PolicyAction → PolicyContext → Option Prepared
  normalize action context = elim (fs.realpath context.workspace_root) [
    | none ↦ none
    | some root ↦ prepared_in action (record context { workspace_root = root })
  ]

  abbrev decided : Option Prepared → PolicyDecision
  decided none = denied RuleId.deny_invalid_contract
  decided (some p) = record (evaluate_rules host p.action p.context) {
    canonical_target_path = p.canonical_target_path;
  }

  -- `authorize`
  unfoldable pub authorize : PolicyAction → PolicyContext → PolicyDecision
  authorize action context = decided (normalize action context)

-- `OwnedWriteGrantVerifier`: the grant for a write, its canonical target and the phase
abbrev pub Verifier : Type 0
Verifier = PolicyAction → Text → Phase → Bool

-- `isOwnedWritePhase`
abbrev pub is_owned_write_phase : Phase → Bool
is_owned_write_phase Phase.build = true
is_owned_write_phase Phase.verify = true
is_owned_write_phase _ = false

abbrev pub is_deny_unknown : RuleId → Bool
is_deny_unknown RuleId.deny_unknown = true
is_deny_unknown _ = false

-- `denyHandle`
abbrev pub deny_handle : Option Text → PolicyDecision
deny_handle target = record (denied RuleId.deny_path_requires_handle) {
  canonical_target_path = target;
}

-- `denyOwnedWrite`
abbrev pub deny_owned_write : PolicyDecision → Text → PolicyDecision
deny_owned_write decision target = record decision {
  effect = Effect.deny;
  canonical_target_path = some target;
}

abbrev pub allow_owned_write : PolicyDecision → Text → PolicyDecision
allow_owned_write decision target = record decision {
  effect = Effect.allow;
  rule_id = RuleId.allow_owned_write;
  canonical_target_path = some target;
}

-- `isInside`
abbrev pub is_inside : (root target : Text) → Bool
is_inside root target = target == root || starts_with (root ++ codes "/") target

abbrev pub names : Option Text → Text → Bool
names none path = false
names (some real) path = real == path

abbrev pub exists : Entry → Bool
exists Entry.present = true
exists _ = false

module _ (host : Host) (fs : FileSystem) where
  -- `hasSafeExistingParent`
  unfoldable pub has_safe_existing_parent : (requested canonical workspace_root : Text) → Bool
  has_safe_existing_parent requested canonical workspace_root =
      let parent : Text = dirname canonical in
      let requested_parent : Text = dirname (resolve host.process_cwd workspace_root requested) in
      exists (fs.lstat parent)
      && fs.is_directory parent
      && names (fs.realpath parent) parent
      && is_inside workspace_root parent
      && names (fs.realpath requested_parent) requested_parent
      && requested_parent == parent

  abbrev pub verified : Option Verifier → Prepared → Text → Bool
  verified none p target = false
  verified (some verify) p target = verify p.action target p.context.phase

  -- The conditions of `preflightOwnedWrite` after the first
  unfoldable pub is_granted_write :
      Option Verifier → (requested : Text) → Prepared → PolicyDecision → Text → Bool
  unfolding has_safe_existing_parent
  is_granted_write verifier requested p decision target =
      is_deny_unknown decision.rule_id
      && is_owned_write_phase p.context.phase
      && has_safe_existing_parent requested target p.context.workspace_root
      && verified verifier p target

  abbrev pub granted_or_not : Bool → PolicyDecision → Text → PolicyDecision
  granted_or_not true decision target = allow_owned_write decision target
  granted_or_not false decision target = deny_owned_write decision target

  abbrev pub preflight_write :
      Option Verifier → (requested : Text) → Prepared → Option Text → PolicyDecision
  preflight_write verifier requested p none = deny_handle none
  preflight_write verifier requested p (some target) =
      granted_or_not
        (is_granted_write verifier requested p (evaluate_rules host p.action p.context) target)
        (evaluate_rules host p.action p.context) target

  abbrev pub preflight_prepared : Option Verifier → Prepared → PolicyAction → PolicyDecision
  preflight_prepared verifier p (PolicyAction.write requested) =
      preflight_write verifier requested p p.canonical_target_path
  preflight_prepared verifier p _ = deny_handle p.canonical_target_path

  abbrev pub preflight_normal : Option Verifier → PolicyAction → Option Prepared → PolicyDecision
  preflight_normal verifier action none = denied RuleId.deny_invalid_contract
  preflight_normal verifier action (some p) = preflight_prepared verifier p action

  -- `preflightOwnedWrite`; the prepared action is a write where the requested one is.
  unfoldable pub preflight_owned_write :
      Option Verifier → PolicyAction → PolicyContext → PolicyDecision
  unfolding normalize is_granted_write
  preflight_owned_write verifier action context =
      preflight_normal verifier action (normalize host fs action context)
