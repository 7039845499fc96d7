-- ===== src/Policy/Tokens/Digests.antt =====
-- The digest of an action of packages/policy-engine/src/approval-token.ts. A path has the same
-- canonical form all through a call.
use dsh_backend_team.Base.{ℕ, not, Option, none, some, List, Text, ◌==◌}
use dsh_backend_team.Base.Outcomes.{Outcome, ok, ◌>>=◌, ◌>>◌, throw_if}
use dsh_backend_team.Policy.Actions.{Command, PolicyAction, Host}
use dsh_backend_team.Policy.Paths.{is_absolute}
use dsh_backend_team.Policy.Targets.{FileSystem, PathError, real, canonicalize_target_path}
use dsh_backend_team.Policy.Engine.{path_of, with_target}

-- The action that is digested, and for a command the digest of its executable
abbrev pub NormalizedAction : Type 0
NormalizedAction = PolicyAction × Option (List ℕ)

-- What the runtime gives: paths, SHA-256 of bytes and of a value in canonical form, and the digest of
-- an executable that is a regular file and stays the same while it is read.
pub record Runtime : Type 0 where
  pub host : Host
  pub fs : FileSystem
  pub sha256 : List ℕ → List ℕ
  pub sha256_canonical : NormalizedAction → List ℕ
  pub executable_digest : Text → Outcome PathError (List ℕ)

module _ (runtime : Runtime) where
  -- `commandExecutionEvidence`, of which the digest of the action has three parts
  unfoldable pub normalized_command : Text → Command → Outcome PathError NormalizedAction
  normalized_command root c = do
    throw_if (not (is_absolute c.executable)) PathError.unsafe
    executable ← real runtime.fs c.executable
    cwd ← real runtime.fs c.cwd
    canonical ← canonicalize_target_path runtime.host runtime.fs root cwd
    throw_if (not (canonical == cwd)) PathError.unsafe
    content ← runtime.executable_digest executable
    ok (PolicyAction.command (record c { executable = executable; cwd = cwd }), some content)

  abbrev normalized_path : Text → PolicyAction → Option Text → Outcome PathError NormalizedAction
  normalized_path root action none = ok (action, none)
  normalized_path root action (some target) = do
    canonical ← canonicalize_target_path runtime.host runtime.fs root target
    ok (with_target canonical action, none)

  -- `normalizedAction`
  unfoldable pub normalized_action : Text → PolicyAction → Outcome PathError NormalizedAction
  unfolding normalized_command
  normalized_action root (PolicyAction.command c) = normalized_command root c
  normalized_action root action = normalized_path root action (path_of action)

  -- `canonicalActionDigest`
  unfoldable pub canonical_action_digest : Text → PolicyAction → Outcome PathError (List ℕ)
  unfolding normalized_action
  canonical_action_digest root action = do
    normalized ← normalized_action root action
    ok (runtime.sha256_canonical normalized)
