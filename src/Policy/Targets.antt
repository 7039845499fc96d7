-- ===== src/Policy/Targets.antt =====
-- `canonicalizeTargetPath` and `recheckAuthorizedTargetPath` of
-- packages/policy-engine/src/canonical-path.ts, on the paths that the file system has at the time
-- of the call. Messages of errors are left out.
use dsh_backend_team.Base.{
  ℕ, Bool, true, false, not, ◌&&◌, ◌||◌, Option, none, some, List, [], ◌∷◌, Text, codes, ◌==◌, any,
  nat_eq, split_on, if◌then◌else◌,
}
use mathlib.Core.List.{reverse}
use dsh_backend_team.Base.Outcomes.{Outcome, ok, err, ◌>>=◌, ◌>>◌, throw_if}
use dsh_backend_team.Policy.Actions.{Host}
use dsh_backend_team.Policy.Paths.{resolved_parts, resolve, absolute}

-- What `lstat` finds; any error but ENOENT is `failing`.
pub data Entry : Type 0 where
  present : Entry
  missing : Entry
  failing : Entry

-- `realpath` where it does not throw, `lstat`, and its `isDirectory`
pub record FileSystem : Type 0 where
  pub realpath : Text → Option Text
  pub lstat : Text → Entry
  pub is_directory : Text → Bool

-- `UnsafeTargetPathError`, and what the file system throws
pub data PathError : Type 0 where
  unsafe : PathError
  file_system : PathError

unfoldable pub real : FileSystem → Text → Outcome PathError Text
real fs path = elim (fs.realpath path) [ none ↦ err PathError.file_system | some r ↦ ok r ]

abbrev has_code : ℕ → Text → Bool
has_code d text = any (λ c. nat_eq c d) text

abbrev slashes : Text → Text
slashes [] = []
slashes (c ∷ s) = (if nat_eq c b'\\' then b'/' else c) ∷ slashes s

abbrev is_dots : Text → Bool
is_dots segment = segment == codes "." || segment == codes ".."

-- The test of `rejectAmbiguousSegments`
unfoldable pub is_ambiguous : Text → Bool
unfolding split_on
is_ambiguous target = any is_dots (split_on b'/' (slashes target))

-- `isValidatedBasename`
unfoldable pub is_validated_basename : Text → Bool
is_validated_basename segment =
    not (segment == [])
    && not (is_dots segment)
    && not (has_code 0 segment)
    && not (has_code b'/' segment)
    && not (has_code b'\\' segment)

abbrev pub parent_or_error :
    Entry
    → Bool
    → (path : Text) (missing_segments : List Text) → Outcome PathError (Text × List Text)
    → Outcome PathError (Text × List Text)
parent_or_error Entry.present valid path segments rest = ok (path, segments)
parent_or_error Entry.failing valid path segments rest = err PathError.file_system
parent_or_error Entry.missing false path segments rest = err PathError.unsafe
parent_or_error Entry.missing true path segments rest = rest

-- `nearestExistingParent` of the path with these parts, in reverse
unfoldable pub nearest_existing_parent :
    FileSystem → (above missing_segments : List Text) → Outcome PathError (Text × List Text)
unfolding is_validated_basename
nearest_existing_parent fs [] segments =
    parent_or_error (fs.lstat (codes "/")) false (codes "/") segments (err PathError.unsafe)
nearest_existing_parent fs (s ∷ above) segments =
    let rest = nearest_existing_parent fs above (s ∷ segments) in
    parent_or_error (fs.lstat (absolute (reverse (s ∷ above)))) (is_validated_basename s)
      (absolute (reverse (s ∷ above))) segments rest

-- The segments joined to the path, one after the other
unfoldable pub appended : Host → Text → List Text → Text
unfolding resolve
appended host path [] = path
appended host path (s ∷ segments) = appended host (resolve host.process_cwd path s) segments

-- `isWithin`, by the parts of the two paths: `relative` begins with `..` where parts of the root
-- are left.
unfoldable pub has_prefix : (root target : List Text) → Bool
has_prefix [] target = true
has_prefix (r ∷ root) [] = false
has_prefix (r ∷ root) (t ∷ target) = r == t && has_prefix root target

unfoldable pub is_within : Host → (root target : Text) → Bool
unfolding has_prefix resolved_parts
is_within host root target =
    has_prefix (resolved_parts host.process_cwd (codes "/") root)
      (resolved_parts host.process_cwd (codes "/") target)

-- `canonicalizeTargetPath`
unfoldable pub canonicalize_target_path :
    Host → FileSystem → (workspace_root target_path : Text) → Outcome PathError Text
unfolding real is_ambiguous nearest_existing_parent appended is_within resolved_parts
canonicalize_target_path host fs workspace_root target_path = do
  throw_if (has_code 0 workspace_root || has_code 0 target_path) PathError.unsafe
  throw_if (target_path == []) PathError.unsafe
  throw_if (is_ambiguous target_path) PathError.unsafe
  root ← real fs workspace_root
  nearest ←
      nearest_existing_parent fs (reverse (resolved_parts host.process_cwd root target_path)) []
  parent ← real fs nearest.0
  throw_if (not (is_within host root (appended host parent nearest.1))) PathError.unsafe
  ok (appended host parent nearest.1)

-- `recheckAuthorizedTargetPath`
unfoldable pub recheck_authorized_target_path :
    Host → FileSystem → (workspace_root requested canonical : Text) → Outcome PathError (Unit {0})
unfolding canonicalize_target_path
recheck_authorized_target_path host fs workspace_root requested canonical = do
  current ← canonicalize_target_path host fs workspace_root requested
  throw_if (not (current == canonical)) PathError.unsafe
