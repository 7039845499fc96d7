-- ===== src/Policy/Paths.antt =====
-- The functions of node:path on POSIX that packages/policy-engine uses.
use dsh_backend_team.Base.{
  Bool, true, false, ◌||◌, List, [], ◌∷◌, ◌++◌, Text, codes, ◌==◌, filter, split_on, starts_with,
  if◌then◌else◌,
}
use mathlib.Core.List.{reverse}

abbrev last_or_empty : List Text → Text
last_or_empty [] = []
last_or_empty (s ∷ []) = s
last_or_empty (s ∷ t ∷ rest) = last_or_empty (t ∷ rest)

abbrev non_empty : Text → Bool
non_empty [] = false
non_empty (c ∷ s) = true

-- `basename`: the last part that is not empty
unfoldable pub basename : Text → Text
unfolding split_on
basename path = last_or_empty (filter non_empty (split_on b'/' path))

-- The last part of a path, which is empty behind a final slash
unfoldable pub last_part : Text → Text
unfolding split_on
last_part path = last_or_empty (split_on b'/' path)

abbrev pub is_absolute : Text → Bool
is_absolute path = starts_with (codes "/") path

abbrev up : List Text → List Text
up [] = []
up (s ∷ above) = above

-- The parts behind those read so far, which stand in reverse
unfoldable normal_parts : (above parts : List Text) → List Text
normal_parts above [] = reverse above
normal_parts above (s ∷ parts) =
    normal_parts
      (if s == [] || s == codes "." then above else if s == codes ".." then up above else s ∷ above)
      parts

-- The parts of the absolute path that `resolve` gives
unfoldable pub resolved_parts : (process_cwd base path : Text) → List Text
unfolding normal_parts split_on
resolved_parts process_cwd base path = normal_parts [] (
    split_on b'/' (
      if is_absolute path
      then path
      else if is_absolute base
      then base ++ codes "/" ++ path
      else process_cwd ++ codes "/" ++ base ++ codes "/" ++ path))

-- The path with these parts
abbrev pub absolute : List Text → Text
absolute [] = codes "/"
absolute (s ∷ []) = b'/' ∷ s
absolute (s ∷ t ∷ rest) = b'/' ∷ s ++ absolute (t ∷ rest)

-- `resolve(base, path)`
unfoldable pub resolve : (process_cwd base path : Text) → Text
unfolding resolved_parts
resolve process_cwd base path = absolute (resolved_parts process_cwd base path)

abbrev without_last : List Text → List Text
without_last [] = []
without_last (s ∷ []) = []
without_last (s ∷ t ∷ rest) = s ∷ without_last (t ∷ rest)

-- `dirname` of an absolute path
unfoldable pub dirname : Text → Text
unfolding split_on
dirname path = absolute (without_last (filter non_empty (split_on b'/' path)))
