-- ===== src/Team/Scopes.antt =====
-- The paths that a delegation grants: `matchesPattern` and `intersectPaths` of
-- packages/agent-team/src/capability-intersection.ts.
use dsh_backend_team.Base.{
  starts_with, ends_with, All-map, ◌≡◌, ◌≤◌, ◌-◌, Bool, true, false, not, ◌&&◌, ◌||◌, List, [], ◌∷◌,
  Text, codes, ◌==◌, nat_eq, leb, ltb, length, any, filter, take, text_lt, sort, length-sort,
  if◌then◌else◌, arith, All, length-filter-le,
}
use dsh_backend_team.Team.Paths.{safe_path, is_path_within, has_code, segments}
use dsh_backend_team.Team.Capabilities.{items_of}

abbrev file_name_of : List Text → Text
file_name_of [] = []
file_name_of (s ∷ []) = s
file_name_of (s ∷ t ∷ rest) = file_name_of (t ∷ rest)

-- The word stands in the text with something before it and something after it.
abbrev has_inside : Text → Text → Bool
has_inside word [] = false
has_inside word (c ∷ cs) =
    let rest = has_inside word cs in starts_with word cs && ltb (length word) (length cs) || rest

-- `matchesPattern`; the two regular expressions ask for a word inside the last segment.
unfoldable pub matches_pattern : Text → Text → Bool
matches_pattern path pattern =
    if not (safe_path path) || pattern == []
    then false
    else if pattern == codes "**/*.test.*"
    then has_inside (codes ".test.") (file_name_of (segments path))
    else if pattern == codes "**/*.spec.*"
    then has_inside (codes ".spec.") (file_name_of (segments path))
    else if ends_with (codes "/**") pattern
    then is_path_within path (take (length pattern - 3) pattern)
    else if has_code (λ c. nat_eq c 42) pattern || has_code (λ c. nat_eq c 63) pattern
    then false
    else is_path_within path pattern

-- The three tests of the loop of `intersectPaths`, with `continue` for false
abbrev pub is_covered : (parent_paths allowed_patterns : List Text) → Text → Bool
is_covered parent_paths allowed_patterns path =
    safe_path path
    && any (λ scope. is_path_within path scope) parent_paths
    && (leb (length allowed_patterns) 0
        || any (λ pattern. matches_pattern path pattern) allowed_patterns)

-- `intersectPaths`
unfoldable pub intersect_paths :
    (parent_paths requested_paths allowed_patterns : List Text) → List Text
intersect_paths parent_paths requested_paths allowed_patterns =
    sort (λ a b. text_lt b a)
      (items_of (filter (is_covered parent_paths allowed_patterns) requested_paths))

length-items_of : (xs : List Text) → length (items_of xs) ≤ length xs
length-items_of [] = omega arith
length-items_of (x ∷ xs) =
    omega (arith, length-items_of xs, length-filter-le (λ y. not (y == x)) (items_of xs))

-- A filter that drops nothing has a test that every item passes.
filter-full :
    (p : Text → Bool) (xs : List Text) → length xs ≤ length (filter p xs) → All (λ x. p x ≡ true) xs
filter-full p [] h = tt
filter-full p (x ∷ xs) h = ground (arith, length-filter-le p xs, filter-full p xs)

-- What `DelegationGuard` concludes from the length of the result: where it is that of the request,
-- every requested path is safe, stands within a path of the parent and, where there are patterns,
-- matches one of them.
pub intersect_paths-full :
    (parent_paths requested_paths allowed_patterns : List Text)
    → length (intersect_paths parent_paths requested_paths allowed_patterns)
      ≡ length requested_paths
    → All
        (λ path.
          (safe_path path ≡ true)
          × (any (λ scope. is_path_within path scope) parent_paths ≡ true)
          × ((leb (length allowed_patterns) 0
                || any (λ pattern. matches_pattern path pattern) allowed_patterns)
              ≡ true))
        requested_paths
unfolding intersect_paths
intersect_paths-full parent_paths requested_paths allowed_patterns h =
    let covered = is_covered parent_paths allowed_patterns in
    let kept = filter covered requested_paths in
    All-map (λ path k. ground (arith, k)) requested_paths
      (filter-full covered requested_paths
        (omega (arith, h, length-sort (λ a b. text_lt b a) (items_of kept), length-items_of kept)))
