-- ===== src/Team/Paths.antt =====
-- Paths of the workspace: `safePath`, `sensitivePath`, `isPathWithin` and `pathsOverlap` of
-- packages/agent-team/src/capability-intersection.ts, and `overlaps` of task-scheduler.ts. A path is
-- its UTF-16 code units; the regular expressions that ignore case also take U+017F for `s` and
-- U+212A for `k`.
use dsh_backend_team.Base.{
  ℕ, Bool, true, false, not, ◌&&◌, ◌||◌, List, [], ◌∷◌, ◌++◌, map, Text, codes, ◌==◌, starts_with,
  ends_with, lower, fold, any, all, drop, length, leb, nat_eq, text_member, if◌then◌else◌,
}

abbrev pub has_code : (ℕ → Bool) → Text → Bool
has_code p t = any p t

abbrev add_code : ℕ → List Text → List Text
add_code c [] = (c ∷ []) ∷ []
add_code c (s ∷ rest) = (c ∷ s) ∷ rest

-- `split('/')`
abbrev pub segments : Text → List Text
segments [] = [] ∷ []
segments (c ∷ cs) = let rest = segments cs in if nat_eq c 47 then [] ∷ rest else add_code c rest

abbrev is_control : ℕ → Bool
is_control c = leb c 31 || nat_eq c 127

abbrev is_letter : ℕ → Bool
is_letter c = leb 65 c && leb c 90 || leb 97 c && leb c 122

-- `/^[A-Za-z]:/`
abbrev has_drive : Text → Bool
has_drive (c ∷ d ∷ cs) = is_letter c && nat_eq d 58
has_drive _ = false

abbrev is_plain_segment : Text → Bool
is_plain_segment [] = false
is_plain_segment (c ∷ cs) = not (c ∷ cs == codes ".") && not (c ∷ cs == codes "..")

-- `safePath`
unfoldable pub safe_path : Text → Bool
safe_path path =
    not (path == [])
    && not (has_code is_control path)
    && not (starts_with (codes "/") path)
    && not (has_code (λ c. nat_eq c 92) path)
    && not (has_drive path)
    && all is_plain_segment (segments path)

abbrev is_mark : ℕ → Bool
is_mark c = nat_eq c 46 || nat_eq c 95 || nat_eq c 45

abbrev marked : Text → Bool
marked [] = true
marked (c ∷ cs) = is_mark c

abbrev secret_words : List Text
secret_words = map codes (
    "credential" ∷ "credentials" ∷ "token" ∷ "password" ∷ "secret" ∷ "privatekey" ∷ "private-key"
    ∷ "private_key" ∷ "id_rsa" ∷ "id_dsa" ∷ "id_ecdsa" ∷ "id_ed25519" ∷ [])

-- A secret word stands here, with its end at a mark or at the end.
abbrev word_here : Text → Bool
word_here t = any (λ w. starts_with w t && marked (drop (length w) t)) secret_words

-- `secretFileName`; the test says whether a word may start here.
abbrev has_secret_word : Bool → Text → Bool
has_secret_word may [] = false
has_secret_word may (c ∷ cs) =
    let rest = has_secret_word (is_mark c) cs in may && word_here (c ∷ cs) || rest

-- `/^\.env(?:$|rc$|[._].*)/iu`
abbrev is_env_rest : Text → Bool
is_env_rest [] = true
is_env_rest (c ∷ cs) = (c ∷ cs == codes "rc") || nat_eq c 46 || nat_eq c 95

abbrev is_env : Text → Bool
is_env t = starts_with (codes ".env") t && is_env_rest (drop 4 t)

abbrev secret_directories : List Text
secret_directories =
    map codes
      (".aws" ∷ ".gnupg" ∷ ".ssh" ∷ "credential" ∷ "credentials" ∷ "private" ∷ "secrets" ∷ [])

abbrev key_extensions : List Text
key_extensions = map codes (".key" ∷ ".pem" ∷ ".p12" ∷ ".pfx" ∷ [])

abbrev is_sensitive : Text → Bool
is_sensitive segment =
    let folded = map fold segment in
    is_env folded
    || folded == codes ".npmrc"
    || any (λ e. ends_with e folded) key_extensions
    || has_secret_word true folded
    || text_member (map lower segment) secret_directories

-- `sensitivePath`
unfoldable pub sensitive_path : Text → Bool
sensitive_path path = any is_sensitive (segments path)

-- `isSafeWorkspacePath`
abbrev pub is_safe_workspace_path : Text → Bool
is_safe_workspace_path path = safe_path path && not (sensitive_path path)

abbrev is_pattern : ℕ → Bool
is_pattern c = nat_eq c 42 || nat_eq c 63 || nat_eq c 91

-- `isPathWithin`; a scope that is empty is not safe and has been refused.
unfoldable pub is_path_within : Text → Text → Bool
is_path_within path scope =
    safe_path path
    && safe_path scope
    && not (sensitive_path path)
    && not (sensitive_path scope)
    && not (has_code is_pattern path)
    && (scope == path || starts_with (scope ++ codes "/") path)

-- `pathsOverlap`
unfoldable pub paths_overlap : Text → Text → Bool
paths_overlap left right =
    not (safe_path left)
    || not (safe_path right)
    || is_path_within left right
    || is_path_within right left

-- `overlaps` of the scheduler
unfoldable pub overlaps : Text → Text → Bool
overlaps left right =
    left == right || starts_with (right ++ codes "/") left || starts_with (left ++ codes "/") right
