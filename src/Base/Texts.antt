-- ===== src/Base/Texts.antt =====
-- More methods of JavaScript strings: ends, parts, and the letters in lower case.
use Prim.Native.Nat.{ℕ, ◌+◌}
use mathlib.Core.Bool.{Bool, true, false, ◌&&◌, ◌||◌}
use mathlib.Core.List.{List, [], ◌∷◌}
use dsh_backend_team.Base.Tests.{leb, nat_eq, if◌then◌else◌}
use dsh_backend_team.Base.Strings.{Text, ◌==◌}

-- `t.endsWith(suffix)`
abbrev pub ends_with : Text → Text → Bool
ends_with suffix [] = suffix == []
ends_with suffix (c ∷ cs) = let rest = ends_with suffix cs in suffix == (c ∷ cs) || rest

abbrev pub add_code : Bool → ℕ → List Text → List Text
add_code true c parts = [] ∷ parts
add_code false c [] = (c ∷ []) ∷ []
add_code false c (p ∷ parts) = (c ∷ p) ∷ parts

-- `t.split(d)` for a separator of one code unit
unfoldable pub split_on : ℕ → Text → List Text
split_on d [] = [] ∷ []
split_on d (c ∷ s) = add_code (nat_eq c d) c (split_on d s)

-- The lower case of a letter of ASCII
abbrev pub lower : ℕ → ℕ
lower c = if leb 65 c && leb c 90 then c + 32 else c

-- The case folding of a regular expression with the flags `iu`, where it meets ASCII
abbrev pub fold : ℕ → ℕ
fold c = if nat_eq c 383 then 115 else if nat_eq c 8490 then 107 else lower c
