-- ===== src/Base/Strings.antt =====
-- JavaScript strings as lists of UTF-16 code units: equality, the order of `<` and `<=`, and trim.
use Prim.Native.Nat.{ℕ}
use Prim.Native.Char.{code}
use Prim.Native.String.{String}
use mathlib.Core.Path.{◌≡◌, refl}
use mathlib.Core.Logic.{◌↔◌}
use mathlib.Core.Bool.{Bool, true, false, not, ◌&&◌, ◌||◌}
use mathlib.Core.List.{List, [], ◌∷◌, reverse}
use native.Mathlib.Omega.{arith}
use dsh_backend_team.Base.Tests.{ltb, nat_eq, if◌then◌else◌}
use dsh_backend_team.Base.Lists.{any}

abbrev pub Text : Type 0
Text = List ℕ

-- The code units of an ASCII literal.
abbrev pub codes : String → Text
codes String.[] = []
codes (String.◌∷◌ c s) = code c ∷ codes s

-- `a === b`
infix 50 ◌==◌
unfoldable pub ◌==◌ : Text → Text → Bool
[] == [] = true
[] == (y ∷ ys) = false
(x ∷ xs) == [] = false
(x ∷ xs) == (y ∷ ys) = nat_eq x y && xs == ys

pub ==_iff : (a b : Text) → ((a == b) ≡ true) ↔ (a ≡ b)
unfolding ◌==◌
==_iff [] [] = ground arith
==_iff [] (y ∷ ys) = ground arith
==_iff (x ∷ xs) [] = ground arith
==_iff (x ∷ xs) (y ∷ ys) = ground (arith, ==_iff xs ys)

pub ==_refl : (a : Text) → (a == a) ≡ true
==_refl a = (==_iff a a).1 refl

pub ==_sym : (a b : Text) → (a == b) ≡ (b == a)
==_sym a b = ground (arith, ==_iff a b, ==_iff b a)

-- `a < b`: the order of the first code unit that differs.
unfoldable pub text_lt : Text → Text → Bool
text_lt a [] = false
text_lt [] (y ∷ ys) = true
text_lt (x ∷ xs) (y ∷ ys) = ltb x y || nat_eq x y && text_lt xs ys

-- `a <= b`
abbrev pub text_le : Text → Text → Bool
text_le a b = not (text_lt b a)

pub text_lt_irrefl : (a : Text) → text_lt a a ≡ false
unfolding text_lt
text_lt_irrefl [] = refl
text_lt_irrefl (x ∷ xs) = ground (arith, text_lt_irrefl xs)

pub text_lt_trans : (a b c : Text) → text_lt a b ≡ true → text_lt b c ≡ true → text_lt a c ≡ true
unfolding text_lt
text_lt_trans [] [] c h k = ground arith
text_lt_trans [] (y ∷ b) [] h k = ground arith
text_lt_trans [] (y ∷ b) (z ∷ c) h k = refl
text_lt_trans (x ∷ a) [] c h k = ground arith
text_lt_trans (x ∷ a) (y ∷ b) [] h k = ground arith
text_lt_trans (x ∷ a) (y ∷ b) (z ∷ c) h k = ground (arith, text_lt_trans a b c)

-- Of two different texts one is less.
pub text_lt_total : (a b : Text) → text_lt a b ≡ false → text_lt b a ≡ false → a ≡ b
unfolding text_lt
text_lt_total [] [] h k = refl
text_lt_total [] (y ∷ b) h k = ground arith
text_lt_total (x ∷ a) [] h k = ground arith
text_lt_total (x ∷ a) (y ∷ b) h k = ground (arith, text_lt_total a b)

pub text_lt_asymm : (a b : Text) → text_lt a b ≡ true → text_lt b a ≡ false
unfolding text_lt
text_lt_asymm a [] h = ground arith
text_lt_asymm [] (y ∷ b) h = refl
text_lt_asymm (x ∷ a) (y ∷ b) h = ground (arith, text_lt_asymm a b)

-- `a <= b` and `b < c` give `a < c`.
pub text_le_lt_trans :
    (a b c : Text) → text_lt b a ≡ false → text_lt b c ≡ true → text_lt a c ≡ true
unfolding text_lt
text_le_lt_trans a [] [] h k = ground arith
text_le_lt_trans [] b (z ∷ c) h k = refl
text_le_lt_trans (x ∷ a) [] (z ∷ c) h k = ground arith
text_le_lt_trans (x ∷ a) (y ∷ b) [] h k = ground arith
text_le_lt_trans (x ∷ a) (y ∷ b) (z ∷ c) h k = ground (arith, text_le_lt_trans a b c)
text_le_lt_trans [] (y ∷ b) [] h k = ground arith

-- `a < b` and `b <= c` give `a < c`.
pub text_lt_le_trans :
    (a b c : Text) → text_lt a b ≡ true → text_lt c b ≡ false → text_lt a c ≡ true
unfolding text_lt
text_lt_le_trans a [] c h k = ground arith
text_lt_le_trans a (y ∷ b) [] h k = ground arith
text_lt_le_trans [] (y ∷ b) (z ∷ c) h k = refl
text_lt_le_trans (x ∷ a) (y ∷ b) (z ∷ c) h k = ground (arith, text_lt_le_trans a b c)

abbrev pub text_member : Text → List Text → Bool
text_member a xs = any (λ x. x == a) xs

-- The white space and line terminators that `trim` removes.
abbrev spaces : List ℕ
spaces =
    9 ∷ 10 ∷ 11 ∷ 12 ∷ 13 ∷ 32 ∷ 160 ∷ 5760 ∷ 8192 ∷ 8193 ∷ 8194 ∷ 8195 ∷ 8196 ∷ 8197 ∷ 8198 ∷ 8199
    ∷ 8200 ∷ 8201 ∷ 8202 ∷ 8232 ∷ 8233 ∷ 8239 ∷ 8287 ∷ 12288 ∷ 65279 ∷ []

unfoldable pub is_space : ℕ → Bool
is_space c = any (nat_eq c) spaces

unfoldable pub trim_start : Text → Text
trim_start [] = []
trim_start (c ∷ s) = let rest = trim_start s in if is_space c then rest else c ∷ s

-- `s.trim()`
unfoldable pub trim : Text → Text
unfolding trim_start
trim s = reverse (trim_start (reverse (trim_start s)))

-- `s.startsWith(t)` for the texts t and s
unfoldable pub starts_with : Text → Text → Bool
starts_with [] t = true
starts_with (x ∷ xs) [] = false
starts_with (x ∷ xs) (c ∷ cs) = let rest = starts_with xs cs in nat_eq x c && rest

-- `s.includes(t)`
unfoldable pub includes : Text → Text → Bool
unfolding starts_with
includes [] t = starts_with t []
includes (c ∷ s) t = starts_with t (c ∷ s) || includes s t
