-- ===== src/Policy/Base64.antt =====
-- `toString('base64url')` and `Buffer.from(.., 'base64url')` on the code units of the alphabet, as
-- packages/policy-engine/src/approval-token.ts uses them for the secret of a token.
use Prim.Native.Nat.{◌/◌, ◌%◌}
use dsh_backend_team.Base.{
  refl, ◌∙◌, length, All, ap, all, ℕ, ◌+◌, ◌-◌, ◌*◌, ◌<◌, ◌≡◌, Bool, true, ◌||◌, ◌&&◌, List, [],
  ◌∷◌, map, Text, leb, ltb, nat_eq, arith, if◌then◌else◌,
}

-- `[A-Za-z0-9_-]`
abbrev pub is_opaque_code : ℕ → Bool
is_opaque_code c =
    leb b'A' c && leb c b'Z'
    || leb b'a' c && leb c b'z'
    || leb b'0' c && leb c b'9'
    || nat_eq c b'_'
    || nat_eq c b'-'

-- The code unit of six bits
unfoldable pub code_of : ℕ → ℕ
code_of n =
    if ltb n 26
    then n + 65
    else if ltb n 52
    then n + 71
    else if ltb n 62
    then n - 4
    else if nat_eq n 62
    then 45
    else 95

-- The six bits of a code unit of the alphabet
unfoldable pub bits_of : ℕ → ℕ
bits_of c =
    if leb b'a' c
    then c - 71
    else if nat_eq c 95
    then 63
    else if leb b'A' c
    then c - 65
    else if nat_eq c 45
    then 62
    else c + 4

-- Groups of six bits from bytes
unfoldable pub groups : List ℕ → List ℕ
groups [] = []
groups (a ∷ []) = a / 4 ∷ (a % 4 * 16) ∷ []
groups (a ∷ b ∷ []) = a / 4 ∷ (a % 4 * 16 + b / 16) ∷ (b % 16 * 4) ∷ []
groups (a ∷ b ∷ c ∷ rest) =
    a / 4 ∷ (a % 4 * 16 + b / 16) ∷ (b % 16 * 4 + c / 64) ∷ c % 64 ∷ groups rest

-- Bytes from groups of six bits; the bits that are too few for a byte are dropped.
unfoldable pub bytes : List ℕ → List ℕ
bytes [] = []
bytes (x ∷ []) = []
bytes (x ∷ y ∷ []) = (x * 4 + y / 16) ∷ []
bytes (x ∷ y ∷ z ∷ []) = (x * 4 + y / 16) ∷ (y % 16 * 16 + z / 4) ∷ []
bytes (x ∷ y ∷ z ∷ w ∷ rest) =
    (x * 4 + y / 16) ∷ (y % 16 * 16 + z / 4) ∷ (z % 4 * 64 + w) ∷ bytes rest

unfoldable pub encode : List ℕ → Text
unfolding groups code_of
encode secret = map code_of (groups secret)

unfoldable pub decode : Text → List ℕ
unfolding bytes bits_of
decode text = bytes (map bits_of text)

bits_of-code_of : (n : ℕ) → n < 64 → bits_of (code_of n) ≡ n
unfolding bits_of code_of
bits_of-code_of n h = ground arith

pub is_opaque_code-code_of : (n : ℕ) → n < 64 → is_opaque_code (code_of n) ≡ true
unfolding code_of
is_opaque_code-code_of n h = ground arith

abbrev pub AreBytes : List ℕ → Type 0
AreBytes secret = All (λ b. b < 256) secret

abbrev AreGroups : List ℕ → Type 0
AreGroups xs = All (λ x. x < 64) xs

groups-AreGroups : (secret : List ℕ) → AreBytes secret → AreGroups (groups secret)
unfolding groups
groups-AreGroups [] h = tt
groups-AreGroups (a ∷ []) h = omega arith
groups-AreGroups (a ∷ b ∷ []) h = omega arith
groups-AreGroups (a ∷ b ∷ c ∷ rest) h =
    let (p, (q, (r, t))) = h in
    (omega arith, (omega arith, (omega arith, (omega arith, groups-AreGroups rest t))))

bytes-groups : (secret : List ℕ) → AreBytes secret → bytes (groups secret) ≡ secret
unfolding groups bytes
bytes-groups [] h = refl
bytes-groups (a ∷ []) h =
    let e : a / 4 * 4 + a % 4 * 16 / 16 ≡ a = omega arith in ap (λ x. x ∷ []) e
bytes-groups (a ∷ b ∷ []) h =
    let d : a / 4 * 4 + (a % 4 * 16 + b / 16) / 16 ≡ a = omega arith in
    let e : (a % 4 * 16 + b / 16) % 16 * 16 + b % 16 * 4 / 4 ≡ b = omega arith in
    λ i. d i ∷ e i ∷ []
bytes-groups (a ∷ b ∷ c ∷ rest) h =
    let (p, (q, (r, t))) = h in
    let d : a / 4 * 4 + (a % 4 * 16 + b / 16) / 16 ≡ a = omega arith in
    let e : (a % 4 * 16 + b / 16) % 16 * 16 + (b % 16 * 4 + c / 64) / 4 ≡ b = omega arith in
    let f : (b % 16 * 4 + c / 64) % 4 * 64 + c % 64 ≡ c = omega arith in
    let ih = bytes-groups rest t in λ i. d i ∷ e i ∷ f i ∷ ih i

map-bits_of : (xs : List ℕ) → AreGroups xs → map bits_of (map code_of xs) ≡ xs
map-bits_of [] h = refl
map-bits_of (x ∷ xs) h =
    let e = bits_of-code_of x h.0 in let ih = map-bits_of xs h.1 in λ i. e i ∷ ih i

-- What is encoded is decoded.
pub decode-encode : (secret : List ℕ) → AreBytes secret → decode (encode secret) ≡ secret
unfolding decode encode
decode-encode secret h =
    ap bytes (map-bits_of (groups secret) (groups-AreGroups secret h)) ∙ bytes-groups secret h

all_opaque : (xs : List ℕ) → AreGroups xs → all is_opaque_code (map code_of xs) ≡ true
all_opaque [] h = refl
all_opaque (x ∷ xs) h = ground (arith, is_opaque_code-code_of x h.0, all_opaque xs h.1)

pub encode-opaque : (secret : List ℕ) → AreBytes secret → all is_opaque_code (encode secret) ≡ true
unfolding encode
encode-opaque secret h = all_opaque (groups secret) (groups-AreGroups secret h)

-- Three bytes take four code units, a byte more takes two, and two bytes more take three.
pub length-encode :
    (secret : List ℕ) → length (encode secret) * 3 ≡ length secret * 4 + (length secret * 2) % 3
unfolding encode groups
length-encode [] = omega arith
length-encode (a ∷ []) = omega arith
length-encode (a ∷ b ∷ []) = omega arith
length-encode (a ∷ b ∷ c ∷ rest) = omega (arith, length-encode rest)
