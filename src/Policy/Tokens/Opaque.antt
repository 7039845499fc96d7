-- ===== src/Policy/Tokens/Opaque.antt =====
-- The texts of the tokens of packages/policy-engine/src/approval-token.ts: `parseToken` and the
-- text that `issue` gives.
use mathlib.Core.Option.{some-injective}
use dsh_backend_team.Base.{
  ltb, ℕ, ◌≡◌, refl, sym, ap, ◌∙◌, ◌↔◌, Bool, true, false, ◌&&◌, some, List, [], ◌∷◌, ◌++◌, Text,
  ◌==◌, ==_refl, ==_iff, all, nat_eq, length, split_on, arith, add_code,
}
use dsh_backend_team.Policy.Base64.{
  is_opaque_code, AreBytes, encode, decode, decode-encode, encode-opaque, length-encode,
}
use dsh_backend_team.Policy.Tokens.{
  is_safe_token_id, print_token, parse_token, prefix, checked_token, token_of_parts,
}

-- A part without the separator, and what is behind the separator
split_on-part :
    (part rest : Text)
    → all is_opaque_code part ≡ true
    → split_on b'.' (part ++ (b'.' ∷ rest)) ≡ part ∷ split_on b'.' rest
unfolding split_on
split_on-part [] rest h = refl
split_on-part (c ∷ part) rest h =
    let ih = split_on-part part rest (ground arith) in
    let inside : nat_eq c b'.' ≡ false = ground arith in
    ap (λ b. add_code b c (split_on b'.' (part ++ (b'.' ∷ rest)))) inside ∙ ap (add_code false c) ih

split_on-last : (part : Text) → all is_opaque_code part ≡ true → split_on b'.' part ≡ part ∷ []
unfolding split_on
split_on-last [] h = refl
split_on-last (c ∷ part) h =
    let ih = split_on-last part (ground arith) in
    let inside : nat_eq c b'.' ≡ false = ground arith in
    ap (λ b. add_code b c (split_on b'.' part)) inside ∙ ap (add_code false c) ih

-- The parts joined again
abbrev join : List Text → Text
join [] = []
join (p ∷ []) = p
join (p ∷ q ∷ parts) = p ++ (b'.' ∷ join (q ∷ parts))

join-split_on :
    (s : Text) → (join (split_on b'.' s) ≡ s) × (ltb 0 (length (split_on b'.' s)) ≡ true)
unfolding split_on
join-split_on [] = (refl, refl)
join-split_on (c ∷ s) = go (split_on b'.' s) (nat_eq c b'.') refl (join-split_on s)
  where
    go :
        (parts : List Text) (b : Bool)
        → nat_eq c b'.' ≡ b
        → (join parts ≡ s) × (ltb 0 (length parts) ≡ true)
        → (join (add_code b c parts) ≡ c ∷ s) × (ltb 0 (length (add_code b c parts)) ≡ true)
    go [] b e h = absurd (ground arith)
    go (p ∷ parts) true e h =
        let dot : b'.' ≡ c = ground arith in (λ i. dot i ∷ h.0 i, ground arith)
    go (p ∷ []) false e h = (ap (λ t. c ∷ t) h.0, refl)
    go (p ∷ q ∷ parts) false e h = (ap (λ t. c ∷ t) h.0, ground arith)

-- What is read is printed for it.
token_of_parts-join :
    (parts : List Text) (token_id : Text) (secret : List ℕ)
    → token_of_parts parts ≡ some (token_id, secret)
    → join parts ≡ print_token token_id secret
unfolding print_token
token_of_parts-join [] token_id secret e = absurd (ground arith)
token_of_parts-join (p ∷ []) token_id secret e = absurd (ground arith)
token_of_parts-join (p ∷ id ∷ []) token_id secret e = absurd (ground arith)
token_of_parts-join (p ∷ id ∷ s ∷ t ∷ parts) token_id secret e = absurd (ground arith)
token_of_parts-join (p ∷ id ∷ s ∷ []) token_id secret e =
    go
      (p == prefix
        && is_safe_token_id id
        && (all is_opaque_code s && nat_eq (length s) 43)
        && nat_eq (length (decode s)) 32
        && encode (decode s) == s)
      refl e
  where
    go :
        (b : Bool)
        → (p == prefix
            && is_safe_token_id id
            && (all is_opaque_code s && nat_eq (length s) 43)
            && nat_eq (length (decode s)) 32
            && encode (decode s) == s)
          ≡ b
        → checked_token b id (decode s) ≡ some (token_id, secret)
        → join (p ∷ id ∷ s ∷ []) ≡ print_token token_id secret
    go false c e = absurd (ground arith)
    go true c e =
        let first : p ≡ prefix = (==_iff p prefix).0 (ground arith) in
        let last : encode (decode s) ≡ s = (==_iff (encode (decode s)) s).0 (ground arith) in
        let pair = some-injective (id, decode s) (token_id, secret) e in
        let same_id : id ≡ token_id = ap (λ (t : Text × List ℕ). t.0) pair in
        let same_secret : encode (decode s) ≡ encode secret =
          ap (λ (t : Text × List ℕ). encode t.1) pair in
        λ i. first i ++ (b'.' ∷ (same_id i ++ (b'.' ∷ (sym last ∙ same_secret) i)))

token_of_parts-print :
    (token_id : Text) (secret : List ℕ)
    → is_safe_token_id token_id ≡ true
    → length secret ≡ 32
    → AreBytes secret
    → token_of_parts (prefix ∷ token_id ∷ encode secret ∷ []) ≡ some (token_id, secret)
unfolding ◌==◌
token_of_parts-print token_id secret safe long h =
    let back = decode-encode secret h in
    let size : length (encode secret) ≡ 43 = omega (arith, length-encode secret, long) in
    rw (back) (ground (arith, safe, long, size, encode-opaque secret h, ==_refl (encode secret)))

split_on-print :
    (token_id : Text) (secret : List ℕ)
    → all is_opaque_code token_id ≡ true
    → AreBytes secret
    → split_on b'.' (print_token token_id secret) ≡ prefix ∷ token_id ∷ encode secret ∷ []
unfolding print_token
split_on-print token_id secret safe h =
    split_on-part prefix (token_id ++ (b'.' ∷ encode secret)) refl
    ∙ ap (λ parts. prefix ∷ parts) (split_on-part token_id (encode secret) safe)
    ∙ ap (λ parts. prefix ∷ token_id ∷ parts)
        (split_on-last (encode secret) (encode-opaque secret h))

opaque-safe :
    (token_id : Text) → is_safe_token_id token_id ≡ true → all is_opaque_code token_id ≡ true
unfolding is_safe_token_id
opaque-safe token_id h = ground arith

-- A token is its text: what `issue` prints for a safe name and 32 bytes is read as that name and
-- those bytes, and every text that is read as a name and bytes is what would be printed for them,
-- so that no other text names the same secret.
pub parse_token-print :
    (token_id : Text) (secret : List ℕ)
    → is_safe_token_id token_id ≡ true
    → length secret ≡ 32
    → AreBytes secret
    → (value : Text)
    → (parse_token value ≡ some (token_id, secret)) ↔ (value ≡ print_token token_id secret)
unfolding parse_token
parse_token-print token_id secret safe long h value = (
  λ e. sym (join-split_on value).0 ∙ token_of_parts-join (split_on b'.' value) token_id secret e,
  λ e.
      ap parse_token e
      ∙ ap token_of_parts (split_on-print token_id secret (opaque-safe token_id safe) h)
      ∙ token_of_parts-print token_id secret safe long h,
)
