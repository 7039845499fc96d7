-- ===== src/Team/Capabilities/Accepted.antt =====
-- When the schema accepts the result of `intersectCapabilities` of
-- packages/agent-team/src/capability-intersection.ts.
use dsh_backend_team.Base.{
  map, ◌≡◌, refl, ◌≤◌, Bool, true, false, not, some, List, [], ◌∷◌, Text, ◌==◌, length, all, filter,
  text_member, arith, length-filter-le,
}
use dsh_backend_team.Team.Capabilities.{
  given_hosts, normal_host, is_named_by_all, PartialCapabilitySet, AgentCapabilitySet,
  intersect_capabilities, intersection, hosts_of, items_of, is_network_host, are_unique,
  parse_capability_set,
}

text_member-filter :
    (p : Text → Bool) (a : Text) (xs : List Text)
    → text_member a xs ≡ false
    → text_member a (filter p xs) ≡ false
text_member-filter p a [] h = refl
text_member-filter p a (x ∷ xs) h = ground (arith, text_member-filter p a xs)

are_unique-filter :
    (p : Text → Bool) (xs : List Text) → are_unique xs ≡ true → are_unique (filter p xs) ≡ true
are_unique-filter p [] h = refl
are_unique-filter p (x ∷ xs) h = ground (arith, are_unique-filter p xs, text_member-filter p x xs)

text_member-removed :
    (a : Text) (xs : List Text) → text_member a (filter (λ y. not (y == a)) xs) ≡ false
text_member-removed a [] = refl
text_member-removed a (x ∷ xs) = ground (arith, text_member-removed a xs)

are_unique-items_of : (xs : List Text) → are_unique (items_of xs) ≡ true
are_unique-items_of [] = refl
are_unique-items_of (x ∷ xs) = ground (
  arith,
  text_member-removed x (items_of xs),
  are_unique-filter (λ y. not (y == x)) (items_of xs) (are_unique-items_of xs),
)

all-filter : (p q : Text → Bool) (xs : List Text) → all q xs ≡ true → all q (filter p xs) ≡ true
all-filter p q [] h = refl
all-filter p q (x ∷ xs) h = ground (arith, all-filter p q xs)

parse_capability_set-accepted :
    (s : AgentCapabilitySet)
    → all is_network_host s.network_hosts ≡ true
    → length s.network_hosts ≤ 32
    → are_unique s.network_hosts ≡ true
    → parse_capability_set s ≡ some s
parse_capability_set-accepted s h k e = ground (arith, h, k, e)

module _ (parent requested role preset : PartialCapabilitySet) where
  -- A parent whose hosts, once trimmed, in lower case and each taken once, are host names and at
  -- most 32 has every intersection with it accepted by the schema, so that the delegation does not
  -- fail here, whatever the request, the role and the preset name.
  pub intersect_capabilities-accepted :
      all is_network_host (hosts_of parent) ≡ true
      → length (hosts_of parent) ≤ 32
      → intersect_capabilities parent requested role preset
        ≡ some (intersection parent requested role preset)
  unfolding intersect_capabilities
  intersect_capabilities-accepted h k =
      let shared = is_named_by_all requested role preset in
      parse_capability_set-accepted (intersection parent requested role preset)
        (all-filter shared is_network_host (hosts_of parent) h)
        (omega (arith, length-filter-le shared (hosts_of parent), k))
        (are_unique-filter shared (hosts_of parent)
          (are_unique-items_of (map normal_host (given_hosts parent.network_hosts))))
