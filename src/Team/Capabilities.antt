-- ===== src/Team/Capabilities.antt =====
-- The capabilities of a delegated agent: `intersectCapabilities` of
-- packages/agent-team/src/capability-intersection.ts, and `AgentCapabilitySetSchema` of
-- packages/contracts/src/agent-task.ts, which checks its result. `toLowerCase` is that of the ASCII
-- letters and the Kelvin sign; the schema refuses a host with a code unit outside ASCII.
pub mod Accepted
use mathlib.Core.Path.{subst}
use dsh_backend_team.Base.{
  lower, ◌≡◌, ℕ, Bool, true, false, not, ◌&&◌, ◌||◌, Option, some, none, List, [], ◌∷◌, map, Text,
  ◌==◌, ==_refl, nat_eq, leb, length, all, filter, text_member, trim, if◌then◌else◌, All, All-map,
  All-map₂, All-filter, filter-All, arith,
}

-- `booleanCapabilities`
pub data Capability : Type 0 where
  read_project_files : Capability
  write_owned_files : Capability
  business_code_write : Capability
  test_code_write : Capability
  configuration_write : Capability
  command_execution : Capability
  install : Capability
  migration : Capability
  can_delegate : Capability
  can_change_phase : Capability
  can_approve : Capability
  can_contact_user : Capability
  can_announce_completion : Capability

-- `forbiddenChildCapabilities.has(key)`
abbrev pub is_forbidden : Capability → Bool
is_forbidden Capability.command_execution = true
is_forbidden Capability.can_delegate = true
is_forbidden Capability.can_change_phase = true
is_forbidden Capability.can_approve = true
is_forbidden Capability.can_contact_user = true
is_forbidden Capability.can_announce_completion = true
is_forbidden _ = false

-- `Partial<AgentCapabilitySet>`: a capability or the hosts may be missing.
pub record PartialCapabilitySet : Type 0 where
  pub flag : Capability → Option Bool
  pub network_hosts : Option (List Text)

-- `AgentCapabilitySet`
pub record AgentCapabilitySet : Type 0 where
  pub flag : Capability → Bool
  pub network_hosts : List Text

abbrev is_true : Option Bool → Bool
is_true none = false
is_true (some b) = b

-- `Boolean(set[key])`
abbrev pub is_granted : PartialCapabilitySet → Capability → Bool
is_granted s c = is_true (s.flag c)

abbrev to_lower : ℕ → ℕ
to_lower c = if nat_eq c 8490 then 107 else lower c

abbrev normal_host : Text → Text
normal_host host = map to_lower (trim host)

-- The items of a set in the order in which they were first added.
abbrev pub items_of : List Text → List Text
items_of [] = []
items_of (x ∷ xs) = let rest = items_of xs in x ∷ filter (λ y. not (y == x)) rest

abbrev given_hosts : Option (List Text) → List Text
given_hosts none = []
given_hosts (some hosts) = hosts

-- `new Set((set.networkHosts ?? []).map(...))`, as its items
abbrev pub hosts_of : PartialCapabilitySet → List Text
hosts_of s = items_of (map normal_host (given_hosts s.network_hosts))

abbrev is_name_code : ℕ → Bool
is_name_code c = leb 97 c && leb c 122 || leb 48 c && leb c 57

-- The end of a name is a letter or a digit, what is before it also a dot or a dash.
abbrev is_name_rest : Text → Bool
is_name_rest [] = false
is_name_rest (c ∷ []) = is_name_code c
is_name_rest (c ∷ d ∷ cs) =
    let rest = is_name_rest (d ∷ cs) in (is_name_code c || nat_eq c 46 || nat_eq c 45) && rest

-- `NetworkHost`, for a host that is already trimmed and in lower case
abbrev is_network_host : Text → Bool
is_network_host [] = false
is_network_host (c ∷ cs) = is_name_code c && is_name_rest (c ∷ cs) && leb (length (c ∷ cs)) 253

abbrev are_unique : List Text → Bool
are_unique [] = true
are_unique (x ∷ xs) = let rest = are_unique xs in not (text_member x xs) && rest

-- `AgentCapabilitySetSchema.parse`, on a set that names every capability
abbrev parse_capability_set : AgentCapabilitySet → Option AgentCapabilitySet
parse_capability_set s =
    if all is_network_host s.network_hosts
      && leb (length s.network_hosts) 32
      && are_unique s.network_hosts
    then some s
    else none

abbrev pub intersect_flags :
    (parent requested role preset : PartialCapabilitySet) → Capability → Bool
intersect_flags parent requested role preset c =
    if is_forbidden c
    then false
    else is_granted parent c && is_granted requested c && is_granted role c && is_granted preset c

abbrev is_named_by_all : (requested role preset : PartialCapabilitySet) → Text → Bool
is_named_by_all requested role preset host =
    text_member host (hosts_of requested)
    && text_member host (hosts_of role)
    && text_member host (hosts_of preset)

abbrev intersect_hosts : (parent requested role preset : PartialCapabilitySet) → List Text
intersect_hosts parent requested role preset =
    filter (is_named_by_all requested role preset) (hosts_of parent)

-- `intersectCapabilities`, with none where the schema throws
unfoldable pub intersect_capabilities :
    (parent requested role preset : PartialCapabilitySet) → Option AgentCapabilitySet
intersect_capabilities parent requested role preset = parse_capability_set (record {
  flag = intersect_flags parent requested role preset;
  network_hosts = intersect_hosts parent requested role preset;
})

-- What the set holds, the other one grants as well.
abbrev pub Within : AgentCapabilitySet → PartialCapabilitySet → Type 0
Within s t =
    ((c : Capability) → (s.flag c && not (is_granted t c)) ≡ false)
    × All (λ host. text_member host (hosts_of t) ≡ true) s.network_hosts

-- No set of a child holds a capability that children never have.
abbrev pub IsChild : AgentCapabilitySet → Type 0
IsChild s = (c : Capability) → (is_forbidden c && s.flag c) ≡ false

text_member_self : (xs : List Text) → All (λ a. text_member a xs ≡ true) xs
text_member_self [] = tt
text_member_self (x ∷ xs) =
    (ground (arith, ==_refl x), All-map (λ a h. ground (arith, h)) xs (text_member_self xs))

parse_capability_set-same :
    (s child : AgentCapabilitySet) → parse_capability_set s ≡ some child → s ≡ child
parse_capability_set-same s child h = ground (arith, h)

module _ (parent requested role preset : PartialCapabilitySet) where
  intersect_hosts-Among :
      All
        (λ host.
          (text_member host (hosts_of parent) ≡ true)
          × (text_member host (hosts_of requested) ≡ true)
          × (text_member host (hosts_of role) ≡ true)
          × (text_member host (hosts_of preset) ≡ true))
        (intersect_hosts parent requested role preset)
  intersect_hosts-Among =
      All-map₂ (λ host h k. ground (arith, h, k)) (intersect_hosts parent requested role preset)
        (All-filter (λ host. text_member host (hosts_of parent) ≡ true)
          (is_named_by_all requested role preset) (hosts_of parent)
          (text_member_self (hosts_of parent)))
        (filter-All (is_named_by_all requested role preset) (hosts_of parent))

  intersect_flags-Granted :
      (c : Capability)
      → ((intersect_flags parent requested role preset c && not (is_granted parent c)) ≡ false)
        × ((intersect_flags parent requested role preset c && not (is_granted requested c)) ≡ false)
        × ((intersect_flags parent requested role preset c && not (is_granted role c)) ≡ false)
        × ((intersect_flags parent requested role preset c && not (is_granted preset c)) ≡ false)
  intersect_flags-Granted c = ground arith

  abbrev pub intersection : AgentCapabilitySet
  intersection = record {
    flag = intersect_flags parent requested role preset;
    network_hosts = intersect_hosts parent requested role preset;
  }

  intersection-Within :
      Within intersection parent
      × Within intersection requested
      × Within intersection role
      × Within intersection preset
      × IsChild intersection
  intersection-Within = (
    (
      (λ c. (intersect_flags-Granted c).0),
      All-map (λ a h. h.0) (intersect_hosts parent requested role preset) intersect_hosts-Among,
    ),
    (
      (λ c. (intersect_flags-Granted c).1),
      All-map (λ a h. h.1) (intersect_hosts parent requested role preset) intersect_hosts-Among,
    ),
    (
      (λ c. (intersect_flags-Granted c).2),
      All-map (λ a h. h.2) (intersect_hosts parent requested role preset) intersect_hosts-Among,
    ),
    (
      (λ c. (intersect_flags-Granted c).3),
      All-map (λ a h. h.3) (intersect_hosts parent requested role preset) intersect_hosts-Among,
    ),
    (λ c. ground arith),
  )

  -- A child that the intersection gives out has a capability only where the parent, the request,
  -- the role and the preset all grant it, and a network host only where all four name it once its
  -- white space and case are dropped; it never has one of the six capabilities that children are
  -- denied.
  pub intersect_capabilities-Within :
      (child : AgentCapabilitySet)
      → intersect_capabilities parent requested role preset ≡ some child
      → Within child parent
        × Within child requested
        × Within child role
        × Within child preset
        × IsChild child
  unfolding intersect_capabilities
  intersect_capabilities-Within child h =
      subst
        (λ s. Within s parent × Within s requested × Within s role × Within s preset × IsChild s)
        (parse_capability_set-same intersection child h) intersection-Within
