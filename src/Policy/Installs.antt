-- ===== src/Policy/Installs.antt =====
-- Global installations and unsafe databases, as packages/policy-engine/src/rules.ts finds them.
use dsh_backend_team.Base.{
  ℕ, suc, zero, ◌-◌, ◌+◌, Bool, false, not, ◌&&◌, ◌||◌, List, [], ◌∷◌, ◌++◌, map, Text, codes, ◌==◌,
  any, drop, take, length, ltb, nat_eq, text_member, is_space, starts_with, fold, if◌then◌else◌,
}
use dsh_backend_team.Policy.Actions.{Command, Host}
use dsh_backend_team.Policy.Paths.{resolve}
use dsh_backend_team.Policy.Commands.{command_name, is_loopback_url, first_or_empty}

-- `isGlobalInstallFlag`
unfoldable pub is_global_install_flag : Text → Bool
is_global_install_flag argument =
    text_member argument
      (map codes ("-g" ∷ "--global" ∷ "--global=true" ∷ "--system" ∷ "--location=global" ∷ []))
    || starts_with (codes "global=") argument
    || starts_with (codes "prefix=") argument

-- `isOutsideOrSystemPrefix`
unfoldable pub is_outside_or_system_prefix : Host → (value cwd workspace_root : Text) → Bool
is_outside_or_system_prefix host value cwd workspace_root =
    value == []
    || value == codes "global"
    || (let target : Text = resolve host.process_cwd cwd value in
        not (starts_with (workspace_root ++ codes "/") target) && not (target == workspace_root))

module _ (host : Host) (workspace_root : Text) (c : Command) where
  -- The environment sets the global mode of npm, or a prefix outside.
  abbrev sets_global : Text × Text → Bool
  sets_global (key, value) =
      map fold key == codes "npm_config_global" && not (map fold value == codes "false")
      || map fold key == codes "npm_config_prefix"
        && is_outside_or_system_prefix host value c.cwd workspace_root

  -- The loop over the arguments
  unfoldable pub installs_outside : List Text → Bool
  installs_outside [] = false
  installs_outside (argument ∷ args) =
      argument == codes "--prefix"
        && is_outside_or_system_prefix host (first_or_empty args) c.cwd workspace_root
      || starts_with (codes "--prefix=") argument
        && is_outside_or_system_prefix host (drop (length (codes "--prefix=")) argument) c.cwd
            workspace_root
      || argument == codes "--location" && first_or_empty args == codes "global"
      || installs_outside args

  abbrev sets_prefix : List Text → Bool
  sets_prefix (a ∷ b ∷ d ∷ rest) = a == codes "config" && b == codes "set" && d == codes "prefix"
  sets_prefix _ = false

  -- `hasForbiddenGlobalInstall`
  unfoldable pub has_forbidden_global_install : Bool
  unfolding installs_outside
  has_forbidden_global_install =
      any is_global_install_flag c.args
      || any sets_global c.env
      || command_name c == codes "npm" && sets_prefix c.args
      || installs_outside c.args

abbrev is_address_code : ℕ → Bool
is_address_code c = not (is_space c || nat_eq c b'\'' || nat_eq c b'"' || nat_eq c b'=')

-- How many code units of an address follow
abbrev address_length : Text → ℕ
address_length [] = 0
address_length (c ∷ s) = let rest = address_length s in if is_address_code c then suc rest else 0

-- The length of the match of the address behind a scheme of n code units, 0 for none
abbrev length_behind : ℕ → Text → ℕ
length_behind n s =
    if starts_with (codes "://") (drop n s) && ltb 0 (address_length (drop (n + 3) s))
    then n + 3 + address_length (drop (n + 3) s)
    else 0

-- `postgres(?:ql)?:\/\/[^\s'"=]+` behind n code units, in any case
abbrev postgres_length : ℕ → Text → ℕ
postgres_length n s =
    if starts_with (codes "postgresql") (map fold (drop n s))
    then length_behind (n + 10) s
    else if starts_with (codes "postgres") (map fold (drop n s))
    then length_behind (n + 8) s
    else 0

-- The length of the match at the start, with `jdbc:` before it or not; 0 for none
unfoldable match_length : Text → ℕ
match_length s =
    if starts_with (codes "jdbc:") (map fold s) then postgres_length 5 s else postgres_length 0 s

abbrev without_jdbc : Text → Text
without_jdbc raw = if starts_with (codes "jdbc:") raw then drop 5 raw else raw

-- `matchAll`, with so many code units of the last match still to pass
unfoldable pub matches_behind : ℕ → Text → List Text
unfolding match_length
matches_behind n [] = []
matches_behind zero (c ∷ s) =
    let rest = matches_behind (match_length (c ∷ s) - 1) s in
    if nat_eq (match_length (c ∷ s)) 0 then rest else take (match_length (c ∷ s)) (c ∷ s) ∷ rest
matches_behind (suc n) (c ∷ s) = matches_behind n s

-- `hasUnsafeDatabaseTarget`
unfoldable pub has_unsafe_database_target : Host → Text → Bool
unfolding matches_behind
has_unsafe_database_target host value =
    any (λ raw. not (is_loopback_url host (without_jdbc raw))) (matches_behind 0 value)
