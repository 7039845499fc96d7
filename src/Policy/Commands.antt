-- ===== src/Policy/Commands.antt =====
-- What packages/policy-engine/src/rules.ts reads in the arguments and the environment of a command.
use dsh_backend_team.Base.{
  ℕ, suc, Bool, false, not, ◌&&◌, ◌||◌, Option, none, some, List, [], ◌∷◌, ◌++◌, map, Text, codes,
  ◌==◌, any, all, drop, length, leb, ltb, nat_eq, text_member, starts_with, split_on, lower, fold,
  if◌then◌else◌,
}
use dsh_backend_team.Policy.Actions.{Command, Host}
use dsh_backend_team.Policy.Paths.{basename}

abbrev pub command_name : Command → Text
command_name c = basename c.executable

abbrev without_open : Text → Text
without_open [] = []
without_open (c ∷ s) = if nat_eq c b'[' then s else c ∷ s

abbrev without_close : Text → Text
without_close [] = []
without_close (c ∷ s) =
    let rest = without_close s in if nat_eq c b']' && s == [] then [] else c ∷ rest

abbrev is_digit : ℕ → Bool
is_digit c = leb b'0' c && leb c b'9'

-- A number from 0 to 255 with no leading zero
unfoldable is_octet : Text → Bool
is_octet (a ∷ []) = is_digit a
is_octet (a ∷ b ∷ []) = is_digit a && is_digit b && not (nat_eq a b'0')
is_octet (a ∷ b ∷ c ∷ []) =
    is_digit b
    && is_digit c
    && (nat_eq a b'1' || nat_eq a b'2' && (ltb b b'5' || nat_eq b b'5' && leb c b'5'))
is_octet _ = false

-- `isIP(host) === 4` of node:net
unfoldable pub is_ipv4 : Text → Bool
unfolding is_octet split_on
is_ipv4 host = nat_eq (length (split_on b'.' host)) 4 && all is_octet (split_on b'.' host)

-- `isLoopbackHost`. A letter whose lower case is in ASCII without being there itself, U+212A, is in
-- none of the names.
unfoldable pub is_loopback_host : Text → Bool
unfolding is_ipv4
is_loopback_host host =
    let normalized : Text = without_close (without_open (map lower host)) in
    normalized == codes "localhost"
    || normalized == codes "::1"
    || is_ipv4 normalized && starts_with (codes "127.") normalized

abbrev is_loopback_name : Option Text → Bool
is_loopback_name none = false
is_loopback_name (some host) = is_loopback_host host

-- `databaseHost` and `isLoopbackHost` together
unfoldable pub is_loopback_url : Host → Text → Bool
is_loopback_url host url = is_loopback_name (host.hostname url)

abbrev pub host_flags : List Text
host_flags = map codes (
    "--host" ∷ "--hostname" ∷ "--bind" ∷ "--listen" ∷ "--address" ∷ "--interface" ∷ "-h" ∷ "-H"
    ∷ "-b" ∷ [])

abbrev is_line_end : ℕ → Bool
is_line_end c = nat_eq c 10 || nat_eq c 13 || nat_eq c 8232 || nat_eq c 8233

-- The value behind one of the flags and `=`; the value is on one line.
unfoldable pub flag_values : List Text → Text → List Text
flag_values [] argument = []
flag_values (flag ∷ flags) argument =
    let rest = flag_values flags argument in
    if starts_with (flag ++ codes "=") argument
      && not (any is_line_end (drop (length flag) argument))
    then drop (suc (length flag)) argument ∷ []
    else rest

abbrev pub first_or_empty : List Text → Text
first_or_empty [] = []
first_or_empty (s ∷ rest) = s

-- The argument is one of the flags that the next argument belongs to.
unfoldable pub is_host_flag : Text → Bool
is_host_flag argument = text_member argument host_flags

unfoldable pub next_value : Text → List Text → List Text
unfolding is_host_flag
next_value argument args = if is_host_flag argument then first_or_empty args ∷ [] else []

-- The hosts that the arguments name
unfoldable pub hosts_of_args : List Text → List Text
unfolding next_value flag_values
hosts_of_args [] = []
hosts_of_args (argument ∷ args) =
    next_value argument args ++ (flag_values host_flags argument ++ hosts_of_args args)

abbrev host_words : List Text
host_words = map codes ("host" ∷ "hostname" ∷ "bind" ∷ "listen" ∷ "address" ∷ "interface" ∷ [])

-- The hosts that the environment names: a word between underscores, in any case, says so.
unfoldable pub hosts_of_env : List (Text × Text) → List Text
unfolding split_on
hosts_of_env [] = []
hosts_of_env ((key, value) ∷ env) =
    (if any (λ part. text_member (map fold part) host_words) (split_on b'_' key)
      then value ∷ []
      else [])
    ++ hosts_of_env env

-- `serviceHosts`
unfoldable pub service_hosts : Command → List Text
unfolding hosts_of_args hosts_of_env
service_hosts c = hosts_of_args c.args ++ hosts_of_env c.env
