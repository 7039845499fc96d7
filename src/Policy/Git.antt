-- ===== src/Policy/Git.antt =====
-- The Git subcommands that packages/policy-engine/src/rules.ts takes for destructive.
use dsh_backend_team.Base.{
  ℕ, Bool, true, false, not, ◌&&◌, ◌||◌, List, [], ◌∷◌, Text, codes, ◌==◌, any, text_member, nat_eq,
  Option, none, some, map, starts_with, if◌then◌else◌,
}

abbrev value_options : List Text
value_options = map codes ("-C" ∷ "-c" ∷ "--git-dir" ∷ "--work-tree" ∷ [])

unfoldable pub takes_value : Text → Bool
takes_value argument = text_member argument value_options

-- The loop of `gitSubcommand`; the test says whether the next argument is the value of an option.
unfoldable pub subcommand_from : Bool → List Text → Option Text × List Text
unfolding takes_value
subcommand_from skip [] = (none, [])
subcommand_from true (argument ∷ args) = subcommand_from false args
subcommand_from false (argument ∷ args) =
    let rest = subcommand_from (takes_value argument) args in
    if takes_value argument || starts_with (codes "-") argument then rest else (some argument, args)

-- `gitSubcommand`
abbrev pub git_subcommand : List Text → Option Text × List Text
git_subcommand args = subcommand_from false args

-- `/^-[^-]*x/` for the letters x: one of them stands before the second hyphen.
abbrev pub letter_before_hyphen : (ℕ → Bool) → Text → Bool
letter_before_hyphen wanted [] = false
letter_before_hyphen wanted (c ∷ s) =
    let rest = letter_before_hyphen wanted s in wanted c || not (nat_eq c b'-') && rest

unfoldable pub has_short_flag : (ℕ → Bool) → Text → Bool
has_short_flag wanted [] = false
has_short_flag wanted (c ∷ s) = nat_eq c b'-' && letter_before_hyphen wanted s

-- `isRecursiveDeleteFlag`
abbrev pub is_recursive_delete_flag : Text → Bool
is_recursive_delete_flag argument =
    argument == codes "--recursive" || has_short_flag (λ c. nat_eq c b'r' || nat_eq c b'R') argument

abbrev first_is : List Text → List Text → Bool
first_is words [] = false
first_is words (argument ∷ rest) = text_member argument words

-- The last lines of `isDestructiveGit`, by the subcommand
unfoldable pub is_destructive : Text → List Text → Bool
is_destructive subcommand rest =
    if subcommand == codes "reset"
    then text_member (codes "--hard") rest
    else if subcommand == codes "clean"
    then any (λ a. has_short_flag (nat_eq b'f') a || a == codes "--force") rest
    else if subcommand == codes "checkout"
    then text_member (codes ".") rest
      || text_member (codes "--") rest
      || text_member (codes "-f") rest
      || text_member (codes "--force") rest
    else if subcommand == codes "restore"
    then any (λ a. not (starts_with (codes "-") a)) rest
    else if subcommand == codes "push"
    then text_member (codes "--force") rest
      || text_member (codes "-f") rest
      || any
          (λ a.
            starts_with (codes "+") a
            || starts_with (codes "--force=") a
            || starts_with (codes "--force-") a)
          rest
    else if subcommand == codes "branch"
    then text_member (codes "-D") rest
      || text_member (codes "-d") rest
      || text_member (codes "--delete") rest
    else if subcommand == codes "worktree"
    then first_is (codes "remove" ∷ []) rest
      && (text_member (codes "--force") rest || text_member (codes "-f") rest)
    else if subcommand == codes "tag"
    then text_member (codes "-d") rest || text_member (codes "--delete") rest
    else subcommand == codes "stash" && first_is (codes "clear" ∷ codes "drop" ∷ []) rest

abbrev pub destroys : Option Text × List Text → Bool
destroys (none, rest) = false
destroys (some subcommand, rest) = is_destructive subcommand rest

-- `isDestructiveGit`
unfoldable pub is_destructive_git : List Text → Bool
is_destructive_git args = destroys (git_subcommand args)
