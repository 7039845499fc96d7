-- ===== src/Policy/Rules/Losses.antt =====
-- The Git commands that lose work, by their arguments as Git's documentation writes them, for
-- `isDestructiveGit` of packages/policy-engine/src/rules.ts.
use mathlib.Core.Path.{subst}
use dsh_backend_team.Base.{
  any_weaken, ◌≡◌, refl, sym, Bool, true, false, not, ◌||◌, List, [], ◌∷◌, ◌++◌, Text, codes, ◌==◌,
  any, text_member, starts_with, arith, nat_eq, map,
}
use dsh_backend_team.Policy.Git.{
  destroys, has_short_flag, letter_before_hyphen, is_destructive, is_destructive_git,
}
use dsh_backend_team.Policy.Rules.GlobalOptions.{
  GlobalOptions, member-All, member-any, subcommand_lem,
}

abbrev force_words : List Text
force_words = map codes ("--force" ∷ "-f" ∷ [])

abbrev checkout_words : List Text
checkout_words = map codes ("." ∷ "--" ∷ "-f" ∷ "--force" ∷ [])

abbrev push_words : List Text
push_words = map codes ("+" ∷ "--force=" ∷ "--force-" ∷ [])

abbrev branch_words : List Text
branch_words = map codes ("-D" ∷ "-d" ∷ "--delete" ∷ [])

abbrev tag_words : List Text
tag_words = map codes ("-d" ∷ "--delete" ∷ [])

-- The ways to lose work of the subcommand with these arguments
pub data LosesWork : Text → List Text → Type 0 where
  hard_reset :
      (rest : List Text) → text_member (codes "--hard") rest ≡ true → LosesWork (codes "reset") rest
  forced_clean :
      (rest : List Text)
      → text_member (codes "--force") rest ≡ true
      → LosesWork (codes "clean") rest
  letters_of_clean :
      (before after : Text) (rest : List Text)
      → any (nat_eq b'-') before ≡ false
      → text_member (codes "-" ++ before ++ codes "f" ++ after) rest ≡ true
      → LosesWork (codes "clean") rest
  checkout_of_files :
      (word : Text) (rest : List Text)
      → text_member word checkout_words ≡ true
      → text_member word rest ≡ true
      → LosesWork (codes "checkout") rest
  restoring :
      (path : Text) (rest : List Text)
      → starts_with (codes "-") path ≡ false
      → text_member path rest ≡ true
      → LosesWork (codes "restore") rest
  forced_push :
      (word : Text) (rest : List Text)
      → text_member word force_words ≡ true
      → text_member word rest ≡ true
      → LosesWork (codes "push") rest
  forced_refspec :
      (word more : Text) (rest : List Text)
      → text_member word push_words ≡ true
      → text_member (word ++ more) rest ≡ true
      → LosesWork (codes "push") rest
  branch_deletion :
      (word : Text) (rest : List Text)
      → text_member word branch_words ≡ true
      → text_member word rest ≡ true
      → LosesWork (codes "branch") rest
  forced_removal :
      (word : Text) (rest : List Text)
      → text_member word force_words ≡ true
      → text_member word rest ≡ true
      → LosesWork (codes "worktree") (codes "remove" ∷ rest)
  tag_deletion :
      (word : Text) (rest : List Text)
      → text_member word tag_words ≡ true
      → text_member word rest ≡ true
      → LosesWork (codes "tag") rest
  stash_clear : (rest : List Text) → LosesWork (codes "stash") (codes "clear" ∷ rest)
  stash_drop : (rest : List Text) → LosesWork (codes "stash") (codes "drop" ∷ rest)

letter_before_hyphen-f :
    (before after : Text)
    → any (nat_eq b'-') before ≡ false
    → letter_before_hyphen (nat_eq b'f') (before ++ codes "f" ++ after) ≡ true
letter_before_hyphen-f [] after h = refl
letter_before_hyphen-f (c ∷ before) after h = ground (arith, letter_before_hyphen-f before after)

has_short_flag-f :
    (before after : Text)
    → any (nat_eq b'-') before ≡ false
    → has_short_flag (nat_eq b'f') (codes "-" ++ before ++ codes "f" ++ after) ≡ true
unfolding has_short_flag
has_short_flag-f before after h = letter_before_hyphen-f before after h

-- The last test of a push
abbrev is_forced : Text → Bool
is_forced a =
    starts_with (codes "+") a
    || starts_with (codes "--force=") a
    || starts_with (codes "--force-") a

is_destructive-LosesWork :
    (subcommand : Text) (rest : List Text)
    → LosesWork subcommand rest
    → is_destructive subcommand rest ≡ true
unfolding is_destructive ◌==◌ starts_with
is_destructive-LosesWork _ _ (LosesWork.hard_reset rest h) = h
is_destructive-LosesWork _ _ (LosesWork.forced_clean rest h) =
    any_weaken _ _ (λ x k. ground (arith, k)) rest h
is_destructive-LosesWork _ _ (LosesWork.letters_of_clean before after rest h m) =
    member-any _ (codes "-" ++ before ++ codes "f" ++ after) rest
      (ground (arith, has_short_flag-f before after h)) m
is_destructive-LosesWork _ _ (LosesWork.checkout_of_files word rest w m) =
    member-All (λ x. text_member x rest ≡ true → is_destructive (codes "checkout") rest ≡ true)
      checkout_words word
      (
        (λ k. ground (arith, k)),
        ((λ k. ground (arith, k)), ((λ k. ground (arith, k)), ((λ k. ground (arith, k)), tt))),
      )
      w m
is_destructive-LosesWork _ _ (LosesWork.restoring path rest h m) =
    member-any (λ a. not (starts_with (codes "-") a)) path rest (ground (arith, h)) m
is_destructive-LosesWork _ _ (LosesWork.forced_push word rest w m) =
    member-All (λ x. text_member x rest ≡ true → is_destructive (codes "push") rest ≡ true)
      force_words word ((λ k. ground (arith, k)), ((λ k. ground (arith, k)), tt)) w m
is_destructive-LosesWork _ _ (LosesWork.forced_refspec word more rest w m) =
    let forced : any is_forced rest ≡ true =
      member-any is_forced (word ++ more) rest
        (member-All (λ x. is_forced (x ++ more) ≡ true) push_words word (refl, (refl, (refl, tt)))
          w)
        m in
    ground (arith, forced)
is_destructive-LosesWork _ _ (LosesWork.branch_deletion word rest w m) =
    member-All (λ x. text_member x rest ≡ true → is_destructive (codes "branch") rest ≡ true)
      branch_words word
      ((λ k. ground (arith, k)), ((λ k. ground (arith, k)), ((λ k. ground (arith, k)), tt))) w m
is_destructive-LosesWork _ _ (LosesWork.forced_removal word rest w m) =
    member-All
      (λ x.
        text_member x rest ≡ true
        → is_destructive (codes "worktree") (codes "remove" ∷ rest) ≡ true)
      force_words word ((λ k. ground (arith, k)), ((λ k. ground (arith, k)), tt)) w m
is_destructive-LosesWork _ _ (LosesWork.tag_deletion word rest w m) =
    member-All (λ x. text_member x rest ≡ true → is_destructive (codes "tag") rest ≡ true) tag_words
      word ((λ k. ground (arith, k)), ((λ k. ground (arith, k)), tt)) w m
is_destructive-LosesWork _ _ (LosesWork.stash_clear rest) = refl
is_destructive-LosesWork _ _ (LosesWork.stash_drop rest) = refl

no_dash-LosesWork :
    (subcommand : Text) (rest : List Text)
    → LosesWork subcommand rest
    → starts_with (codes "-") subcommand ≡ false
unfolding starts_with
no_dash-LosesWork _ _ (LosesWork.hard_reset rest h) = refl
no_dash-LosesWork _ _ (LosesWork.forced_clean rest h) = refl
no_dash-LosesWork _ _ (LosesWork.letters_of_clean before after rest h m) = refl
no_dash-LosesWork _ _ (LosesWork.checkout_of_files word rest w m) = refl
no_dash-LosesWork _ _ (LosesWork.restoring path rest h m) = refl
no_dash-LosesWork _ _ (LosesWork.forced_push word rest w m) = refl
no_dash-LosesWork _ _ (LosesWork.forced_refspec word more rest w m) = refl
no_dash-LosesWork _ _ (LosesWork.branch_deletion word rest w m) = refl
no_dash-LosesWork _ _ (LosesWork.forced_removal word rest w m) = refl
no_dash-LosesWork _ _ (LosesWork.tag_deletion word rest w m) = refl
no_dash-LosesWork _ _ (LosesWork.stash_clear rest) = refl
no_dash-LosesWork _ _ (LosesWork.stash_drop rest) = refl

pub is_destructive_git-LosesWork :
    {options : List Text} (subcommand : Text) (rest : List Text)
    → GlobalOptions options
    → LosesWork subcommand rest
    → is_destructive_git (options ++ subcommand ∷ rest) ≡ true
unfolding is_destructive_git
is_destructive_git-LosesWork subcommand rest g w =
    subst (λ q. destroys q ≡ true)
      (sym (subcommand_lem subcommand rest g (no_dash-LosesWork subcommand rest w)))
      (is_destructive-LosesWork subcommand rest w)
