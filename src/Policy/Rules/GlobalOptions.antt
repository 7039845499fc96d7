-- ===== src/Policy/Rules/GlobalOptions.antt =====
-- The options of Git before its subcommand, as Git's documentation writes them, for `gitSubcommand`
-- of packages/policy-engine/src/rules.ts, which passes them by.
use mathlib.Core.Path.{subst}
use dsh_backend_team.Base.{
  any_weaken, All, ==_iff, ◌≡◌, refl, sym, ◌∙◌, Bool, true, false, ◌||◌, some, List, [], ◌∷◌, ◌++◌,
  Text, codes, ◌==◌, any, text_member, starts_with, arith, map,
}
use dsh_backend_team.Policy.Git.{subcommand_from, takes_value}

-- Options before the subcommand that have the next argument for their value
abbrev pub valued_words : List Text
valued_words = map codes ("-C" ∷ "-c" ∷ "--git-dir" ∷ "--work-tree" ∷ [])

-- Options before the subcommand that have no value
abbrev pub plain_words : List Text
plain_words = map codes (
    "-p" ∷ "--paginate" ∷ "-P" ∷ "--no-pager" ∷ "--bare" ∷ "--no-replace-objects"
    ∷ "--no-lazy-fetch" ∷ "--no-optional-locks" ∷ "--no-advice" ∷ "--literal-pathspecs"
    ∷ "--glob-pathspecs" ∷ "--noglob-pathspecs" ∷ "--icase-pathspecs" ∷ [])

-- Options before the subcommand that have their value in the same argument
abbrev pub joined_words : List Text
joined_words =
    map codes
      ("--git-dir=" ∷ "--work-tree=" ∷ "--namespace=" ∷ "--exec-path=" ∷ "--config-env=" ∷ [])

-- The arguments before the subcommand, if they are such options
pub data GlobalOptions : List Text → Type 0 where
  nothing : GlobalOptions []
  plain :
      (option : Text) (rest : List Text)
      → text_member option plain_words ≡ true
      → GlobalOptions rest
      → GlobalOptions (option ∷ rest)
  valued :
      (name value : Text) (rest : List Text)
      → text_member name valued_words ≡ true
      → GlobalOptions rest
      → GlobalOptions (name ∷ value ∷ rest)
  joined :
      (name value : Text) (rest : List Text)
      → text_member name joined_words ≡ true
      → GlobalOptions rest
      → GlobalOptions ((name ++ value) ∷ rest)

-- What holds of all words of a list holds of a word in it.
pub member-All {ℓ} :
    (P : Text → Type ℓ) (words : List Text) (word : Text)
    → All P words
    → text_member word words ≡ true
    → P word
member-All P [] word h m = absurd (ground arith)
member-All P (w ∷ words) word h m = go (w == word) refl m (member-All P words word h.1)
  where
    go :
        (b : Bool)
        → (w == word) ≡ b
        → (b || text_member word words) ≡ true
        → (text_member word words ≡ true → P word)
        → P word
    go true e m k = subst P ((==_iff w word).0 e) h.0
    go false e m k = k m

-- A test that holds of an argument holds of one of the arguments.
pub member-any :
    (p : Text → Bool) (word : Text) (rest : List Text)
    → p word ≡ true
    → text_member word rest ≡ true
    → any p rest ≡ true
member-any p word rest h m =
    any_weaken (λ x. x == word) p (λ x e. subst (λ y. p y ≡ true) (sym ((==_iff x word).0 e)) h)
      rest m

takes_value-dash : (s : Text) → starts_with (codes "-") s ≡ false → takes_value s ≡ false
unfolding takes_value starts_with ◌==◌
takes_value-dash [] h = refl
takes_value-dash (c ∷ s) h = ground arith

-- The argument begins with a hyphen, and the next one is not its value.
abbrev IsFlag : Text → Type 0
IsFlag s = (takes_value s ≡ false) × (starts_with (codes "-") s ≡ true)

plain_words-IsFlag : All IsFlag plain_words
unfolding takes_value starts_with ◌==◌
plain_words-IsFlag = (
  (refl, refl),
  (
    (refl, refl),
    (
      (refl, refl),
      (
        (refl, refl),
        (
          (refl, refl),
          (
            (refl, refl),
            (
              (refl, refl),
              (
                (refl, refl),
                ((refl, refl), ((refl, refl), ((refl, refl), ((refl, refl), ((refl, refl), tt))))),
              ),
            ),
          ),
        ),
      ),
    ),
  ),
)

joined_words-IsFlag : (value : Text) → All (λ name. IsFlag (name ++ value)) joined_words
unfolding takes_value starts_with ◌==◌
joined_words-IsFlag value =
    ((refl, refl), ((refl, refl), ((refl, refl), ((refl, refl), ((refl, refl), tt)))))

valued_words-lem : All (λ name. takes_value name ≡ true) valued_words
unfolding takes_value ◌==◌
valued_words-lem = (refl, (refl, (refl, (refl, tt))))

subcommand_behind :
    (option : Text) (args : List Text)
    → IsFlag option
    → subcommand_from false (option ∷ args) ≡ subcommand_from false args
unfolding subcommand_from
subcommand_behind option args (unvalued, dash) = rw (unvalued, dash) refl

-- The options before the subcommand are passed by.
pub subcommand_lem :
    {options : List Text} (subcommand : Text) (rest : List Text)
    → GlobalOptions options
    → starts_with (codes "-") subcommand ≡ false
    → subcommand_from false (options ++ subcommand ∷ rest) ≡ (some subcommand, rest)
unfolding subcommand_from
subcommand_lem subcommand rest GlobalOptions.nothing h = rw (takes_value-dash subcommand h, h) refl
subcommand_lem subcommand rest (GlobalOptions.plain option more m g) h =
    subcommand_behind option (more ++ subcommand ∷ rest)
      (member-All IsFlag plain_words option plain_words-IsFlag m)
    ∙ subcommand_lem subcommand rest g h
subcommand_lem subcommand rest (GlobalOptions.joined name value more m g) h =
    subcommand_behind (name ++ value) (more ++ subcommand ∷ rest)
      (member-All (λ name. IsFlag (name ++ value)) joined_words name (joined_words-IsFlag value) m)
    ∙ subcommand_lem subcommand rest g h
subcommand_lem subcommand rest (GlobalOptions.valued name value more m g) h =
    rw (member-All (λ n. takes_value n ≡ true) valued_words name valued_words-lem m)
      (subcommand_lem subcommand rest g h)
