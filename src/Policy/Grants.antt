-- ===== src/Policy/Grants.antt =====
-- What a grant of `preflightOwnedWrite` of packages/policy-engine/src/policy-engine.ts is worth.
use dsh_backend_team.Policy.Canonical.{
  canonicalize_target_path-IsCanonical, has_safe_existing_parent-HasSafeParent, HasSafeParent,
  IsCanonical,
}
use dsh_backend_team.Core.Phase.{Phase}
use dsh_backend_team.Base.{
  ◌⊎◌, ◌≡◌, refl, sym, Bool, true, false, Option, none, some, List, [], ◌∷◌, ◌++◌, Text, codes,
  ==_iff, arith,
}
use dsh_backend_team.Base.Outcomes.{
  Outcome, ok, err, Ensures, bind_eq-Ensures, bind_any-Ensures, throw_if-Ensures,
}
use dsh_backend_team.Policy.Actions.{PolicyAction, PolicyContext, PolicyDecision, Host}
use dsh_backend_team.Policy.Paths.{resolved_parts}
use dsh_backend_team.Policy.Targets.{
  FileSystem, PathError, real, has_prefix, is_within, canonicalize_target_path,
}
use dsh_backend_team.Policy.Rules.{evaluate_rules}
use dsh_backend_team.Policy.Rules.Decisions.{is_allow}
use dsh_backend_team.Policy.Engine.{
  Prepared, Verifier, normalize, prepared_in, is_owned_write_phase, canonicalized, is_granted_write,
  granted_or_not, preflight_owned_write, preflight_normal,
}

has_prefix-rest :
    (root target : List Text)
    → has_prefix root target ≡ true
    → (rest : List Text) × (target ≡ root ++ rest)
unfolding has_prefix
has_prefix-rest [] target h = (target, refl)
has_prefix-rest (r ∷ root) [] h = absurd (ground arith)
has_prefix-rest (r ∷ root) (t ∷ target) h =
    let (rest, e) = has_prefix-rest root target (ground arith) in
    let same : t ≡ r = sym ((==_iff r t).0 (ground arith)) in (rest, λ i. same i ∷ e i)

true_is_false : true ≡ false → ⊥
true_is_false e = cc

module _ (host : Host) (fs : FileSystem) where
  -- The target lies in the real root: its parts are those of the root and then its own.
  pub record IsInside (workspace_root target : Text) : Type 0 where
    pub root : Text
    pub rest : List Text
    pub rooted : real fs workspace_root ≡ ok root
    pub parts :
        resolved_parts host.process_cwd (codes "/") target
        ≡ resolved_parts host.process_cwd (codes "/") root ++ rest

  -- A target that gets a canonical form lies in the workspace, whatever links are on the way.
  pub canonicalize_target_path-IsInside :
      (workspace_root target_path : Text)
      → Ensures
          (IsInside workspace_root)
          (canonicalize_target_path host fs workspace_root target_path)
  unfolding canonicalize_target_path is_within
  canonicalize_target_path-IsInside workspace_root target_path =
      let P = IsInside workspace_root in
      throw_if-Ensures P _ _ _ (λ a. throw_if-Ensures P _ _ _ (λ b. throw_if-Ensures P _ _ _ (λ c.
        bind_eq-Ensures P (real fs workspace_root) _ (λ root r. bind_any-Ensures P _ _ (λ nearest.
          bind_any-Ensures P _ _ (λ parent. throw_if-Ensures P _ _ _ (λ within.
            let (rest, e) = has_prefix-rest _ _ (ground (arith, within)) in
            record { root = root; rest = rest; rooted = r; parts = e })))))))

  -- What is granted
  pub record IsGranted (verifier : Option Verifier) (action : PolicyAction)
      (context : PolicyContext) (decision : PolicyDecision) : Type 0 where
    pub requested : Text
    pub target : Text
    pub root : Text
    pub verify : Verifier
    pub is_write : action ≡ PolicyAction.write requested
    pub rooted : fs.realpath context.workspace_root ≡ some root
    pub inside : IsInside root target
    pub canonical : IsCanonical host fs root requested target
    pub owned : (context.phase ≡ Phase.build) ⊎ (context.phase ≡ Phase.verify)
    pub parent : HasSafeParent host fs requested target root
    pub verifies : verifier ≡ some verify
    pub approved : verify (PolicyAction.write target) target context.phase ≡ true
    pub told : decision.canonical_target_path ≡ some target

  owned_phase :
      (phase : Phase)
      → is_owned_write_phase phase ≡ true
      → (phase ≡ Phase.build) ⊎ (phase ≡ Phase.verify)
  owned_phase phase h = ground arith

  granted_parts :
      (verifier : Option Verifier) (requested : Text) (p : Prepared) (decision : PolicyDecision)
      (target : Text)
      → is_granted_write host fs verifier requested p decision target ≡ true
      → ((p.context.phase ≡ Phase.build) ⊎ (p.context.phase ≡ Phase.verify))
        × (HasSafeParent host fs requested target p.context.workspace_root
            × ((verify : Verifier) × ((verifier ≡ some verify)
                  × (verify p.action target p.context.phase ≡ true))))
  unfolding is_granted_write
  granted_parts none requested p decision target g = absurd (ground arith)
  granted_parts (some verify) requested p decision target g = (
    owned_phase p.context.phase (ground arith),
    (
      has_safe_existing_parent-HasSafeParent host fs requested target p.context.workspace_root
          (ground arith),
      (verify, (refl, ground arith)),
    ),
  )

  abbrev is_write : PolicyAction → Bool
  is_write (PolicyAction.write target) = true
  is_write _ = false

  -- Nothing but a write is allowed.
  only_writes :
      (verifier : Option Verifier) (action : PolicyAction) (o : Option Prepared)
      → is_write action ≡ false
      → is_allow (preflight_normal host fs verifier action o).effect ≡ true
      → true ≡ false
  only_writes verifier (PolicyAction.write target) o w h = ground arith
  only_writes verifier (PolicyAction.read target) none w h = ground arith
  only_writes verifier (PolicyAction.read target) (some p) w h = ground arith
  only_writes verifier (PolicyAction.delete target) none w h = ground arith
  only_writes verifier (PolicyAction.delete target) (some p) w h = ground arith
  only_writes verifier (PolicyAction.install packages) none w h = ground arith
  only_writes verifier (PolicyAction.install packages) (some p) w h = ground arith
  only_writes verifier (PolicyAction.migration target) none w h = ground arith
  only_writes verifier (PolicyAction.migration target) (some p) w h = ground arith
  only_writes verifier (PolicyAction.shared_config target) none w h = ground arith
  only_writes verifier (PolicyAction.shared_config target) (some p) w h = ground arith
  only_writes verifier (PolicyAction.database url) none w h = ground arith
  only_writes verifier (PolicyAction.database url) (some p) w h = ground arith
  only_writes verifier (PolicyAction.command c) none w h = ground arith
  only_writes verifier (PolicyAction.command c) (some p) w h = ground arith

  -- A write is allowed before it is made only in the phases of building and verifying, and where
  -- the host's verifier grants its target. The target, which the decision names, is the requested
  -- path with its longest part that is there resolved through all links, lies in the real
  -- workspace, and has for its parent a directory of the workspace that is its own real path and the
  -- parent of the requested path. Nothing but a write is allowed.
  pub preflight_owned_write-IsGranted :
      (verifier : Option Verifier) (action : PolicyAction) (context : PolicyContext)
      → is_allow (preflight_owned_write host fs verifier action context).effect ≡ true
      → IsGranted verifier action context (preflight_owned_write host fs verifier action context)
  unfolding preflight_owned_write normalize prepared_in
  preflight_owned_write-IsGranted verifier action context =
      rooted action (fs.realpath context.workspace_root) refl
    where
      prepared : Text → Text → Prepared
      prepared root target = record {
        action = PolicyAction.write target;
        context = record context { workspace_root = root };
        canonical_target_path = some target;
      }

      granted :
          (requested root target : Text) (b : Bool)
          → is_granted_write host fs verifier requested
              (prepared root target)
              (evaluate_rules host
                (PolicyAction.write target)
                (record context { workspace_root = root }))
              target
            ≡ b
          → fs.realpath context.workspace_root ≡ some root
          → IsInside root target
          → IsCanonical host fs root requested target
          → is_allow
              (granted_or_not host fs b
                (evaluate_rules host
                  (PolicyAction.write target)
                  (record context { workspace_root = root }))
                target).effect
            ≡ true
          → IsGranted verifier (PolicyAction.write requested) context (
              granted_or_not host fs b
                (evaluate_rules host
                  (PolicyAction.write target)
                  (record context { workspace_root = root }))
                target)
      granted requested root target false g r i k h = absurd (ground arith)
      granted requested root target true g r i k h =
          let (owned, (parent, (verify, (verifies, approved)))) =
            granted_parts verifier requested (prepared root target)
              (evaluate_rules host (PolicyAction.write target)
                (record context { workspace_root = root }))
              target g in
          record {
            requested = requested;
            target = target;
            root = root;
            verify = verify;
            is_write = refl;
            rooted = r;
            inside = i;
            canonical = k;
            owned = owned;
            parent = parent;
            verifies = verifies;
            approved = approved;
            told = refl;
          }

      written :
          (requested root : Text) (o : Outcome PathError Text)
          → fs.realpath context.workspace_root ≡ some root
          → Ensures (IsInside root) o
          → Ensures (IsCanonical host fs root requested) o
          → is_allow
              (preflight_normal host fs verifier (PolicyAction.write requested) (
                canonicalized
                  (PolicyAction.write requested)
                  (record context { workspace_root = root })
                  o)).effect
            ≡ true
          → IsGranted verifier (PolicyAction.write requested) context (
              preflight_normal host fs verifier (PolicyAction.write requested) (
                canonicalized
                  (PolicyAction.write requested)
                  (record context { workspace_root = root })
                  o))
      written requested root (err e) r i k h = absurd (ground arith)
      written requested root (ok target) r i k h = granted requested root target _ refl r i k h

      rooted :
          (action : PolicyAction) (o : Option Text)
          → fs.realpath context.workspace_root ≡ o
          → is_allow
              (preflight_normal host fs verifier action (elim o [
                | none ↦ none
                | some root ↦ prepared_in host fs action (record context { workspace_root = root })
              ])).effect
            ≡ true
          → IsGranted verifier action context (
              preflight_normal host fs verifier action (elim o [
                | none ↦ none
                | some root ↦ prepared_in host fs action (record context { workspace_root = root })
              ]))
      rooted action none r h = absurd (ground arith)
      rooted (PolicyAction.write requested) (some root) r h =
          written requested root (canonicalize_target_path host fs root requested) r
            (canonicalize_target_path-IsInside root requested)
            (canonicalize_target_path-IsCanonical host fs root requested) h
      rooted (PolicyAction.read x) (some root) r h = absurd (
          true_is_false (
            only_writes verifier (PolicyAction.read x)
              (prepared_in host fs (PolicyAction.read x) (record context { workspace_root = root }))
              refl h))
      rooted (PolicyAction.delete x) (some root) r h = absurd (
          true_is_false (
            only_writes verifier (PolicyAction.delete x)
              (prepared_in host fs (PolicyAction.delete x)
                (record context { workspace_root = root }))
              refl h))
      rooted (PolicyAction.install x) (some root) r h = absurd (
          true_is_false (
            only_writes verifier (PolicyAction.install x)
              (prepared_in host fs (PolicyAction.install x)
                (record context { workspace_root = root }))
              refl h))
      rooted (PolicyAction.migration x) (some root) r h = absurd (
          true_is_false (
            only_writes verifier (PolicyAction.migration x)
              (prepared_in host fs (PolicyAction.migration x)
                (record context { workspace_root = root }))
              refl h))
      rooted (PolicyAction.shared_config x) (some root) r h = absurd (
          true_is_false (
            only_writes verifier (PolicyAction.shared_config x)
              (prepared_in host fs (PolicyAction.shared_config x)
                (record context { workspace_root = root }))
              refl h))
      rooted (PolicyAction.database x) (some root) r h = absurd (
          true_is_false (
            only_writes verifier (PolicyAction.database x)
              (prepared_in host fs (PolicyAction.database x)
                (record context { workspace_root = root }))
              refl h))
      rooted (PolicyAction.command x) (some root) r h = absurd (
          true_is_false (
            only_writes verifier (PolicyAction.command x)
              (prepared_in host fs (PolicyAction.command x)
                (record context { workspace_root = root }))
              refl h))
