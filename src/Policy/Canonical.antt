-- ===== src/Policy/Canonical.antt =====
-- What a canonical target of packages/policy-engine/src/canonical-path.ts is, and what the test of its parent
-- in policy-engine.ts checks.
use mathlib.Core.Path.{subst}
use mathlib.Core.List.{append_assoc, append-nil, reverse, reverse-cons, reverse-reverse}
use dsh_backend_team.Base.{
  ◌≡◌, refl, sym, ap, ◌∙◌, ◌⊎◌, inl, inr, Bool, true, false, Option, none, some, List, [], ◌∷◌,
  ◌++◌, Text, codes, ◌==◌, ==_iff, Bool-cases, starts_with, arith,
}
use dsh_backend_team.Base.Outcomes.{
  Outcome, ok, err, Ensures, bind-Ensures, bind_eq-Ensures, throw_if-Ensures,
}
use dsh_backend_team.Policy.Actions.{Host}
use dsh_backend_team.Policy.Paths.{absolute, dirname, resolve, resolved_parts}
use dsh_backend_team.Policy.Targets.{
  Entry, FileSystem, PathError, real, parent_or_error, is_validated_basename,
  nearest_existing_parent, appended, canonicalize_target_path,
}
use dsh_backend_team.Policy.Engine.{names, exists, has_safe_existing_parent}

module _ (fs : FileSystem) where
  -- No path is there that goes on from the first parts by some of the segments.
  abbrev pub AreGone : List Text → List Text → Type 0
  AreGone above [] = Unit {0}
  AreGone above (s ∷ segments) =
      (fs.lstat (absolute (above ++ s ∷ [])) ≡ Entry.missing) × AreGone (above ++ s ∷ []) segments

  -- The path is the longest one that is there of those with the first of the parts.
  record IsNearest (parts : List Text) (nearest : Text × List Text) : Type 0 where
    pub above : List Text
    pub path : nearest.0 ≡ absolute above
    pub split : parts ≡ above ++ nearest.1
    pub found : fs.lstat (absolute above) ≡ Entry.present
    pub gone : AreGone above nearest.1

  nearest_existing_parent-IsNearest :
      (above segments : List Text)
      → AreGone (reverse above) segments
      → Ensures (IsNearest (reverse above ++ segments)) (nearest_existing_parent fs above segments)
  unfolding nearest_existing_parent
  nearest_existing_parent-IsNearest [] segments g = go (fs.lstat (codes "/")) refl
    where
      go :
          (e : Entry)
          → fs.lstat (codes "/") ≡ e
          → Ensures
              (IsNearest segments)
              (parent_or_error e false (codes "/") segments (err PathError.unsafe))
      go Entry.present q = record { above = []; path = refl; split = refl; found = q; gone = g }
      go Entry.missing q = tt
      go Entry.failing q = tt
  nearest_existing_parent-IsNearest (s ∷ above) segments g =
      go (fs.lstat (absolute (reverse (s ∷ above)))) (is_validated_basename s) refl
        (nearest_existing_parent-IsNearest above (s ∷ segments))
    where
      last : reverse (s ∷ above) ≡ reverse above ++ s ∷ []
      last = reverse-cons s above

      whole : reverse above ++ s ∷ segments ≡ reverse (s ∷ above) ++ segments
      whole =
          sym (append_assoc (reverse above) (s ∷ []) segments) ∙ ap (λ l. l ++ segments) (sym last)

      go :
          (e : Entry) (valid : Bool)
          → fs.lstat (absolute (reverse (s ∷ above))) ≡ e
          → (AreGone (reverse above) (s ∷ segments)
              → Ensures
                  (IsNearest (reverse above ++ s ∷ segments))
                  (nearest_existing_parent fs above (s ∷ segments)))
          → Ensures (IsNearest (reverse (s ∷ above) ++ segments)) (
              parent_or_error e valid
                (absolute (reverse (s ∷ above)))
                segments
                (nearest_existing_parent fs above (s ∷ segments)))
      go Entry.present valid q k = record {
        above = reverse (s ∷ above);
        path = refl;
        split = refl;
        found = q;
        gone = g;
      }
      go Entry.failing valid q k = tt
      go Entry.missing false q k = tt
      go Entry.missing true q k =
          subst (λ l. Ensures (IsNearest l) (nearest_existing_parent fs above (s ∷ segments))) whole
            (k (
              subst (λ l. fs.lstat (absolute l) ≡ Entry.missing) last q,
              subst (λ l. AreGone l segments) last g,
            ))

real-eq : (fs : FileSystem) (path r : Text) → real fs path ≡ ok r → fs.realpath path ≡ some r
unfolding real
real-eq fs path r h = go (fs.realpath path) h
  where
    go :
        (o : Option Text)
        → elim o as (λ _. Outcome PathError Text) [
          | none ↦ err PathError.file_system
          | some q ↦ ok q
        ]
          ≡ ok r
        → o ≡ some r
    go none h = absurd (ground arith)
    go (some q) h = let same : q ≡ r = cc in ap some same

module _ (host : Host) (fs : FileSystem) where
  -- The target is the requested path, from the real path of the workspace, with its longest part
  -- that is there replaced by what the file system resolves that to, links included.
  pub record IsCanonical (workspace_root requested target : Text) : Type 0 where
    pub root : Text
    pub rooted : fs.realpath workspace_root ≡ some root
    pub above : List Text
    pub segments : List Text
    pub parent : Text
    pub split : resolved_parts host.process_cwd root requested ≡ above ++ segments
    pub found : fs.lstat (absolute above) ≡ Entry.present
    pub gone : AreGone fs above segments
    pub resolved : fs.realpath (absolute above) ≡ some parent
    pub built : target ≡ appended host parent segments

  pub canonicalize_target_path-IsCanonical :
      (workspace_root requested : Text)
      → Ensures
          (IsCanonical workspace_root requested)
          (canonicalize_target_path host fs workspace_root requested)
  unfolding canonicalize_target_path
  canonicalize_target_path-IsCanonical workspace_root requested =
      let P = IsCanonical workspace_root requested in
      throw_if-Ensures P _ _ _ (λ a. throw_if-Ensures P _ _ _ (λ b. throw_if-Ensures P _ _ _ (λ c.
        bind_eq-Ensures P (real fs workspace_root) _ (λ root r.
          let parts = resolved_parts host.process_cwd root requested in
          bind-Ensures (IsNearest fs (reverse (reverse parts) ++ [])) P
            (nearest_existing_parent fs (reverse parts) []) _
            (nearest_existing_parent-IsNearest fs (reverse parts) [] tt)
            (λ nearest n. bind_eq-Ensures P (real fs nearest.0) _ (λ parent p.
              throw_if-Ensures P _ _ _ (λ within. record {
                root = root;
                rooted = real-eq fs workspace_root root r;
                above = n.above;
                segments = nearest.1;
                parent = parent;
                split =
                    sym (append-nil (reverse (reverse parts)) ∙ reverse-reverse parts) ∙ n.split;
                found = n.found;
                gone = n.gone;
                resolved = ap fs.realpath (sym n.path) ∙ real-eq fs nearest.0 parent p;
                built = refl;
              })))))))

  -- The parent of the target is a directory that is there, its own real path, and the root or a
  -- path in it; and it is the parent of the requested path.
  pub record HasSafeParent (requested target root : Text) : Type 0 where
    pub is_there : fs.lstat (dirname target) ≡ Entry.present
    pub directory : fs.is_directory (dirname target) ≡ true
    pub unlinked : fs.realpath (dirname target) ≡ some (dirname target)
    pub inside : (dirname target ≡ root) ⊎ (starts_with (root ++ codes "/") (dirname target) ≡ true)
    pub requested_parent : dirname (resolve host.process_cwd root requested) ≡ dirname target

  exists-eq : (e : Entry) → exists e ≡ true → e ≡ Entry.present
  exists-eq Entry.present h = refl
  exists-eq Entry.missing h = absurd (ground arith)
  exists-eq Entry.failing h = absurd (ground arith)

  names-eq : (o : Option Text) (path : Text) → names o path ≡ true → o ≡ some path
  names-eq none path h = absurd (ground arith)
  names-eq (some r) path h = ap some ((==_iff r path).0 h)

  pub has_safe_existing_parent-HasSafeParent :
      (requested target root : Text)
      → has_safe_existing_parent host fs requested target root ≡ true
      → HasSafeParent requested target root
  unfolding has_safe_existing_parent
  has_safe_existing_parent-HasSafeParent requested target root h = record {
    is_there = exists-eq (fs.lstat (dirname target)) (ground arith);
    directory = ground arith;
    unlinked = names-eq (fs.realpath (dirname target)) (dirname target) (ground arith);
    inside = elim (Bool-cases (dirname target == root)) [
      | inl same ↦ inl ((==_iff (dirname target) root).0 same)
      | inr other ↦ inr (ground arith)
    ];
    requested_parent =
        (==_iff (dirname (resolve host.process_cwd root requested)) (dirname target)).0
          (ground arith);
  }
