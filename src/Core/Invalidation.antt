-- ===== src/Core/Invalidation.antt =====
-- `phaseForArtifactPath` of packages/core/src/state-machine.ts and `invalidateChangedArtifacts` of
-- packages/core/src/artifact-invalidation.ts.
use dsh_backend_team.Base.{
  ◌≢◌, ends_with, ℕ, ◌+◌, ◌≤◌, Bool, true, false, not, ◌&&◌, ◌||◌, Option, none, some, List, [],
  ◌∷◌, ◌++◌, map, Text, codes, ◌==◌, text_member, filter, nat_eq, ltb, leb, arith, if◌then◌else◌,
}
use dsh_backend_team.Core.Phase.{Phase, phase_order}
use dsh_backend_team.Core.State.{ApprovalRecord, ApprovalKind, BackendTeamState}

-- `replaceAll('\\', '/').toLowerCase()`, on code units whose lower case is in ASCII; any other
-- one stays out of ASCII, so that it never makes up a name below.
abbrev normal_code : ℕ → ℕ
normal_code c =
    if nat_eq c 92
    then 47
    else if leb 65 c && leb c 90
    then c + 32
    else if nat_eq c 8490
    then 107
    else c

-- `split('/').at(-1)`, with the segment read so far.
abbrev last_segment : Text → Text → Text
last_segment seen [] = seen
last_segment seen (c ∷ cs) =
    if nat_eq c 47 then last_segment [] cs else last_segment (seen ++ c ∷ []) cs

pub data ArtifactChangePhase : Type 0 where
  specify : ArtifactChangePhase
  design : ArtifactChangePhase
  plan : ArtifactChangePhase

abbrev design_files : List Text
design_files = map codes (
    "plan.md" ∷ "architecture.md" ∷ "data-model.md" ∷ "test-plan.md" ∷ "research.md"
    ∷ "decisions.md" ∷ [])

unfoldable pub phase_for_artifact_path : Text → Option ArtifactChangePhase
phase_for_artifact_path path =
    let normalized = map normal_code path in
    let file = last_segment [] normalized in
    if file == codes "spec.md" || file == codes "clarification.md"
    then some ArtifactChangePhase.specify
    else if file == codes "tasks.md"
    then some ArtifactChangePhase.plan
    else if text_member file design_files
        || normalized == codes "contracts/openapi.yaml"
        || ends_with (codes "/contracts/openapi.yaml") normalized
    then some ArtifactChangePhase.design
    else none

-- `phaseForInvalidation`, which reads the name as a phase.
abbrev pub phase_for_invalidation : ArtifactChangePhase → Phase
phase_for_invalidation ArtifactChangePhase.specify = Phase.specify
phase_for_invalidation ArtifactChangePhase.design = Phase.design
phase_for_invalidation ArtifactChangePhase.plan = Phase.plan

abbrev pub change_order : ArtifactChangePhase → ℕ
change_order a = phase_order (phase_for_invalidation a)

abbrev add_found : Option ArtifactChangePhase → List ArtifactChangePhase → List ArtifactChangePhase
add_found none rest = rest
add_found (some a) rest = a ∷ rest

unfoldable pub affected_phases : List Text → List ArtifactChangePhase
affected_phases [] = []
affected_phases (path ∷ paths) =
    let rest = affected_phases paths in add_found (phase_for_artifact_path path) rest

-- `reduce((left, right) => phaseOrder(right) < phaseOrder(left) ? right : left)`
unfoldable pub earliest : ArtifactChangePhase → List ArtifactChangePhase → ArtifactChangePhase
earliest left [] = left
earliest left (right ∷ rest) =
    earliest (if ltb (change_order right) (change_order left) then right else left) rest

-- `!invalidKinds.includes(kind)`
unfoldable pub approval_stays : ArtifactChangePhase → ApprovalKind → Bool
approval_stays ArtifactChangePhase.specify ApprovalKind.requirements = false
approval_stays ArtifactChangePhase.specify ApprovalKind.design = false
approval_stays ArtifactChangePhase.design ApprovalKind.design = false
approval_stays _ _ = true

abbrev downstream_run_kinds : ArtifactChangePhase → List Text
downstream_run_kinds ArtifactChangePhase.specify =
    map codes ("design" ∷ "plan" ∷ "build" ∷ "verify" ∷ [])
downstream_run_kinds _ = map codes ("plan" ∷ "build" ∷ "verify" ∷ [])

abbrev run_kind_stays : ArtifactChangePhase → Option Text → Bool
run_kind_stays affected (some kind) = not (text_member kind (downstream_run_kinds affected))
run_kind_stays affected none = false

-- The state that an earliest affected phase leaves. Where nothing changes the code gives back the
-- same object; here that is the same value.
unfoldable pub taken_back : ArtifactChangePhase → BackendTeamState → BackendTeamState
taken_back affected state =
    let target = phase_for_invalidation affected in
    record state {
      phase = if ltb (phase_order target) (phase_order state.phase) then target else state.phase;
      approvals = filter (λ a. approval_stays affected a.kind) state.approvals;
      runs = filter (λ r. run_kind_stays affected r.kind) state.runs;
    }

abbrev invalidate_affected : List ArtifactChangePhase → BackendTeamState → BackendTeamState
invalidate_affected [] state = state
invalidate_affected (a ∷ rest) state = taken_back (earliest a rest) state

unfoldable pub invalidate_changed_artifacts : BackendTeamState → List Text → BackendTeamState
invalidate_changed_artifacts state changed_paths =
    invalidate_affected (affected_phases changed_paths) state

if_min_old :
    (p q : Phase)
    → phase_order (if ltb (phase_order q) (phase_order p) then q else p) ≤ phase_order p
if_min_old p q = ground arith

-- What an edit of a document of some phase leaves of the approvals: of an edited specification
-- neither gate's is left, of an edited design document not the design's.
abbrev pub Withdrawn : ArtifactChangePhase → ApprovalRecord → Type 0
Withdrawn ArtifactChangePhase.specify r =
    (r.kind ≢ ApprovalKind.requirements) × (r.kind ≢ ApprovalKind.design)
Withdrawn ArtifactChangePhase.design r = r.kind ≢ ApprovalKind.design
Withdrawn ArtifactChangePhase.plan r = Unit {0}

-- The approvals that no edit of a document touches.
abbrev pub lasting : ApprovalRecord → Bool
lasting r = elim r.kind [
  | ApprovalKind.requirements ↦ false
  | ApprovalKind.design ↦ false
  | _ ↦ true
]

-- An edit never moves a task to a later phase.
pub invalidate-phase_order :
    (state : BackendTeamState) (paths : List Text)
    → phase_order (invalidate_changed_artifacts state paths).phase ≤ phase_order state.phase
unfolding invalidate_changed_artifacts taken_back
invalidate-phase_order state paths = go (affected_phases paths)
  where
    go :
        (l : List ArtifactChangePhase)
        → phase_order (invalidate_affected l state).phase ≤ phase_order state.phase
    go [] = omega arith
    go (a ∷ rest) = if_min_old state.phase (phase_for_invalidation (earliest a rest))
