-- ===== src/Core/Tests.antt =====
-- Runs of packages/core, and its theorems at concrete inputs.
use dsh_backend_team.Base.{
  ◌≡◌, refl, ◌+◌, ◌≤◌, true, none, some, List, [], ◌∷◌, Text, codes, ltb, arith,
}
use dsh_backend_team.Core.Phase.{
  Phase, ApprovalGate, Run, passed, phase_order, phase_awaiting_approval, can_transition,
  Run-passed,
}
use dsh_backend_team.Core.State.{
  ApprovalKind, ApprovalRecord, BackendTeamState, FinalVerification, StateError, Stored, transact,
  transact-twice,
}
use dsh_backend_team.Core.Delivery.{DeliveryCall, Kept, delivery_after_all, delivery_after_all-Kept}
use dsh_backend_team.Core.Invalidation.{invalidate_changed_artifacts, invalidate-phase_order}

design-Run :
    Run Phase.discover Phase.design
      (Phase.await_requirements_approval ∷ Phase.specify ∷ Phase.discover ∷ [])
unfolding can_transition phase_order
design-Run =
    Run.step
      (Run.step (Run.step Run.here Phase.specify refl) Phase.await_requirements_approval refl)
      Phase.design refl

past_gate :
    ltb (phase_order (phase_awaiting_approval ApprovalGate.requirements)) (phase_order Phase.design)
    ≡ true
unfolding phase_order
past_gate = refl

Run-passed_example :
    passed
      (phase_awaiting_approval ApprovalGate.requirements)
      (Phase.await_requirements_approval ∷ Phase.specify ∷ Phase.discover ∷ [])
    ≡ true
Run-passed_example = Run-passed ApprovalGate.requirements design-Run past_gate

abbrev approval : ApprovalKind → ApprovalRecord
approval kind = record {
  kind = kind;
  artifact_hashes = [];
  approved_at = codes "t";
  token_id = codes "k";
}

abbrev building : BackendTeamState
building = record {
  revision = 4;
  workspace_root = codes "/w";
  phase = Phase.verify;
  final_verification = none;
  runs = [];
  approvals = approval ApprovalKind.requirements ∷ approval ApprovalKind.design ∷ [];
  approval_tokens = [];
}

abbrev to_build : BackendTeamState → BackendTeamState
to_build s = record s { phase = Phase.build }

transact_run :
    (transact 4 to_build (some building)).0
    ≡ Stored.stored (record building { revision = 5; phase = Phase.build })
unfolding transact
transact_run = refl

transact_example : transact 4 to_build (transact 4 to_build (some building)).1 ≡ (
  Stored.refused (StateError.revision_conflict 4 (4 + 1)),
  some (record building { revision = 5; phase = Phase.build }),
)
transact_example =
    transact-twice 4 to_build to_build (some building)
      (record building { revision = 5; phase = Phase.build }) transact_run

abbrev ready_report : FinalVerification
ready_report = record { delivery_ready = true; digest = codes "d" }

abbrev delivery_calls : List DeliveryCall
delivery_calls = DeliveryCall.begins true ∷ DeliveryCall.finishes ready_report true ∷ []

building-Kept : Kept (some building)
building-Kept h = absurd (ground (arith))

delivery_example : Kept (delivery_after_all delivery_calls (some building))
delivery_example = delivery_after_all-Kept delivery_calls (some building) building-Kept

abbrev edited : List Text
edited = codes "specs/1/plan.md" ∷ codes "src/main.ts" ∷ []

invalidate_order_example :
    phase_order (invalidate_changed_artifacts building edited).phase ≤ phase_order building.phase
invalidate_order_example = invalidate-phase_order building edited
