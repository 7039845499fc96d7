-- ===== src/Core/Phase.antt =====
-- The phases of packages/core/src/state-machine.ts, with the order of artifact-invalidation.ts.
use dsh_backend_team.Base.{
  ℕ, ◌≡◌, refl, Bool, true, false, ◌||◌, List, [], ◌∷◌, any, nat_eq, ltb, arith,
}

pub data Phase : Type 0 where
  discover : Phase
  specify : Phase
  await_requirements_approval : Phase
  design : Phase
  await_design_approval : Phase
  plan : Phase
  build : Phase
  verify : Phase
  deliver : Phase

-- The table `NEXT`
abbrev pub next : Phase → List Phase
next Phase.discover = Phase.specify ∷ []
next Phase.specify = Phase.await_requirements_approval ∷ []
next Phase.await_requirements_approval = Phase.specify ∷ Phase.design ∷ []
next Phase.design = Phase.await_design_approval ∷ []
next Phase.await_design_approval = Phase.design ∷ Phase.plan ∷ []
next Phase.plan = Phase.build ∷ []
next Phase.build = Phase.verify ∷ []
next Phase.verify = Phase.build ∷ Phase.deliver ∷ []
next Phase.deliver = Phase.verify ∷ []

-- `phaseOrder`, the index in `PHASE_ORDER`
unfoldable pub phase_order : Phase → ℕ
phase_order Phase.discover = 0
phase_order Phase.specify = 1
phase_order Phase.await_requirements_approval = 2
phase_order Phase.design = 3
phase_order Phase.await_design_approval = 4
phase_order Phase.plan = 5
phase_order Phase.build = 6
phase_order Phase.verify = 7
phase_order Phase.deliver = 8

-- `a === b`
abbrev pub same_phase : Phase → Phase → Bool
same_phase a b = nat_eq (phase_order a) (phase_order b)

-- Whether `assertTransition` returns.
unfoldable pub can_transition : Phase → Phase → Bool
can_transition from to = any (λ p. same_phase p to) (next from)

pub data ApprovalGate : Type 0 where
  requirements : ApprovalGate
  design : ApprovalGate

abbrev pub phase_awaiting_approval : ApprovalGate → Phase
phase_awaiting_approval ApprovalGate.requirements = Phase.await_requirements_approval
phase_awaiting_approval ApprovalGate.design = Phase.await_design_approval

abbrev pub phase_after_approval : ApprovalGate → Phase
phase_after_approval ApprovalGate.requirements = Phase.design
phase_after_approval ApprovalGate.design = Phase.plan

-- A run of allowed transitions, and the phases that it leaves.
pub data Run (start : Phase) : Phase → List Phase → Type 0 where
  here : Run start start []
  step :
      {p : Phase} {left : List Phase}
      → Run start p left
      → (q : Phase) → can_transition p q ≡ true
      → Run start q (p ∷ left)

abbrev pub passed : Phase → List Phase → Bool
passed p left = any (λ q. same_phase p q) left

-- A transition that gets past a gate's phase starts in that phase or behind it.
step_order :
    (g : ApprovalGate) (p q : Phase)
    → can_transition p q ≡ true
    → ltb (phase_order (phase_awaiting_approval g)) (phase_order q) ≡ true
    → (same_phase (phase_awaiting_approval g) p
        || ltb (phase_order (phase_awaiting_approval g)) (phase_order p))
      ≡ true
unfolding can_transition phase_order
step_order g p q h k = ground arith

before_gates :
    (g : ApprovalGate)
    → ltb (phase_order (phase_awaiting_approval g)) (phase_order Phase.discover) ≡ false
unfolding phase_order
before_gates ApprovalGate.requirements = refl
before_gates ApprovalGate.design = refl

either_holds : (a b c : Bool) → (a || b) ≡ true → (b ≡ true → c ≡ true) → (a || c) ≡ true
either_holds true b c h k = refl
either_holds false b c h k = k h

-- A run of transitions from the start that gets past the phase of a gate has left that phase: no
-- design without the requirements' gate, and no plan, build or delivery without both.
pub Run-passed :
    {p : Phase} {left : List Phase} (g : ApprovalGate)
    → Run Phase.discover p left
    → ltb (phase_order (phase_awaiting_approval g)) (phase_order p) ≡ true
    → passed (phase_awaiting_approval g) left ≡ true
Run-passed g Run.here h = absurd (cc (before_gates g))
Run-passed g (Run.step {p = p} {left = left} r q t) h =
    either_holds (same_phase (phase_awaiting_approval g) p) _
      (passed (phase_awaiting_approval g) left) (step_order g p q t h) (Run-passed g r)
