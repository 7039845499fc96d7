-- ===== src/Core/Delivery.antt =====
-- `DeliveryLifecycle` of packages/core/src/delivery-lifecycle.ts over the state as it is stored. Each
-- call loads the state and writes it at the revision that it loaded, so that the write meets what
-- was loaded unless another writer came between: `transact` then refuses it. The check of the
-- approvals is the caller's, and its result an argument.
use dsh_backend_team.Base.{
  ℕ, ◌≡◌, refl, Bool, true, false, not, ◌&&◌, nat_eq, Option, none, some, is_some, List, [], ◌∷◌,
  arith, if◌then◌else◌,
}
use dsh_backend_team.Core.Phase.{Phase, phase_order, can_transition, same_phase}
use dsh_backend_team.Core.State.{
  BackendTeamState, FinalVerification, StateError, Stored, commit, transact_at, transact,
}

unfoldable pub fail_if :
    Bool
    → StateError
    → Option BackendTeamState
    → Stored × Option BackendTeamState
    → Stored × Option BackendTeamState
fail_if true e store rest = (Stored.refused e, store)
fail_if false e store rest = rest

-- `requireState`
abbrev pub require_state :
    Option BackendTeamState
    → (BackendTeamState → Stored × Option BackendTeamState)
    → Stored × Option BackendTeamState
require_state none k = (Stored.refused StateError.not_created, none)
require_state (some state) k = k state

abbrev pub begun : BackendTeamState → BackendTeamState
begun current = record current { phase = Phase.verify; final_verification = none }

unfoldable pub begin : Bool → Option BackendTeamState → Stored × Option BackendTeamState
begin approved store = fail_if (not approved) StateError.approval_missing store (
    require_state store (λ state.
      fail_if
        (not (same_phase state.phase Phase.build) && not (same_phase state.phase Phase.verify))
        StateError.not_in_development store
        (fail_if
          (not (same_phase state.phase Phase.verify)
            && not (can_transition state.phase Phase.verify))
          StateError.illegal_transition store (transact state.revision begun store))))

abbrev pub outcome_phase : FinalVerification → Phase
outcome_phase r = if r.delivery_ready then Phase.deliver else Phase.verify

abbrev pub finished_as : FinalVerification → BackendTeamState → BackendTeamState
finished_as r current = record current { phase = outcome_phase r; final_verification = some r }

unfoldable pub finish :
    FinalVerification → Bool → Option BackendTeamState → Stored × Option BackendTeamState
finish r approved store = fail_if (not approved) StateError.approval_missing store (
    require_state store (λ state.
      fail_if (not (same_phase state.phase Phase.verify)) StateError.not_in_verification store (
        fail_if
          (not (same_phase (outcome_phase r) state.phase)
            && not (can_transition state.phase (outcome_phase r)))
          StateError.illegal_transition store (transact state.revision (finished_as r) store))))

abbrev pub without_verification : BackendTeamState → BackendTeamState
without_verification current = record current {
  phase = if same_phase current.phase Phase.deliver then Phase.verify else current.phase;
  final_verification = none;
}

unfoldable pub invalidate : Option BackendTeamState → Stored × Option BackendTeamState
invalidate store = require_state store (λ state.
    if not (is_some state.final_verification)
    then (Stored.stored state, store)
    else fail_if
        (same_phase state.phase Phase.deliver && not (can_transition state.phase Phase.verify))
        StateError.illegal_transition store (transact state.revision without_verification store))

-- A delivered task has a final verification, and one that says that it is ready.
abbrev pub IsDelivered : BackendTeamState → Type 0
IsDelivered s =
    s.phase ≡ Phase.deliver
    → (r : FinalVerification) × ((s.final_verification ≡ some r) × (r.delivery_ready ≡ true))

abbrev pub Kept : Option BackendTeamState → Type 0
Kept none = Unit
Kept (some s) = IsDelivered s

-- A call of the lifecycle.
pub data DeliveryCall : Type 0 where
  begins : Bool → DeliveryCall
  finishes : FinalVerification → Bool → DeliveryCall
  invalidates : DeliveryCall

unfoldable pub delivery_after : DeliveryCall → Option BackendTeamState → Option BackendTeamState
delivery_after (DeliveryCall.begins approved) store = (begin approved store).1
delivery_after (DeliveryCall.finishes r approved) store = (finish r approved store).1
delivery_after DeliveryCall.invalidates store = (invalidate store).1

-- The same of what a call leaves stored.
record StoresKept (o : Stored × Option BackendTeamState) : Type 0 where
  kept : Kept o.1

transact-Kept :
    (n : ℕ) (f : BackendTeamState → BackendTeamState) (s : BackendTeamState)
    → IsDelivered s
    → IsDelivered (f s)
    → StoresKept (transact n f (some s))
unfolding transact
transact-Kept n f s h k = go (nat_eq s.revision n)
  where
    made : (b : Bool) → Kept (commit b (f s) s.revision (some s)).1
    made true = k
    made false = h

    go : (b : Bool) → StoresKept (transact_at b n f s)
    go true = record { kept = made (nat_eq (f s).revision s.revision) }
    go false = record { kept = h }

fail_if-Kept :
    (b : Bool) (e : StateError) (store : Option BackendTeamState)
    (rest : Stored × Option BackendTeamState)
    → Kept store
    → StoresKept rest
    → StoresKept (fail_if b e store rest)
unfolding fail_if
fail_if-Kept true e store rest h k = record { kept = h }
fail_if-Kept false e store rest h k = k

finished_as-IsDelivered :
    (r : FinalVerification) (s : BackendTeamState) → IsDelivered (finished_as r s)
finished_as-IsDelivered r s = go r.delivery_ready refl
  where
    go :
        (b : Bool)
        → r.delivery_ready ≡ b
        → (if b then Phase.deliver else Phase.verify) ≡ Phase.deliver
        → (q : FinalVerification) × ((some r ≡ some q) × (q.delivery_ready ≡ true))
    go true e h = (r, (refl, e))
    go false e h = absurd (ground arith)

without_verification-IsDelivered : (s : BackendTeamState) → IsDelivered (without_verification s)
unfolding phase_order
without_verification-IsDelivered s = go s.phase
  where
    go :
        (p : Phase)
        → (if same_phase p Phase.deliver then Phase.verify else p) ≡ Phase.deliver
        → (r : FinalVerification) × ((◌≡◌ {A = Option FinalVerification} none (some r))
            × (r.delivery_ready ≡ true))
    go p h = absurd (ground arith)

invalidate-Kept : (store : Option BackendTeamState) → Kept store → StoresKept (invalidate store)
unfolding invalidate
invalidate-Kept none h = record { kept = tt }
invalidate-Kept (some s) h = go (not (is_some s.final_verification))
  where
    go :
        (b : Bool)
        → StoresKept (
            if b
            then (Stored.stored s, some s)
            else fail_if
                (same_phase s.phase Phase.deliver && not (can_transition s.phase Phase.verify))
                StateError.illegal_transition
                (some s)
                (transact s.revision without_verification (some s)))
    go true = record { kept = h }
    go false =
        fail_if-Kept _ _ (some s) _ h
          (transact-Kept s.revision without_verification s h (without_verification-IsDelivered s))

begin-Kept :
    (approved : Bool) (store : Option BackendTeamState)
    → Kept store
    → StoresKept (begin approved store)
unfolding begin
begin-Kept approved none h = fail_if-Kept (not approved) _ none _ tt (record { kept = tt })
begin-Kept approved (some s) h = fail_if-Kept (not approved) _ (some s) _ h (
    fail_if-Kept _ _ (some s) _ h (
      fail_if-Kept _ _ (some s) _ h
        (transact-Kept s.revision begun s h (λ e. absurd (ground arith)))))

finish-Kept :
    (r : FinalVerification) (approved : Bool) (store : Option BackendTeamState)
    → Kept store
    → StoresKept (finish r approved store)
unfolding finish
finish-Kept r approved none h = fail_if-Kept (not approved) _ none _ tt (record { kept = tt })
finish-Kept r approved (some s) h = fail_if-Kept (not approved) _ (some s) _ h (
    fail_if-Kept _ _ (some s) _ h (
      fail_if-Kept _ _ (some s) _ h
        (transact-Kept s.revision (finished_as r) s h (finished_as-IsDelivered r s))))

unfoldable pub delivery_after_all :
    List DeliveryCall → Option BackendTeamState → Option BackendTeamState
delivery_after_all [] store = store
delivery_after_all (c ∷ cs) store = delivery_after_all cs (delivery_after c store)

delivery_after-Kept :
    (c : DeliveryCall) (store : Option BackendTeamState)
    → Kept store
    → Kept (delivery_after c store)
unfolding delivery_after
delivery_after-Kept (DeliveryCall.begins approved) store h = (begin-Kept approved store h).kept
delivery_after-Kept (DeliveryCall.finishes r approved) store h =
    (finish-Kept r approved store h).kept
delivery_after-Kept DeliveryCall.invalidates store h = (invalidate-Kept store h).kept

-- No sequence of calls makes a task delivered without a final verification that says that it is
-- ready, if it was not so before: a start and an invalidation take the delivery back with the
-- verification, and only a verification that is ready delivers.
pub delivery_after_all-Kept :
    (cs : List DeliveryCall) (store : Option BackendTeamState)
    → Kept store
    → Kept (delivery_after_all cs store)
unfolding delivery_after_all
delivery_after_all-Kept [] store h = h
delivery_after_all-Kept (c ∷ cs) store h =
    delivery_after_all-Kept cs (delivery_after c store) (delivery_after-Kept c store h)
