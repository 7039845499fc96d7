-- ===== src/Team/Budget/Ledger/Bounds.antt =====
-- No call of packages/agent-team/src/budget-ledger.ts takes a parent beyond its ceiling and
-- leaves it ready.
use dsh_backend_team.Base.{
  ◌≤◌, ◌≡◌, refl, Bool, true, false, Option, none, some, is_some, List, [], ◌∷◌, Text, lookup, set,
  delete, All, set-All, lookup-All, arith,
}
use dsh_backend_team.Team.Budget.{
  AgentBudget, ConsumedBudget, Dimension, zero_usage, add, used, limit_for, exceeded_dimensions,
  held_for, within,
}
use dsh_backend_team.Team.Budget.Ledger.{
  LedgerError, LedgerStatus, BudgetReservation, ReservationState, RecordState, Ledger, Outcome,
  done, sum_held, total_of, snapshot_for, stop_if, require_record, with_record, register_found,
  register, reserve_if, reserve, consume_held, consume, record_usage, record_parent, mark_with,
  mark_exhausted, release_held, release,
}
use dsh_backend_team.Team.Budget.Ledger.Sums.{
  used-add, used-zero, limit_for-remaining_of, within_lem, exceeded_dimensions_lem,
  usage_allowed_lem, used-sum_held-set, used-sum_held-delete,
}

-- A parent that is ready is within its ceiling, in each dimension.
pub record IsWithin (r : RecordState) : Type 0 where
  pub bound :
      r.status ≡ LedgerStatus.ready → (d : Dimension) → used d (total_of r) ≤ limit_for d r.budget

-- Every parent of the ledger is.
abbrev pub AllWithin : Ledger → Type 0
AllWithin l = All (λ e. IsWithin e.1) l.records

-- The same of what a call leaves, whether it returned or threw.
record Keeps {A : Type 0} (o : Outcome A × Ledger) : Type 0 where
  kept : AllWithin o.1

stop_if-Keeps :
    {A : Type 0} (b : Bool) (e : LedgerError) (l : Ledger) (rest : Outcome A × Ledger)
    → AllWithin l
    → (b ≡ false → Keeps rest)
    → Keeps (stop_if b e l rest)
unfolding stop_if
stop_if-Keeps true e l rest h k = record { kept = h }
stop_if-Keeps false e l rest h k = k refl

require_record-Keeps :
    {A : Type 0} (id : Text) (l : Ledger) (k : RecordState → Outcome A × Ledger)
    → AllWithin l
    → ((r : RecordState) → IsWithin r → Keeps (k r))
    → Keeps (require_record (lookup id l.records) l k)
unfolding require_record
require_record-Keeps id l k h f = go (lookup id l.records) refl
  where
    go : (o : Option RecordState) → lookup id l.records ≡ o → Keeps (require_record o l k)
    go none e = record { kept = h }
    go (some r) e = f r (lookup-All IsWithin id r l.records h e)

with_record-Keeps :
    {A : Type 0} (a : Outcome A) (id : Text) (r : RecordState) (l : Ledger)
    → AllWithin l
    → IsWithin r
    → Keeps (a, with_record id r l)
with_record-Keeps a id r l h k = record { kept = set-All (λ e. IsWithin e.1) id r l.records k h }

blocked-IsWithin : (r : RecordState) → r.status ≡ LedgerStatus.exhausted → IsWithin r
blocked-IsWithin r e = record { bound = λ f d. absurd (ground arith) }

register_found-Keeps :
    (o : Option RecordState) (id : Text) (budget : AgentBudget) (l : Ledger)
    → AllWithin l
    → Keeps (register_found id budget o l)
unfolding sum_held
register_found-Keeps none id budget l h =
    with_record-Keeps (done tt) id _ l h
      (record { bound = λ _ d. omega (arith, used-add d zero_usage zero_usage, used-zero d) })
register_found-Keeps (some r) id budget l h =
    stop_if-Keeps _ _ l _ h (λ _. stop_if-Keeps _ _ l _ h (λ _. record { kept = h }))

register-Keeps :
    (id : Text) (budget : AgentBudget) (l : Ledger) → AllWithin l → Keeps (register id budget l)
unfolding register
register-Keeps id budget l h =
    stop_if-Keeps _ _ l _ h
      (λ _. stop_if-Keeps _ _ l _ h (λ _. register_found-Keeps (lookup id l.records) id budget l h))

reserve_if-Keeps :
    (b : Bool) (id child : Text) (budget : AgentBudget) (r : RecordState) (l : Ledger)
    → AllWithin l
    → IsWithin r
    → is_some (lookup child r.reserved) ≡ false
    → within (held_for budget) (snapshot_for r) ≡ b
    → Keeps (reserve_if b id child budget r l)
reserve_if-Keeps false id child budget r l h v free e =
    with_record-Keeps _ id _ l h (blocked-IsWithin _ refl)
reserve_if-Keeps true id child budget r l h v free e = record {
  kept =
      set-All (λ e. IsWithin e.1) id _ l.records
        (record {
          bound = λ f d. omega (
            arith,
            v.bound f d,
            within_lem d (held_for budget) (snapshot_for r) e,
            limit_for-remaining_of d r.budget (total_of r),
            used-add d r.consumed (sum_held zero_usage r.reserved),
            used-add d r.consumed (sum_held zero_usage (set child _ r.reserved)),
            used-sum_held-set d child _ r.reserved free,
          );
        })
        h;
}

reserve-Keeps :
    (id child : Text) (budget : AgentBudget) (l : Ledger)
    → AllWithin l
    → Keeps (reserve id child budget l)
unfolding reserve
reserve-Keeps id child budget l h = stop_if-Keeps _ _ l _ h (λ _. stop_if-Keeps _ _ l _ h (λ _.
    require_record-Keeps id l _ h (λ r v. stop_if-Keeps _ _ l _ h (λ free.
      stop_if-Keeps _ _ l _ h (λ _.
        reserve_if-Keeps (within (held_for budget) (snapshot_for r)) id child budget r l h v free
          refl)))))

consume_held-Keeps :
    (reservation : BudgetReservation) (usage : ConsumedBudget) (o : Option ReservationState)
    (r : RecordState) (l : Ledger)
    → AllWithin l
    → IsWithin r
    → lookup reservation.child_id r.reserved ≡ o
    → Keeps (consume_held reservation usage o r l)
consume_held-Keeps reservation usage none r l h v e = record { kept = h }
consume_held-Keeps reservation usage (some held) r l h v e = stop_if-Keeps _ _ l _ h (λ _.
    stop_if-Keeps _ _ l _ h (λ _. stop_if-Keeps _ _ l _ h (λ fit.
      with_record-Keeps (done tt) reservation.parent_id _ l h (record {
        bound = λ f d. omega (
          arith,
          v.bound f d,
          usage_allowed_lem d usage held.held held.budget (ground arith),
          used-add d r.consumed (sum_held zero_usage r.reserved),
          used-add d r.consumed (record usage { children = held.held.children }),
          used-add d (add r.consumed (record usage { children = held.held.children }))
              (sum_held zero_usage (delete reservation.child_id r.reserved)),
          used-sum_held-delete d reservation.child_id held r.reserved e,
        );
      }))))

consume-Keeps :
    (reservation : BudgetReservation) (usage : ConsumedBudget) (l : Ledger)
    → AllWithin l
    → Keeps (consume reservation usage l)
unfolding consume
consume-Keeps reservation usage l h = require_record-Keeps reservation.parent_id l _ h (λ r v.
    consume_held-Keeps reservation usage (lookup reservation.child_id r.reserved) r l h v refl)

record_usage-Keeps :
    (ds : List Dimension) (id : Text) (usage : ConsumedBudget) (r : RecordState) (l : Ledger)
    → AllWithin l
    → IsWithin r
    → exceeded_dimensions usage (snapshot_for r) ≡ ds
    → Keeps (record_usage ds id usage r l)
record_usage-Keeps [] id usage r l h v e = with_record-Keeps (done tt) id _ l h (record {
  bound = λ f d. omega (
    arith,
    v.bound f d,
    exceeded_dimensions_lem d usage (snapshot_for r) e,
    limit_for-remaining_of d r.budget (total_of r),
    used-add d r.consumed (sum_held zero_usage r.reserved),
    used-add d r.consumed usage,
    used-add d (add r.consumed usage) (sum_held zero_usage r.reserved),
  );
})
record_usage-Keeps (x ∷ ds) id usage r l h v e =
    with_record-Keeps _ id _ l h (blocked-IsWithin _ refl)

record_parent-Keeps :
    (id : Text) (usage : ConsumedBudget) (l : Ledger)
    → AllWithin l
    → Keeps (record_parent id usage l)
unfolding record_parent
record_parent-Keeps id usage l h =
    require_record-Keeps id l _ h
      (λ r v. record_usage-Keeps (exceeded_dimensions usage (snapshot_for r)) id usage r l h v refl)

mark_with-Keeps :
    (ds : List Dimension) (id : Text) (usage : ConsumedBudget) (r : RecordState) (l : Ledger)
    → AllWithin l
    → Keeps (mark_with ds id usage r l)
mark_with-Keeps [] id usage r l h = record { kept = h }
mark_with-Keeps (d ∷ ds) id usage r l h =
    with_record-Keeps (done tt) id _ l h (blocked-IsWithin _ refl)

mark_exhausted-Keeps :
    (id : Text) (usage : ConsumedBudget) (ds : List Dimension) (l : Ledger)
    → AllWithin l
    → Keeps (mark_exhausted id usage ds l)
unfolding mark_exhausted
mark_exhausted-Keeps id usage ds l h =
    require_record-Keeps id l _ h (λ r v. mark_with-Keeps _ id usage r l h)

release_held-Keeps :
    (reservation : BudgetReservation) (o : Option ReservationState) (r : RecordState) (l : Ledger)
    → AllWithin l
    → IsWithin r
    → lookup reservation.child_id r.reserved ≡ o
    → Keeps (release_held reservation o r l)
release_held-Keeps reservation none r l h v e = record { kept = h }
release_held-Keeps reservation (some held) r l h v e = stop_if-Keeps _ _ l _ h (λ _.
    stop_if-Keeps _ _ l _ h (λ _. with_record-Keeps (done tt) reservation.parent_id _ l h (record {
      bound = λ f d. omega (
        arith,
        v.bound f d,
        used-add d r.consumed (sum_held zero_usage r.reserved),
        used-add d r.consumed (sum_held zero_usage (delete reservation.child_id r.reserved)),
        used-sum_held-delete d reservation.child_id held r.reserved e,
      );
    })))

release-Keeps :
    (reservation : BudgetReservation) (l : Ledger) → AllWithin l → Keeps (release reservation l)
unfolding release
release-Keeps reservation l h =
    require_record-Keeps reservation.parent_id l _ h
      (λ r v. release_held-Keeps reservation (lookup reservation.child_id r.reserved) r l h v refl)

-- A call of the ledger that may change it.
pub data LedgerCall : Type 0 where
  registers : Text → AgentBudget → LedgerCall
  reserves : Text → Text → AgentBudget → LedgerCall
  consumes : BudgetReservation → ConsumedBudget → LedgerCall
  records : Text → ConsumedBudget → LedgerCall
  marks : Text → ConsumedBudget → List Dimension → LedgerCall
  releases : BudgetReservation → LedgerCall

-- The ledger after a call, whether it returned or threw.
unfoldable pub ledger_after : LedgerCall → Ledger → Ledger
ledger_after (LedgerCall.registers id budget) l = (register id budget l).1
ledger_after (LedgerCall.reserves id child budget) l = (reserve id child budget l).1
ledger_after (LedgerCall.consumes reservation usage) l = (consume reservation usage l).1
ledger_after (LedgerCall.records id usage) l = (record_parent id usage l).1
ledger_after (LedgerCall.marks id usage ds) l = (mark_exhausted id usage ds l).1
ledger_after (LedgerCall.releases reservation) l = (release reservation l).1

unfoldable pub ledger_after_all : List LedgerCall → Ledger → Ledger
ledger_after_all [] l = l
ledger_after_all (c ∷ cs) l = ledger_after_all cs (ledger_after c l)

ledger_after-AllWithin : (c : LedgerCall) (l : Ledger) → AllWithin l → AllWithin (ledger_after c l)
unfolding ledger_after
ledger_after-AllWithin (LedgerCall.registers id budget) l h = (register-Keeps id budget l h).kept
ledger_after-AllWithin (LedgerCall.reserves id child budget) l h =
    (reserve-Keeps id child budget l h).kept
ledger_after-AllWithin (LedgerCall.consumes reservation usage) l h =
    (consume-Keeps reservation usage l h).kept
ledger_after-AllWithin (LedgerCall.records id usage) l h = (record_parent-Keeps id usage l h).kept
ledger_after-AllWithin (LedgerCall.marks id usage ds) l h =
    (mark_exhausted-Keeps id usage ds l h).kept
ledger_after-AllWithin (LedgerCall.releases reservation) l h = (release-Keeps reservation l h).kept

-- Whatever calls are made in sequence, failing ones included, what is consumed and reserved of a
-- parent that is still ready stays within its ceiling in each dimension.
pub ledger_after_all-AllWithin :
    (cs : List LedgerCall) (l : Ledger) → AllWithin l → AllWithin (ledger_after_all cs l)
unfolding ledger_after_all
ledger_after_all-AllWithin [] l h = h
ledger_after_all-AllWithin (c ∷ cs) l h =
    ledger_after_all-AllWithin cs (ledger_after c l) (ledger_after-AllWithin c l h)
