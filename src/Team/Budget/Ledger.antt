-- ===== src/Team/Budget/Ledger.antt =====
-- `BudgetLedger` of packages/agent-team/src/budget-ledger.ts: the calls that change it, each with
-- its error as a value beside the state that it leaves. A reservation carries a handle for its
-- identity as an object. Left out are the identifier that only the persisted form reads, and that
-- form itself (`exportState`, `restoreState`, `replaceState`).
pub mod Sums
pub mod Bounds
use dsh_backend_team.Base.{
  ℕ, zero, suc, ◌+◌, Bool, true, false, not, ◌&&◌, ◌||◌, Option, none, some, is_some, List, [], ◌∷◌,
  ◌++◌, Text, codes, all, filter, leb, ltb, nat_eq, length, lookup, set, delete, if◌then◌else◌,
}
use dsh_backend_team.Team.Budget.{
  AgentBudget, ConsumedBudget, Dimension, budget_parses, zero_usage, add, exceeded_dimensions,
  held_for, same_budget, remaining_of, within, usage_allowed,
}

pub data LedgerError : Type 0 where
  parent_id_invalid : LedgerError
  child_id_invalid : LedgerError
  budget_invalid : LedgerError
  different_ceiling : LedgerError
  parent_exhausted : LedgerError
  parent_unknown : LedgerError
  child_reserved : LedgerError
  reservation_missing : LedgerError
  reservation_identity : LedgerError
  reservation_mismatch : LedgerError
  usage_exceeds : LedgerError
  task_exhausted : LedgerError
  dimension_required : LedgerError

pub record BudgetReservation : Type 0 where
  pub handle : ℕ
  pub parent_id : Text
  pub child_id : Text
  pub budget : AgentBudget

pub record ReservationState : Type 0 where
  pub budget : AgentBudget
  pub held : ConsumedBudget
  pub reservation : BudgetReservation

pub data LedgerStatus : Type 0 where
  ready : LedgerStatus
  exhausted : LedgerStatus

pub record BudgetOverrun : Type 0 where
  pub usage : ConsumedBudget
  pub exceeded : List Dimension

pub record RecordState : Type 0 where
  pub budget : AgentBudget
  pub consumed : ConsumedBudget
  pub reserved : List (Text × ReservationState)
  pub status : LedgerStatus
  pub overrun : Option BudgetOverrun

pub record Ledger : Type 0 where
  pub records : List (Text × RecordState)
  pub handles : ℕ

pub data Outcome (A : Type 0) : Type 0 where
  done : A → Outcome A
  failed : LedgerError → Outcome A

abbrev in_range : ℕ → ℕ → ℕ → Bool
in_range lo hi c = leb lo c && leb c hi

abbrev is_alphanumeric : ℕ → Bool
is_alphanumeric c = in_range 48 57 c || in_range 65 90 c || in_range 97 122 c

-- `.`, `_`, `:` and `-` too
abbrev is_id_char : ℕ → Bool
is_id_char c = is_alphanumeric c || nat_eq c 46 || nat_eq c 95 || nat_eq c 58 || nat_eq c 45

-- `isId`
unfoldable pub is_id : Text → Bool
is_id [] = false
is_id (c ∷ cs) = is_alphanumeric c && leb (length cs) 127 && all is_id_char cs

-- `[...reserved.values()].map((r) => r.held).reduce(add, …)`
unfoldable pub sum_held : ConsumedBudget → List (Text × ReservationState) → ConsumedBudget
sum_held acc [] = acc
sum_held acc ((k, r) ∷ rest) = sum_held (add acc r.held) rest

-- What is consumed and reserved together.
abbrev pub total_of : RecordState → ConsumedBudget
total_of r = add r.consumed (sum_held zero_usage r.reserved)

-- `snapshotFor`
abbrev pub snapshot_for : RecordState → AgentBudget
snapshot_for r = remaining_of r.budget (total_of r)

-- `if (c) throw e`
unfoldable pub stop_if :
    {A : Type 0} → Bool → LedgerError → Ledger → Outcome A × Ledger → Outcome A × Ledger
stop_if true e l rest = (failed e, l)
stop_if false e l rest = rest

-- `require`
unfoldable pub require_record :
    {A : Type 0}
    → Option RecordState
    → Ledger
    → (RecordState → Outcome A × Ledger)
    → Outcome A × Ledger
require_record none l k = (failed LedgerError.parent_unknown, l)
require_record (some r) l k = k r

-- Writing to the fields of the record of a parent.
abbrev pub with_record : Text → RecordState → Ledger → Ledger
with_record id r l = record l { records = set id r l.records }

abbrev is_ready : LedgerStatus → Bool
is_ready LedgerStatus.ready = true
is_ready LedgerStatus.exhausted = false

abbrev pub register_found :
    Text → AgentBudget → Option RecordState → Ledger → Outcome (Unit {0}) × Ledger
register_found id budget (some existing) l =
    stop_if (not (same_budget existing.budget budget)) LedgerError.different_ceiling l
      (stop_if (not (is_ready existing.status)) LedgerError.parent_exhausted l (done tt, l))
register_found id budget none l = (
  done tt,
  with_record id
      (record {
        budget = budget;
        consumed = zero_usage;
        reserved = [];
        status = LedgerStatus.ready;
        overrun = none;
      })
      l,
)

unfoldable pub register : Text → AgentBudget → Ledger → Outcome (Unit {0}) × Ledger
register parent_id budget l = stop_if (not (is_id parent_id)) LedgerError.parent_id_invalid l (
    stop_if (not (budget_parses budget)) LedgerError.budget_invalid l
      (register_found parent_id budget (lookup parent_id l.records) l))

abbrev pub blocked_by : RecordState → ConsumedBudget → List Dimension → RecordState
blocked_by r usage exceeded = record r {
  status = LedgerStatus.exhausted;
  overrun = some (record { usage = usage; exceeded = exceeded });
}

abbrev pub reserve_if :
    Bool → Text → Text → AgentBudget → RecordState → Ledger → Outcome BudgetReservation × Ledger
reserve_if false parent_id child_id budget r l = (
  failed LedgerError.parent_exhausted,
  with_record parent_id
      (blocked_by r (held_for budget) (exceeded_dimensions (held_for budget) (snapshot_for r))) l,
)
reserve_if true parent_id child_id budget r l =
    let reservation : BudgetReservation = record {
      handle = l.handles;
      parent_id = parent_id;
      child_id = child_id;
      budget = budget;
    } in
    (
      done reservation,
      record (with_record parent_id
          (record r {
            reserved =
                set child_id
                  (record { budget = budget; held = held_for budget; reservation = reservation })
                  r.reserved;
          })
          l) { handles = suc l.handles },
    )

unfoldable pub reserve : Text → Text → AgentBudget → Ledger → Outcome BudgetReservation × Ledger
reserve parent_id child_id budget l =
    stop_if (not (is_id parent_id)) LedgerError.parent_id_invalid l (
      stop_if (not (is_id child_id)) LedgerError.child_id_invalid l (
        require_record (lookup parent_id l.records) l (λ r.
          stop_if (is_some (lookup child_id r.reserved)) LedgerError.child_reserved l (
            stop_if (not (budget_parses budget)) LedgerError.budget_invalid l (
              reserve_if (within (held_for budget) (snapshot_for r)) parent_id child_id budget r
                l)))))

-- What `consume` and `release` demand of the reservation that is held.
abbrev pub consume_held :
    BudgetReservation
    → ConsumedBudget
    → Option ReservationState
    → RecordState
    → Ledger
    → Outcome (Unit {0}) × Ledger
consume_held reservation usage none r l = (failed LedgerError.reservation_missing, l)
consume_held reservation usage (some held) r l =
    stop_if (not (nat_eq held.reservation.handle reservation.handle))
      LedgerError.reservation_identity l
      (stop_if (not (same_budget held.budget reservation.budget)) LedgerError.reservation_mismatch l
        (stop_if (not (usage_allowed usage held.held held.budget)) LedgerError.usage_exceeds l (
          done tt,
          with_record reservation.parent_id
              (record r {
                reserved = delete reservation.child_id r.reserved;
                consumed = add r.consumed (record usage { children = held.held.children });
              })
              l,
        )))

unfoldable pub consume : BudgetReservation → ConsumedBudget → Ledger → Outcome (Unit {0}) × Ledger
consume reservation usage l =
    require_record (lookup reservation.parent_id l.records) l
      (λ r. consume_held reservation usage (lookup reservation.child_id r.reserved) r l)

abbrev pub record_usage :
    List Dimension → Text → ConsumedBudget → RecordState → Ledger → Outcome (Unit {0}) × Ledger
record_usage [] parent_id usage r l =
    (done tt, with_record parent_id (record r { consumed = add r.consumed usage }) l)
record_usage (d ∷ ds) parent_id usage r l = (
  failed LedgerError.task_exhausted,
  with_record parent_id (blocked_by (record r { consumed = add r.consumed usage }) usage (d ∷ ds))
      l,
)

-- `record`
unfoldable pub record_parent : Text → ConsumedBudget → Ledger → Outcome (Unit {0}) × Ledger
record_parent parent_id usage l =
    require_record (lookup parent_id l.records) l
      (λ r. record_usage (exceeded_dimensions usage (snapshot_for r)) parent_id usage r l)

abbrev dimension_number : Dimension → ℕ
dimension_number Dimension.tokens = 0
dimension_number Dimension.wall_ms = 1
dimension_number Dimension.tool_calls = 2
dimension_number Dimension.retries = 3
dimension_number Dimension.children = 4

-- `[...new Set(ds)]`
abbrev pub distinct : List Dimension → List Dimension
distinct [] = []
distinct (d ∷ ds) =
    d ∷ filter (λ e. not (nat_eq (dimension_number e) (dimension_number d))) (distinct ds)

abbrev pub mark_with :
    List Dimension → Text → ConsumedBudget → RecordState → Ledger → Outcome (Unit {0}) × Ledger
mark_with [] parent_id usage r l = (failed LedgerError.dimension_required, l)
mark_with (d ∷ ds) parent_id usage r l =
    (done tt, with_record parent_id (blocked_by r usage (d ∷ ds)) l)

unfoldable pub mark_exhausted :
    Text → ConsumedBudget → List Dimension → Ledger → Outcome (Unit {0}) × Ledger
mark_exhausted parent_id usage exceeded l =
    require_record (lookup parent_id l.records) l
      (λ r. mark_with (distinct exceeded) parent_id usage r l)

abbrev pub release_held :
    BudgetReservation → Option ReservationState → RecordState → Ledger → Outcome (Unit {0}) × Ledger
release_held reservation none r l = (done tt, l)
release_held reservation (some held) r l =
    stop_if (not (nat_eq held.reservation.handle reservation.handle))
      LedgerError.reservation_identity l
      (stop_if (not (same_budget held.budget reservation.budget)) LedgerError.reservation_mismatch l
        (
          done tt,
          with_record reservation.parent_id
              (record r { reserved = delete reservation.child_id r.reserved }) l,
        ))

unfoldable pub release : BudgetReservation → Ledger → Outcome (Unit {0}) × Ledger
release reservation l =
    require_record (lookup reservation.parent_id l.records) l
      (λ r. release_held reservation (lookup reservation.child_id r.reserved) r l)
