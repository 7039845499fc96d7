-- ===== src/Team/Scheduler.antt =====
-- `TaskScheduler` of packages/agent-team/src/task-scheduler.ts over the ledger in memory, as the
-- steps between two waits: a submission, a cancellation, the end of a run, a disposal. Starting an
-- agent, its cancellation and its clock are the orchestration's; what a run ended with is an
-- argument of its step. A promise that is settled is an entry of `settled`.
pub mod Runs
pub mod Bounds
pub mod Start
pub mod Drain
pub mod Finish
pub mod Submission
pub mod Cancellation
pub mod Reachable
use dsh_backend_team.Base.{
  ℕ, zero, suc, ◌+◌, ◌-◌, Bool, true, false, not, ◌&&◌, ◌||◌, Option, none, some, is_some, List, [],
  ◌∷◌, ◌++◌, Text, ◌==◌, any, filter, length, leb, ltb, nat_eq, text_member, lookup, set, delete,
  if◌then◌else◌,
}
use dsh_backend_team.Team.Queue.{
  TaskQueue, TaskPriority, empty, enqueue, size, has, peek, peek_priority, take_head, remove,
  take_all,
}
use dsh_backend_team.Team.Paths.{is_safe_workspace_path, overlaps}
use dsh_backend_team.Team.Budget.{AgentBudget, ConsumedBudget, Dimension}
use dsh_backend_team.Team.Budget.Ledger.{
  LedgerError, BudgetReservation, Ledger, Outcome, done, failed, register, reserve, consume,
  record_parent, mark_exhausted, release, snapshot_for,
}

-- The fields of an `AgentTask` that the scheduler reads.
pub record AgentTask : Type 0 where
  pub id : Text
  pub parent_task_id : Option Text
  pub depth : ℕ
  pub read_paths : List Text
  pub write_paths : List Text
  pub budget : AgentBudget

-- A task that waits; the token stands for the identity of an object.
pub record Scheduled : Type 0 where
  pub task : AgentTask
  pub overlap_token : Option ℕ

pub record Active : Type 0 where
  pub task : AgentTask
  pub reservation : Option BudgetReservation
  pub writer : Bool
  pub released : Bool
  pub scheduled : Scheduled

-- How the promise of a task is settled.
pub data Settlement : Type 0 where
  resolved : Settlement
  resolved_undefined : Settlement
  rejected : Settlement

pub record TaskScheduler : Type 0 where
  pub expert_queue : TaskQueue Scheduled
  pub writer_queue : TaskQueue Scheduled
  pub read_queue : TaskQueue Scheduled
  pub active : List (Text × Active)
  pub writer_paths : List (Text × List Text)
  pub blocked : List Text
  pub cancel_requested : List Text
  pub ledger : Ledger
  pub disposed : Bool
  pub active_experts : ℕ
  pub active_writers : ℕ
  pub settled : List (Text × Settlement)

abbrev pub is_writer : AgentTask → Bool
is_writer task = not (nat_eq (length task.write_paths) 0)

abbrev pub is_expert : AgentTask → Bool
is_expert task = nat_eq task.depth 1

-- `Set.add`
abbrev pub add_member : Text → List Text → List Text
add_member id ids = if text_member id ids then ids else ids ++ id ∷ []

abbrev pub settle : Text → Settlement → TaskScheduler → TaskScheduler
settle id how s = record s { settled = s.settled ++ (id, how) ∷ [] }

abbrev same_text : Option Text → Text → Bool
same_text none id = false
same_text (some p) id = p == id

abbrev same_token : Option ℕ → Option ℕ → Bool
same_token (some a) (some b) = nat_eq a b
same_token _ _ = false

abbrev token_of : Option Active → Option ℕ
token_of none = none
token_of (some a) = a.scheduled.overlap_token

-- The direct parent of an authorized worker, which it may overlap.
abbrev pub is_authorized : Scheduled → Text → TaskScheduler → Bool
is_authorized scheduled owner s =
    nat_eq scheduled.task.depth 2
    && same_text scheduled.task.parent_task_id owner
    && same_token scheduled.overlap_token (token_of (lookup owner s.active))

abbrev pub paths_meet : List Text → List Text → Bool
paths_meet paths held = any (λ path. any (λ h. overlaps path h) held) paths

unfoldable pub can_start : Scheduled → TaskScheduler → Bool
can_start scheduled s =
    not (is_expert scheduled.task && leb 3 s.active_experts)
    && not (is_writer scheduled.task && leb 2 s.active_writers)
    && not (
        any (λ e. not (is_authorized scheduled e.0 s) && paths_meet scheduled.task.write_paths e.1)
          s.writer_paths)

abbrev pub or_empty : Option Text → Text
or_empty none = []
or_empty (some id) = id

-- What `start` does once its budget is granted.
abbrev pub started : Scheduled → Option BudgetReservation → Ledger → TaskScheduler → TaskScheduler
started scheduled reservation ledger s =
    let task = scheduled.task in
    record s {
      ledger = ledger;
      active_experts = if is_expert task then s.active_experts + 1 else s.active_experts;
      active_writers = if is_writer task then s.active_writers + 1 else s.active_writers;
      writer_paths =
          if is_writer task then set task.id task.write_paths s.writer_paths else s.writer_paths;
      active =
          set task.id
            (record {
              task = task;
              reservation = reservation;
              writer = is_writer task;
              released = false;
              scheduled = scheduled;
            })
            s.active;
    }

-- The test of an error's message for "budget exhausted".
abbrev pub is_exhausted : LedgerError → Bool
is_exhausted LedgerError.parent_exhausted = true
is_exhausted LedgerError.task_exhausted = true
is_exhausted _ = false

-- The `catch` of `drain`.
abbrev pub refused : Text → LedgerError → Ledger → TaskScheduler → TaskScheduler
refused id e ledger s = settle id Settlement.rejected (record s {
  ledger = ledger;
  blocked = if is_exhausted e then add_member id s.blocked else s.blocked;
})

abbrev pub start_child :
    Scheduled → Outcome BudgetReservation × Ledger → TaskScheduler → TaskScheduler
start_child scheduled (done reservation, ledger) s = started scheduled (some reservation) ledger s
start_child scheduled (failed e, ledger) s = refused scheduled.task.id e ledger s

abbrev pub start_top : Scheduled → Outcome (Unit {0}) × Ledger → TaskScheduler → TaskScheduler
start_top scheduled (done _, ledger) s = started scheduled none ledger s
start_top scheduled (failed e, ledger) s = refused scheduled.task.id e ledger s

-- `start`, and the `catch` around it
unfoldable pub start : Scheduled → TaskScheduler → TaskScheduler
start scheduled s =
    let task = scheduled.task in
    if nat_eq task.depth 2
    then start_child scheduled (reserve (or_empty task.parent_task_id) task.id task.budget s.ledger)
        s
    else start_top scheduled (register task.id task.budget s.ledger) s

pub data Lane : Type 0 where
  expert : Lane
  writer : Lane
  reader : Lane

abbrev pub lane_of : Lane → TaskScheduler → TaskQueue Scheduled
lane_of Lane.expert s = s.expert_queue
lane_of Lane.writer s = s.writer_queue
lane_of Lane.reader s = s.read_queue

abbrev pub with_lane : Lane → TaskQueue Scheduled → TaskScheduler → TaskScheduler
with_lane Lane.expert q s = record s { expert_queue = q }
with_lane Lane.writer q s = record s { writer_queue = q }
with_lane Lane.reader q s = record s { read_queue = q }

abbrev pub same_priority : Option TaskPriority → TaskPriority → Bool
same_priority (some TaskPriority.blocking) TaskPriority.blocking = true
same_priority (some TaskPriority.normal) TaskPriority.normal = true
same_priority _ _ = false

abbrev pub head_can_start : Option Scheduled → TaskScheduler → Bool
head_can_start none s = false
head_can_start (some head) s = can_start head s

abbrev pub can_take : TaskPriority → Lane → TaskScheduler → Bool
can_take priority lane s =
    same_priority (peek_priority (lane_of lane s)) priority
    && head_can_start (peek (lane_of lane s)) s

-- The order in which `takeNext` tries the heads, by its two loops.
abbrev pub attempts : List (TaskPriority × Lane)
attempts =
    (TaskPriority.blocking, Lane.expert)
    ∷ (TaskPriority.blocking, Lane.writer)
    ∷ (TaskPriority.blocking, Lane.reader)
    ∷ (TaskPriority.normal, Lane.expert)
    ∷ (TaskPriority.normal, Lane.writer)
    ∷ (TaskPriority.normal, Lane.reader)
    ∷ []

unfoldable pub first_lane : List (TaskPriority × Lane) → TaskScheduler → Option Lane
first_lane [] s = none
first_lane ((priority, lane) ∷ rest) s =
    let later = first_lane rest s in if can_take priority lane s then some lane else later

abbrev pub next_lane : TaskScheduler → Option Lane
next_lane s = first_lane attempts s

abbrev pub take_lane : Option Lane → TaskScheduler → Option Scheduled × TaskScheduler
take_lane none s = (none, s)
take_lane (some lane) s =
    let (head, rest) = take_head (λ _. true) (lane_of lane s) in (head, with_lane lane rest s)

unfoldable pub take_next : TaskScheduler → Option Scheduled × TaskScheduler
take_next s = take_lane (next_lane s) s

-- The loop of `drain`, with fuel; each round takes a task out of a queue.
unfoldable pub drain_rounds : ℕ → TaskScheduler → TaskScheduler
drain_rounds zero s = s
drain_rounds (suc n) s =
    let (next, rest) = take_next s in
    elim next [ none ↦ rest | some scheduled ↦ drain_rounds n (start scheduled rest) ]

abbrev pub queued : TaskScheduler → ℕ
queued s = size s.expert_queue + size s.writer_queue + size s.read_queue

unfoldable pub drain : TaskScheduler → TaskScheduler
drain s = if s.disposed then s else drain_rounds (queued s + 1) s

-- Why a submission is refused.
pub data SubmitError : Type 0 where
  scheduler_disposed : SubmitError
  invalid_task : SubmitError
  coordinator_task : SubmitError
  already_scheduled : SubmitError
  invalid_path : SubmitError

abbrev has_id : Text → TaskQueue Scheduled → Bool
has_id id q = has (λ e. e.task.id == id) q

-- `hasQueued`
abbrev has_queued : Text → TaskScheduler → Bool
has_queued id s = has_id id s.expert_queue || has_id id s.writer_queue || has_id id s.read_queue

-- `queueFor`
abbrev pub queue_for : AgentTask → Lane
queue_for task =
    if is_expert task then Lane.expert else if is_writer task then Lane.writer else Lane.reader

abbrev pub refuse_if :
    Bool
    → SubmitError
    → TaskScheduler
    → Option SubmitError × TaskScheduler
    → Option SubmitError × TaskScheduler
refuse_if true e s rest = (some e, s)
refuse_if false e s rest = rest

abbrev pub accepted : Scheduled → TaskPriority → TaskScheduler → TaskScheduler
accepted scheduled priority s =
    let lane = queue_for scheduled.task in
    drain (with_lane lane (enqueue scheduled priority (lane_of lane s)) s)

abbrev pub submit_parsed :
    Option AgentTask → TaskPriority → Option ℕ → TaskScheduler → Option SubmitError × TaskScheduler
submit_parsed none priority token s = (some SubmitError.invalid_task, s)
submit_parsed (some task) priority token s =
    refuse_if (nat_eq task.depth 0) SubmitError.coordinator_task s (
      refuse_if (is_some (lookup task.id s.active) || has_queued task.id s)
        SubmitError.already_scheduled s
        (refuse_if
          (any (λ p. not (is_safe_workspace_path p)) task.read_paths
            || any (λ p. not (is_safe_workspace_path p)) task.write_paths)
          SubmitError.invalid_path s
          (none, accepted (record { task = task; overlap_token = token }) priority s)))

-- `submit`; the task is what `AgentTaskSchema` made of the input.
unfoldable pub submit :
    Option AgentTask → TaskPriority → Option ℕ → TaskScheduler → Option SubmitError × TaskScheduler
submit parsed priority token s =
    refuse_if s.disposed SubmitError.scheduler_disposed s (submit_parsed parsed priority token s)
