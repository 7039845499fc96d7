-- ===== src/Team/Scheduler/Runs.antt =====
-- The end of a run, a cancellation and a disposal of packages/agent-team/src/task-scheduler.ts:
-- `run` from the result on, `release`, `cancel` and the emptying of the queues of `dispose`, which
-- then cancels the active tasks one by one.
use dsh_backend_team.Base.{
  ◌+◌, ◌-◌, Bool, true, false, not, Option, none, some, List, [], ◌∷◌, Text, ◌==◌, filter, nat_eq,
  text_member, lookup, set, delete, if◌then◌else◌,
}
use dsh_backend_team.Team.Queue.{empty, size, remove, take_all}
use dsh_backend_team.Team.Budget.{ConsumedBudget, Dimension}
use dsh_backend_team.Team.Budget.Ledger.{
  RecordState, BudgetReservation, Ledger, Outcome, done, failed, consume, record_parent,
  mark_exhausted, release, snapshot_for,
}
use dsh_backend_team.Team.Scheduler.{
  AgentTask, Scheduled, Active, Settlement, TaskScheduler, is_expert, is_exhausted, add_member,
  settle, Lane, lane_of, with_lane, drain,
}

-- What a run came to: a result that passes its schema and names the task, with the usage that it
-- reports; or an error, with the two tests of its message. The clock's own error passes both.
pub data Ending : Type 0 where
  returned : ConsumedBudget → Ending
  thrown : (exhausted wall_clock : Bool) → Ending

-- The charge of a result.
abbrev pub charge : Active → ConsumedBudget → Ledger → Outcome (Unit {0}) × Ledger
charge a usage ledger = elim a.reservation [
  | some reservation ↦ consume reservation usage ledger
  | none ↦ record_parent a.task.id (record usage { children = 0 }) ledger
]

abbrev timeout_usage : AgentTask → ConsumedBudget
timeout_usage task = record {
  tokens = 0;
  wall_ms = task.budget.max_wall_ms;
  tool_calls = 0;
  retries = 0;
  children = 0;
}

abbrev no_wall_left : Option RecordState → Bool
no_wall_left none = false
no_wall_left (some r) = nat_eq (snapshot_for r).max_wall_ms 0

abbrev after_done : Outcome (Unit {0}) × Ledger → (Ledger → Ledger) → Ledger
after_done (done _, ledger) f = f ledger
after_done (failed e, ledger) f = ledger

-- The accounting of a run out of time; an error of it is caught and only named in the failure.
unfoldable pub charge_timeout : Active → Ledger → Ledger
charge_timeout a ledger =
    let usage = timeout_usage a.task in
    elim a.reservation [
      | some reservation ↦ after_done (consume reservation usage ledger) (λ l.
          if no_wall_left (lookup reservation.parent_id l.records)
          then (mark_exhausted reservation.parent_id usage (Dimension.wall_ms ∷ []) l).1
          else l)
      | none ↦
          after_done (record_parent a.task.id usage ledger)
            (λ l. (mark_exhausted a.task.id usage (Dimension.wall_ms ∷ []) l).1)
    ]

-- The `catch` of `run`.
abbrev pub fail : Active → Bool → Bool → TaskScheduler → TaskScheduler
fail a exhausted wall_clock s =
    settle a.task.id
      (if text_member a.task.id s.cancel_requested
        then Settlement.resolved_undefined
        else Settlement.rejected)
      (record s {
        blocked = if exhausted then add_member a.task.id s.blocked else s.blocked;
        ledger = if wall_clock then charge_timeout a s.ledger else s.ledger;
      })

abbrev pub charged : Active → Outcome (Unit {0}) × Ledger → TaskScheduler → TaskScheduler
charged a (done _, ledger) s = settle a.task.id Settlement.resolved (record s { ledger = ledger })
charged a (failed e, ledger) s = fail a (is_exhausted e) false (record s { ledger = ledger })

-- The `try` and the `catch` of `run`, from the result on.
unfoldable pub conclude : Active → Ending → TaskScheduler → TaskScheduler
conclude a (Ending.returned usage) s =
    if text_member a.task.id s.cancel_requested
    then settle a.task.id Settlement.resolved_undefined s
    else charged a (charge a usage s.ledger) s
conclude a (Ending.thrown exhausted wall_clock) s = fail a exhausted wall_clock s

-- The rest of `release`, and of the `finally` of `run`.
abbrev pub freed : Active → Ledger → TaskScheduler → TaskScheduler
freed a ledger s = drain (record s {
  ledger = ledger;
  active = delete a.task.id s.active;
  active_experts = if is_expert a.task then s.active_experts - 1 else s.active_experts;
  active_writers = if a.writer then s.active_writers - 1 else s.active_writers;
  writer_paths = if a.writer then delete a.task.id s.writer_paths else s.writer_paths;
  cancel_requested = filter (λ id. not (id == a.task.id)) s.cancel_requested;
})

-- `release` throws before it changes anything else where the ledger refuses.
abbrev pub release_held_by : Active → Outcome (Unit {0}) × Ledger → TaskScheduler → TaskScheduler
release_held_by a (done _, ledger) s = freed a ledger s
release_held_by a (failed e, ledger) s = record s {
  ledger = ledger;
  active = set a.task.id (record a { released = true }) s.active;
}

abbrev pub give_back : Option BudgetReservation → Ledger → Outcome (Unit {0}) × Ledger
give_back none ledger = (done tt, ledger)
give_back (some reservation) ledger = release reservation ledger

-- The `finally` of `run`; what is released already is left alone.
unfoldable pub finalize : Active → TaskScheduler → TaskScheduler
finalize a s =
    if a.released
    then drain
        (record s { cancel_requested = filter (λ id. not (id == a.task.id)) s.cancel_requested })
    else release_held_by a (give_back a.reservation s.ledger) s

abbrev pub finish_found : Option Active → Ending → TaskScheduler → TaskScheduler
finish_found none ending s = s
finish_found (some a) ending s = finalize a (conclude a ending s)

-- A run that ends with nobody in between; nothing happens without one.
unfoldable pub finish : Text → Ending → TaskScheduler → TaskScheduler
finish id ending s = finish_found (lookup id s.active) ending s

-- What the `catch` of `run` does before it waits for the end of the handle.
abbrev pub blocked_if : Active → Bool → TaskScheduler → TaskScheduler
blocked_if a exhausted s = record s {
  blocked = if exhausted then add_member a.task.id s.blocked else s.blocked;
}

abbrev pub begin_charged : Active → Outcome (Unit {0}) × Ledger → TaskScheduler → TaskScheduler
begin_charged a (done _, ledger) s = s
begin_charged a (failed e, ledger) s = blocked_if a (is_exhausted e) (record s { ledger = ledger })

abbrev pub begin_found : Option Active → Ending → TaskScheduler → TaskScheduler
begin_found none ending s = s
begin_found (some a) (Ending.thrown exhausted wall_clock) s = blocked_if a exhausted s
begin_found (some a) (Ending.returned usage) s =
    if text_member a.task.id s.cancel_requested
    then s
    else begin_charged a (charge a usage s.ledger) s

-- A run that fails, up to that wait. What comes behind the wait is `finish` with the error that is
-- thrown, to which blocking the task again makes no difference.
unfoldable pub begin_failure : Text → Ending → TaskScheduler → TaskScheduler
begin_failure id ending s = begin_found (lookup id s.active) ending s

-- `removeQueued`
abbrev pub removed_from : Text → Lane → TaskScheduler → Option Scheduled × TaskScheduler
removed_from id lane s =
    let (entry, rest) = remove (λ e. e.task.id == id) (lane_of lane s) in
    (entry, with_lane lane rest s)

abbrev pub or_else :
    Option Scheduled × TaskScheduler
    → Option Scheduled × TaskScheduler
    → Option Scheduled × TaskScheduler
or_else (some e, s) other = (some e, s)
or_else (none, s) other = other

abbrev pub remove_queued : Text → TaskScheduler → Option Scheduled × TaskScheduler
remove_queued id s =
    or_else (removed_from id Lane.expert s)
      (or_else (removed_from id Lane.writer s) (removed_from id Lane.reader s))

abbrev pub cancel_active : Option Active → Text → TaskScheduler → Bool × TaskScheduler
cancel_active none id s = (false, s)
cancel_active (some a) id s =
    (true, record s { cancel_requested = add_member id s.cancel_requested })

abbrev pub cancel_queued :
    Option Scheduled × TaskScheduler → Text → TaskScheduler → Bool × TaskScheduler
cancel_queued (some e, rest) id s = (true, drain (settle id Settlement.resolved_undefined rest))
cancel_queued (none, rest) id s = cancel_active (lookup id s.active) id s

-- `cancel` until it waits; whether the task is known.
unfoldable pub cancel : Text → TaskScheduler → Bool × TaskScheduler
cancel id s = cancel_queued (remove_queued id s) id s

abbrev pub reject_all : List Scheduled → TaskScheduler → TaskScheduler
reject_all [] s = s
reject_all (e ∷ rest) s = reject_all rest (settle e.task.id Settlement.rejected s)

abbrev pub empty_lane : Lane → TaskScheduler → TaskScheduler
empty_lane lane s =
    reject_all (take_all (size (lane_of lane s) + 1) (lane_of lane s)) (with_lane lane empty s)

-- `dispose` until it waits; a second call changes nothing.
unfoldable pub dispose : TaskScheduler → TaskScheduler
dispose s =
    if s.disposed
    then s
    else empty_lane Lane.reader
        (empty_lane Lane.writer (empty_lane Lane.expert (record s { disposed = true })))
