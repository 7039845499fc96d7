-- ===== src/Team/Scheduler/Reachable.antt =====
-- Every step of packages/agent-team/src/task-scheduler.ts keeps the limits, and so every reachable
-- state is within them.
use dsh_backend_team.Base.{ℕ, Option, Text}
use dsh_backend_team.Team.Queue.{TaskPriority}
use dsh_backend_team.Team.Scheduler.{AgentTask, TaskScheduler, submit}
use dsh_backend_team.Team.Scheduler.Runs.{Ending, begin_failure, finish, cancel, dispose}
use dsh_backend_team.Team.Scheduler.Bounds.{IsSound}
use dsh_backend_team.Team.Scheduler.Finish.{finish-IsSound, begin_failure-IsSound}
use dsh_backend_team.Team.Scheduler.Submission.{submit-IsSound}
use dsh_backend_team.Team.Scheduler.Cancellation.{cancel-IsSound, dispose-IsSound}

-- A step of the scheduler.
pub data Event : Type 0 where
  submits : Option AgentTask → TaskPriority → Option ℕ → Event
  cancels : Text → Event
  begins_failure : Text → Ending → Event
  finishes : Text → Ending → Event
  disposes : Event

unfoldable pub scheduler_after : Event → TaskScheduler → TaskScheduler
scheduler_after (Event.submits parsed priority token) s = (submit parsed priority token s).1
scheduler_after (Event.cancels id) s = (cancel id s).1
scheduler_after (Event.begins_failure id ending) s = begin_failure id ending s
scheduler_after (Event.finishes id ending) s = finish id ending s
scheduler_after Event.disposes s = dispose s

-- The states that steps reach.
pub data Reach (s : TaskScheduler) : TaskScheduler → Type 0 where
  here : Reach s s
  next : {t : TaskScheduler} → Reach s t → (e : Event) → Reach s (scheduler_after e t)

scheduler_after-IsSound :
    (e : Event) (s : TaskScheduler) → IsSound s → IsSound (scheduler_after e s)
unfolding scheduler_after
scheduler_after-IsSound (Event.submits parsed priority token) s v =
    submit-IsSound parsed priority token s v
scheduler_after-IsSound (Event.cancels id) s v = cancel-IsSound id s v
scheduler_after-IsSound (Event.begins_failure id ending) s v = begin_failure-IsSound id ending s v
scheduler_after-IsSound (Event.finishes id ending) s v = finish-IsSound id ending s v
scheduler_after-IsSound Event.disposes s v = dispose-IsSound s v

-- From a sound state every reachable one is sound: at most three experts and two writers are
-- active, the counters count them, and no task identifier is in two places.
pub Reach-IsSound : {s t : TaskScheduler} → IsSound s → Reach s t → IsSound t
Reach-IsSound v Reach.here = v
Reach-IsSound v (Reach.next r e) = scheduler_after-IsSound e _ (Reach-IsSound v r)
