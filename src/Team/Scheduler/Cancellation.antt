-- ===== src/Team/Scheduler/Cancellation.antt =====
-- A cancellation and a disposal keep the limits (`cancel` and `dispose` of
-- packages/agent-team/src/task-scheduler.ts).
use dsh_backend_team.Base.{
  ◌+◌, ◌≤◌, Bool, true, false, Option, none, some, List, [], ◌∷◌, Text, ◌==◌, lookup, if◌then◌else◌,
  arith,
}
use dsh_backend_team.Team.Queue.{TaskQueue, cut_at, removed, empty, size, remove, take_all, cut}
use dsh_backend_team.Team.Scheduler.{Scheduled, Active, TaskScheduler, Lane, lane_of}
use dsh_backend_team.Team.Scheduler.Runs.{
  removed_from, or_else, cancel_active, cancel_queued, remove_queued, cancel, empty_lane,
  reject_all, dispose,
}
use dsh_backend_team.Team.Scheduler.Start.{same-IsSound}
use dsh_backend_team.Team.Scheduler.Drain.{drain-IsSound}
use dsh_backend_team.Team.Scheduler.Bounds.{
  in_lane, in_queue, IsSound, with_lane-IsSound, waiting-with_lane,
}

pub in_lane-cut :
    (id : Text) (p : Scheduled → Bool) (es : List Scheduled)
    → in_lane id (cut p es).1 ≤ in_lane id es
in_lane-cut id p [] = omega arith
in_lane-cut id p (e ∷ es) = go (p e) (in_lane-cut id p es)
  where
    go :
        (b : Bool)
        → in_lane id (cut p es).1 ≤ in_lane id es
        → in_lane id (cut_at b e es (cut p es)).1 ≤ in_lane id (e ∷ es)
    go true h = omega arith
    go false h = omega (arith, h)

pub in_queue-remove :
    (id : Text) (p : Scheduled → Bool) (q : TaskQueue Scheduled)
    → in_queue id (remove p q).1 ≤ in_queue id q
unfolding remove
in_queue-remove id p q =
    go (cut p q.blocking) (in_lane-cut id p q.blocking) (in_lane-cut id p q.normal)
  where
    go :
        (r : Option Scheduled × List Scheduled)
        → in_lane id r.1 ≤ in_lane id q.blocking
        → in_lane id (cut p q.normal).1 ≤ in_lane id q.normal
        → in_queue id (removed r (cut p q.normal) q.blocking q.normal).1 ≤ in_queue id q
    go (none, b) h k = omega (arith, h, k)
    go (some x, b) h k = omega (arith, h, k)

pub removed_from-IsSound :
    (id : Text) (lane : Lane) (s : TaskScheduler) → IsSound s → IsSound (removed_from id lane s).1
removed_from-IsSound id lane s v =
    let q = (remove (λ e. e.task.id == id) (lane_of lane s)).1 in
    with_lane-IsSound lane q s v (λ j. omega (
      arith,
      v.unique j,
      waiting-with_lane lane q s j,
      in_queue-remove j (λ e. e.task.id == id) (lane_of lane s),
    ))

pub or_else-IsSound :
    (o p : Option Scheduled × TaskScheduler) → IsSound o.1 → IsSound p.1 → IsSound (or_else o p).1
or_else-IsSound (some e, s) p v w = v
or_else-IsSound (none, s) p v w = w

pub remove_queued-IsSound :
    (id : Text) (s : TaskScheduler) → IsSound s → IsSound (remove_queued id s).1
remove_queued-IsSound id s v =
    or_else-IsSound (removed_from id Lane.expert s) _ (removed_from-IsSound id Lane.expert s v) (
      or_else-IsSound (removed_from id Lane.writer s) _ (removed_from-IsSound id Lane.writer s v)
        (removed_from-IsSound id Lane.reader s v))

pub cancel_active-IsSound :
    (o : Option Active) (id : Text) (s : TaskScheduler)
    → IsSound s
    → IsSound (cancel_active o id s).1
cancel_active-IsSound none id s v = v
cancel_active-IsSound (some a) id s v = same-IsSound s s.ledger s.blocked _ s.disposed s.settled v

pub cancel_queued-IsSound :
    (o : Option Scheduled × TaskScheduler) (id : Text) (s : TaskScheduler)
    → IsSound o.1
    → IsSound s
    → IsSound (cancel_queued o id s).1
cancel_queued-IsSound (some e, rest) id s v w =
    drain-IsSound _
      (same-IsSound rest rest.ledger rest.blocked rest.cancel_requested rest.disposed _ v)
cancel_queued-IsSound (none, rest) id s v w = cancel_active-IsSound (lookup id s.active) id s w

pub cancel-IsSound : (id : Text) (s : TaskScheduler) → IsSound s → IsSound (cancel id s).1
unfolding cancel
cancel-IsSound id s v =
    cancel_queued-IsSound (remove_queued id s) id s (remove_queued-IsSound id s v) v

pub reject_all-IsSound :
    (es : List Scheduled) (s : TaskScheduler) → IsSound s → IsSound (reject_all es s)
reject_all-IsSound [] s v = v
reject_all-IsSound (e ∷ es) s v =
    reject_all-IsSound es _ (same-IsSound s s.ledger s.blocked s.cancel_requested s.disposed _ v)

pub empty_lane-IsSound : (lane : Lane) (s : TaskScheduler) → IsSound s → IsSound (empty_lane lane s)
empty_lane-IsSound lane s v =
    reject_all-IsSound (take_all (size (lane_of lane s) + 1) (lane_of lane s)) _ (
      with_lane-IsSound lane empty s v
        (λ id. omega (arith, v.unique id, waiting-with_lane lane empty s id)))

pub dispose-IsSound : (s : TaskScheduler) → IsSound s → IsSound (dispose s)
unfolding dispose
dispose-IsSound s v = go s.disposed
  where
    go :
        (b : Bool)
        → IsSound (
            if b
            then s
            else empty_lane Lane.reader
                (empty_lane Lane.writer (empty_lane Lane.expert (record s { disposed = true }))))
    go true = v
    go false = empty_lane-IsSound Lane.reader _ (
        empty_lane-IsSound Lane.writer _ (
          empty_lane-IsSound Lane.expert _
            (same-IsSound s s.ledger s.blocked s.cancel_requested true s.settled v)))
