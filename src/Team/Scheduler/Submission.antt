-- ===== src/Team/Scheduler/Submission.antt =====
-- A submission keeps the limits (`submit` of packages/agent-team/src/task-scheduler.ts).
use dsh_backend_team.Base.{
  ℕ, ◌+◌, ◌≤◌, ◌≡◌, refl, ap, Bool, true, false, ◌||◌, Option, none, some, is_some, List, [], ◌∷◌,
  ◌++◌, Text, ◌==◌, ==_iff, any, or_false, nat_eq, lookup, one_if, arith,
}
use mathlib.Core.Path.{subst}
use dsh_backend_team.Team.Queue.{TaskQueue, TaskPriority, enqueue}
use dsh_backend_team.Team.Scheduler.{
  refuse_if, AgentTask, Scheduled, TaskScheduler, lane_of, SubmitError, has_queued, queue_for,
  accepted, submit_parsed, submit,
}
use dsh_backend_team.Team.Scheduler.Drain.{drain-IsSound}
use dsh_backend_team.Team.Scheduler.Bounds.{
  in_lane, in_queue, waiting, runs, IsSound, with_lane-IsSound, waiting-with_lane,
}

pub any-in_lane :
    (id : Text) (es : List Scheduled) → any (λ e. e.task.id == id) es ≡ false → in_lane id es ≡ 0
any-in_lane id [] h = refl
any-in_lane id (e ∷ es) h =
    let (other, rest) = or_false (e.task.id == id) _ h in
    omega (arith, ap one_if other, any-in_lane id es rest)

pub in_lane-append :
    (id : Text) (es fs : List Scheduled) → in_lane id (es ++ fs) ≡ in_lane id es + in_lane id fs
in_lane-append id [] fs = omega arith
in_lane-append id (e ∷ es) fs = omega (arith, in_lane-append id es fs)

pub has-in_queue :
    (id : Text) (q : TaskQueue Scheduled)
    → (any (λ e. e.task.id == id) q.blocking || any (λ e. e.task.id == id) q.normal) ≡ false
    → in_queue id q ≡ 0
has-in_queue id q h =
    let (b, n) = or_false _ _ h in
    omega (arith, any-in_lane id q.blocking b, any-in_lane id q.normal n)

pub in_queue-enqueue :
    (id : Text) (x : Scheduled) (p : TaskPriority) (q : TaskQueue Scheduled)
    → in_queue id (enqueue x p q) ≡ one_if (x.task.id == id) + in_queue id q
unfolding enqueue
in_queue-enqueue id x TaskPriority.blocking q = omega (arith, in_lane-append id q.blocking (x ∷ []))
in_queue-enqueue id x TaskPriority.normal q = omega (arith, in_lane-append id q.normal (x ∷ []))

-- One task more that is nowhere yet keeps the identifiers apart.
pub one_new :
    (b : Bool) (m n k : ℕ) → m ≡ one_if b + n → n + k ≤ 1 → (b ≡ true → n + k ≡ 0) → m + k ≤ 1
one_new true m n k e h f = omega (arith, f refl)
one_new false m n k e h f = omega arith

pub accepted-IsSound :
    (x : Scheduled) (priority : TaskPriority) (s : TaskScheduler)
    → IsSound s
    → waiting x.task.id s + runs x.task.id s ≡ 0
    → IsSound (accepted x priority s)
accepted-IsSound x priority s v h =
    let lane = queue_for x.task in
    drain-IsSound _ (
      with_lane-IsSound lane (enqueue x priority (lane_of lane s)) s v (λ id.
        one_new (x.task.id == id) _ (waiting id s) (runs id s)
          (omega (
            arith,
            waiting-with_lane lane (enqueue x priority (lane_of lane s)) s id,
            in_queue-enqueue id x priority (lane_of lane s),
          ))
          (v.unique id)
          (λ same. subst (λ j. waiting j s + runs j s ≡ 0) ((==_iff x.task.id id).0 same) h)))

pub refuse_if-IsSound :
    (b : Bool) (e : SubmitError) (s : TaskScheduler) (rest : Option SubmitError × TaskScheduler)
    → IsSound s
    → (b ≡ false → IsSound rest.1)
    → IsSound (refuse_if b e s rest).1
refuse_if-IsSound true e s rest v k = v
refuse_if-IsSound false e s rest v k = k refl

pub submit_parsed-IsSound :
    (parsed : Option AgentTask) (priority : TaskPriority) (token : Option ℕ) (s : TaskScheduler)
    → IsSound s
    → IsSound (submit_parsed parsed priority token s).1
submit_parsed-IsSound none priority token s v = v
submit_parsed-IsSound (some task) priority token s v =
    refuse_if-IsSound (nat_eq task.depth 0) SubmitError.coordinator_task s _ v (λ _.
      refuse_if-IsSound (is_some (lookup task.id s.active) || has_queued task.id s)
        SubmitError.already_scheduled s _ v
        (λ absent. refuse_if-IsSound _ SubmitError.invalid_path s _ v (λ _.
          let (idle, unqueued) = or_false (is_some (lookup task.id s.active)) _ absent in
          let (two, r) = or_false _ _ unqueued in
          let (e, w) = or_false _ _ two in
          accepted-IsSound (record { task = task; overlap_token = token }) priority s v
            (omega (
              arith,
              ap one_if idle,
              has-in_queue task.id s.expert_queue e,
              has-in_queue task.id s.writer_queue w,
              has-in_queue task.id s.read_queue r,
            )))))

pub submit-IsSound :
    (parsed : Option AgentTask) (priority : TaskPriority) (token : Option ℕ) (s : TaskScheduler)
    → IsSound s
    → IsSound (submit parsed priority token s).1
unfolding submit
submit-IsSound parsed priority token s v =
    refuse_if-IsSound s.disposed SubmitError.scheduler_disposed s _ v
      (λ _. submit_parsed-IsSound parsed priority token s v)
