-- ===== src/Team/Scheduler/Bounds.antt =====
-- The limits of the scheduler of packages/agent-team/src/task-scheduler.ts: its counters are true,
-- and no task is in two places.
use dsh_backend_team.Base.{
  ℕ, suc, ◌+◌, ◌≤◌, ◌≡◌, refl, ap, ◌∙◌, Bool, true, false, Option, none, some, is_some, List, [],
  ◌∷◌, length, Text, ◌==◌, ==_refl, lookup, one_if, tally, All, if◌then◌else◌, arith,
}
use mathlib.Core.Path.{subst}
use mathlib.Core.Option.{some-injective}
use dsh_backend_team.Team.Queue.{
  TaskQueue, TaskPriority, size, peek, take_head, take_from, first_of,
}
use dsh_backend_team.Team.Scheduler.{
  Scheduled, TaskScheduler, is_expert, can_start, Lane, lane_of, with_lane, head_can_start,
  can_take, attempts, first_lane, next_lane, take_lane, take_next, queued,
}

-- How often a task with the identifier waits.
abbrev pub in_lane : Text → List Scheduled → ℕ
in_lane id [] = 0
in_lane id (e ∷ es) = one_if (e.task.id == id) + in_lane id es

abbrev pub in_queue : Text → TaskQueue Scheduled → ℕ
in_queue id q = in_lane id q.blocking + in_lane id q.normal

abbrev pub waiting : Text → TaskScheduler → ℕ
waiting id s = in_queue id s.expert_queue + in_queue id s.writer_queue + in_queue id s.read_queue

abbrev pub runs : Text → TaskScheduler → ℕ
runs id s = one_if (is_some (lookup id s.active))

-- An active task stands under its identifier, the counters count the active tasks and respect their limits, and a task identifier is at most
-- once among the waiting and the active tasks.
pub record IsSound (s : TaskScheduler) : Type 0 where
  pub unique : (id : Text) → waiting id s + runs id s ≤ 1
  pub experts : s.active_experts ≡ tally (λ a. is_expert a.task) s.active
  pub writers : s.active_writers ≡ tally (λ a. a.writer) s.active
  pub keyed : All (λ e. e.1.task.id ≡ e.0) s.active
  pub expert_limit : s.active_experts ≤ 3
  pub writer_limit : s.active_writers ≤ 2

-- What holds of a task that `takeNext` has taken.
pub record IsReady (x : Scheduled) (s : TaskScheduler) : Type 0 where
  pub sound : IsSound s
  pub alone : waiting x.task.id s + runs x.task.id s ≡ 0
  pub may_start : can_start x s ≡ true

pub take_head_lem :
    (q : TaskQueue Scheduled) (x : Scheduled)
    → (take_head (λ _. true) q).0 ≡ some x
    → (peek q ≡ some x)
      × ((id : Text)
          → in_queue id q ≡ one_if (x.task.id == id) + in_queue id (take_head (λ _. true) q).1)
      × (size q ≡ suc (size (take_head (λ _. true) q).1))
unfolding take_head peek
take_head_lem q x h = go q.blocking q.normal h
  where
    same : (id : Text) (y : Scheduled) → y ≡ x → one_if (y.task.id == id) ≡ one_if (x.task.id == id)
    same id y e = ap (λ z. one_if (z.task.id == id)) e

    go :
        (bs ns : List Scheduled)
        → (take_from (λ _. true) bs ns).0 ≡ some x
        → (first_of bs ns ≡ some x)
          × ((id : Text)
              → in_lane id bs + in_lane id ns
                ≡ one_if (x.task.id == id) + in_queue id (take_from (λ _. true) bs ns).1)
          × (length bs + length ns ≡ suc (size (take_from (λ _. true) bs ns).1))
    go [] [] h = absurd (ground arith)
    go [] (y ∷ ns) h = (h, (λ id. omega (arith, same id y (some-injective y x h))), omega arith)
    go (y ∷ bs) ns h = (h, (λ id. omega (arith, same id y (some-injective y x h))), omega arith)

pub first_lane_lem :
    (tries : List (TaskPriority × Lane)) (s : TaskScheduler) (lane : Lane)
    → first_lane tries s ≡ some lane
    → head_can_start (peek (lane_of lane s)) s ≡ true
unfolding first_lane
first_lane_lem [] s lane h = absurd (ground arith)
first_lane_lem ((p, l) ∷ rest) s lane h = go (can_take p l s) refl h (first_lane_lem rest s lane)
  where
    go :
        (b : Bool)
        → can_take p l s ≡ b
        → (if b then some l else first_lane rest s) ≡ some lane
        → (first_lane rest s ≡ some lane → head_can_start (peek (lane_of lane s)) s ≡ true)
        → head_can_start (peek (lane_of lane s)) s ≡ true
    go true e f ih =
        subst (λ k. head_can_start (peek (lane_of k s)) s ≡ true) (some-injective l lane f)
          (ground arith)
    go false e f ih = ih f

pub waiting-with_lane :
    (lane : Lane) (q : TaskQueue Scheduled) (s : TaskScheduler) (id : Text)
    → waiting id (with_lane lane q s) + in_queue id (lane_of lane s) ≡ waiting id s + in_queue id q
waiting-with_lane Lane.expert q s id = omega arith
waiting-with_lane Lane.writer q s id = omega arith
waiting-with_lane Lane.reader q s id = omega arith

pub can_start-with_lane :
    (lane : Lane) (q : TaskQueue Scheduled) (x : Scheduled) (s : TaskScheduler)
    → can_start x (with_lane lane q s) ≡ can_start x s
unfolding can_start
can_start-with_lane Lane.expert q x s = refl
can_start-with_lane Lane.writer q x s = refl
can_start-with_lane Lane.reader q x s = refl

pub runs-with_lane :
    (lane : Lane) (q : TaskQueue Scheduled) (s : TaskScheduler) (id : Text)
    → runs id (with_lane lane q s) ≡ runs id s
runs-with_lane Lane.expert q s id = refl
runs-with_lane Lane.writer q s id = refl
runs-with_lane Lane.reader q s id = refl

pub with_lane-IsSound :
    (lane : Lane) (q : TaskQueue Scheduled) (s : TaskScheduler)
    → IsSound s
    → ((id : Text) → waiting id (with_lane lane q s) + runs id s ≤ 1)
    → IsSound (with_lane lane q s)
with_lane-IsSound Lane.expert q s v h = record {
  unique = h;
  experts = v.experts;
  writers = v.writers;
  keyed = v.keyed;
  expert_limit = v.expert_limit;
  writer_limit = v.writer_limit;
}
with_lane-IsSound Lane.writer q s v h = record {
  unique = h;
  experts = v.experts;
  writers = v.writers;
  keyed = v.keyed;
  expert_limit = v.expert_limit;
  writer_limit = v.writer_limit;
}
with_lane-IsSound Lane.reader q s v h = record {
  unique = h;
  experts = v.experts;
  writers = v.writers;
  keyed = v.keyed;
  expert_limit = v.expert_limit;
  writer_limit = v.writer_limit;
}

pub queued-with_lane :
    (lane : Lane) (q : TaskQueue Scheduled) (s : TaskScheduler)
    → size (lane_of lane s) ≡ suc (size q)
    → queued s ≡ suc (queued (with_lane lane q s))
queued-with_lane Lane.expert q s h = omega arith
queued-with_lane Lane.writer q s h = omega arith
queued-with_lane Lane.reader q s h = omega arith

-- What `takeNext` gives out is ready, and leaves one task less.
pub take_next-IsReady :
    (x : Scheduled) (s : TaskScheduler)
    → IsSound s
    → (take_next s).0 ≡ some x
    → IsReady x (take_next s).1 × (queued s ≡ suc (queued (take_next s).1))
unfolding take_next
take_next-IsReady x s v h = go (next_lane s) refl h
  where
    go :
        (o : Option Lane)
        → next_lane s ≡ o
        → (take_lane o s).0 ≡ some x
        → IsReady x (take_lane o s).1 × (queued s ≡ suc (queued (take_lane o s).1))
    go none e f = absurd (ground arith)
    go (some lane) e f =
        let q = (take_head (λ _. true) (lane_of lane s)).1 in
        let (peeked, counts, shorter) = take_head_lem (lane_of lane s) x f in
        let can =
          subst (λ o. head_can_start o s ≡ true) peeked (first_lane_lem attempts s lane e) in
        let moved : (id : Text)
            → waiting id (with_lane lane q s) + one_if (x.task.id == id) ≡ waiting id s =
          λ id. omega (arith, waiting-with_lane lane q s id, counts id) in
        let own : one_if (x.task.id == x.task.id) ≡ 1 = ap one_if (==_refl x.task.id) in
        (
          record {
            sound = with_lane-IsSound lane q s v (λ id. omega (arith, moved id, v.unique id));
            alone = omega (
              arith,
              moved x.task.id,
              own,
              v.unique x.task.id,
              runs-with_lane lane q s x.task.id,
            );
            may_start = can_start-with_lane lane q x s ∙ can;
          },
          queued-with_lane lane q s shorter,
        )
