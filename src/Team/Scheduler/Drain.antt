-- ===== src/Team/Scheduler/Drain.antt =====
-- The loop `drain` of packages/agent-team/src/task-scheduler.ts: what it keeps, and where it ends.
use mathlib.Core.Option.{some-injective}
use dsh_backend_team.Base.{
  Bool-cases, inr, inl, not, Bool, leb, ◌&&◌, All, any, length, ◌⊎◌, ℕ, zero, suc, ◌+◌, ◌≤◌, ◌≡◌,
  refl, sym, ap, ◌∙◌, true, false, Option, none, some, List, [], ◌∷◌, if◌then◌else◌, arith,
}
use mathlib.Core.Path.{subst}
use dsh_backend_team.Team.Queue.{
  priority_of, TaskPriority, peek_priority, TaskQueue, peek, take_head, take_from, first_of,
}
use dsh_backend_team.Team.Scheduler.{
  paths_meet, is_authorized, is_writer, same_priority, can_take, is_expert, first_lane, can_start,
  Scheduled, TaskScheduler, start, Lane, lane_of, head_can_start, attempts, next_lane, take_lane,
  take_next, drain_rounds, queued, drain,
}
use dsh_backend_team.Team.Scheduler.Bounds.{IsSound, first_lane_lem, take_next-IsReady}
use dsh_backend_team.Team.Scheduler.Start.{start-IsSound, start-queued}

take_head-none : (q : TaskQueue Scheduled) → (take_head (λ _. true) q).0 ≡ none → peek q ≡ none
unfolding take_head peek
take_head-none q h = go q.blocking q.normal h
  where
    go : (bs ns : List Scheduled) → (take_from (λ _. true) bs ns).0 ≡ none → first_of bs ns ≡ none
    go [] [] h = refl
    go [] (y ∷ ns) h = absurd (ground arith)
    go (y ∷ bs) ns h = absurd (ground arith)

-- Where `takeNext` gives out nothing, no lane has a head that can start.
take_next-none :
    (s : TaskScheduler) → (take_next s).0 ≡ none → (next_lane s ≡ none) × ((take_next s).1 ≡ s)
unfolding take_next
take_next-none s h = go (next_lane s) refl h
  where
    go :
        (o : Option Lane)
        → next_lane s ≡ o
        → (take_lane o s).0 ≡ none
        → (next_lane s ≡ none) × ((take_lane o s).1 ≡ s)
    go none e f = (e, refl)
    go (some lane) e f =
        let can = first_lane_lem attempts s lane e in
        let gone = subst (λ o. head_can_start o s ≡ true) (take_head-none (lane_of lane s) f) can in
        absurd (ground arith)

drain_rounds-IsSound : (n : ℕ) (s : TaskScheduler) → IsSound s → IsSound (drain_rounds n s)
unfolding drain_rounds
drain_rounds-IsSound zero s v = v
drain_rounds-IsSound (suc n) s v =
    go (take_next s) refl (λ x r. drain_rounds-IsSound n (start x (take_next s).1) r)
  where
    go :
        (o : Option Scheduled × TaskScheduler)
        → take_next s ≡ o
        → ((x : Scheduled)
            → IsSound (start x (take_next s).1)
            → IsSound (drain_rounds n (start x (take_next s).1)))
        → IsSound (elim o.0 as (λ _. TaskScheduler) [
          | none ↦ o.1
          | some x ↦ drain_rounds n (start x o.1)
        ])
    go (none, t) e k =
        subst IsSound (sym (take_next-none s (ap (λ p. p.0) e)).1 ∙ ap (λ p. p.1) e) v
    go (some x, t) e k =
        subst (λ u. IsSound (drain_rounds n (start x u))) (ap (λ p. p.1) e)
          (k x (start-IsSound x (take_next s).1 (take_next-IsReady x s v (ap (λ p. p.0) e)).0))

pub drain-IsSound : (s : TaskScheduler) → IsSound s → IsSound (drain s)
unfolding drain
drain-IsSound s v =
    elim s.disposed as (λ b. IsSound (if b then s else drain_rounds (queued s + 1) s)) [
      | true ↦ v
      | false ↦ drain_rounds-IsSound (queued s + 1) s v
    ]

drain_rounds-done :
    (n : ℕ) (s : TaskScheduler)
    → IsSound s
    → suc (queued s) ≤ n
    → next_lane (drain_rounds n s) ≡ none
unfolding drain_rounds
drain_rounds-done zero s v h = absurd (omega arith)
drain_rounds-done (suc n) s v h = go (take_next s) refl (λ t. drain_rounds-done n t)
  where
    go :
        (o : Option Scheduled × TaskScheduler)
        → take_next s ≡ o
        → ((t : TaskScheduler)
            → IsSound t
            → suc (queued t) ≤ n
            → next_lane (drain_rounds n t) ≡ none)
        → next_lane (elim o.0 as (λ _. TaskScheduler) [
          | none ↦ o.1
          | some x ↦ drain_rounds n (start x o.1)
        ])
          ≡ none
    go (none, t) e k =
        let (idle, same) = take_next-none s (ap (λ p. p.0) e) in
        subst (λ u. next_lane u ≡ none) (sym same ∙ ap (λ p. p.1) e) idle
    go (some x, t) e k =
        let (ready, shorter) = take_next-IsReady x s v (ap (λ p. p.0) e) in
        subst (λ u. next_lane (drain_rounds n (start x u)) ≡ none) (ap (λ p. p.1) e)
          (k (start x (take_next s).1) (start-IsSound x (take_next s).1 ready)
            (omega (arith, shorter, start-queued x (take_next s).1)))

-- A lane whose head can start is tried, whatever the priority of its head is.
first_lane-none :
    (tries : List (TaskPriority × Lane)) (s : TaskScheduler)
    → first_lane tries s ≡ none
    → All (λ t. can_take t.0 t.1 s ≡ false) tries
unfolding first_lane
first_lane-none [] s h = tt
first_lane-none ((p, l) ∷ rest) s h = go (can_take p l s) refl h (first_lane-none rest s)
  where
    go :
        (b : Bool)
        → can_take p l s ≡ b
        → (if b then some l else first_lane rest s) ≡ none
        → (first_lane rest s ≡ none → All (λ t. can_take t.0 t.1 s ≡ false) rest)
        → (can_take p l s ≡ false) × All (λ t. can_take t.0 t.1 s ≡ false) rest
    go true e f ih = absurd (ground arith)
    go false e f ih = (e, ih f)

can_take-lane :
    (lane : Lane) (s : TaskScheduler) (x : Scheduled)
    → can_take TaskPriority.blocking lane s ≡ false
    → can_take TaskPriority.normal lane s ≡ false
    → peek (lane_of lane s) ≡ some x
    → can_start x s ≡ false
unfolding peek peek_priority
can_take-lane lane s x b n h = go (lane_of lane s).blocking (lane_of lane s).normal b n h
  where
    go :
        (bs ns : List Scheduled)
        → (same_priority (priority_of bs ns) TaskPriority.blocking
            && head_can_start (first_of bs ns) s)
          ≡ false
        → (same_priority (priority_of bs ns) TaskPriority.normal
            && head_can_start (first_of bs ns) s)
          ≡ false
        → first_of bs ns ≡ some x
        → can_start x s ≡ false
    go [] [] b n h = absurd (ground arith)
    go [] (y ∷ ns) b n h = subst (λ z. can_start z s ≡ false) (some-injective y x h) n
    go (y ∷ bs) ns b n h = subst (λ z. can_start z s ≡ false) (some-injective y x h) b

next_lane-none :
    (s : TaskScheduler) (lane : Lane) (x : Scheduled)
    → next_lane s ≡ none
    → peek (lane_of lane s) ≡ some x
    → can_start x s ≡ false
next_lane-none s lane x h p =
    let (be, (bw, (br, (ne, (nw, (nr, _)))))) = first_lane-none attempts s h in
    elim lane as (λ l. peek (lane_of l s) ≡ some x → can_start x s ≡ false) [
      | Lane.expert ↦ can_take-lane Lane.expert s x be ne
      | Lane.writer ↦ can_take-lane Lane.writer s x bw nw
      | Lane.reader ↦ can_take-lane Lane.reader s x br nr
    ]
      p

-- Why a task has to wait: three experts or two writers are active, or a path that it writes meets
-- one of a writer that it may not overlap.
abbrev pub IsHeldBack : Scheduled → TaskScheduler → Type 0
IsHeldBack x s =
    ((x.task.depth ≡ 1) × (3 ≤ s.active_experts))
    ⊎ (((1 ≤ length x.task.write_paths) × (2 ≤ s.active_writers))
        ⊎ (any (λ e. not (is_authorized x e.0 s) && paths_meet x.task.write_paths e.1)
              s.writer_paths
            ≡ true))

can_start-IsHeldBack : (x : Scheduled) (s : TaskScheduler) → can_start x s ≡ false → IsHeldBack x s
unfolding can_start
can_start-IsHeldBack x s h =
    go (Bool-cases (is_expert x.task && leb 3 s.active_experts))
      (Bool-cases (is_writer x.task && leb 2 s.active_writers))
  where
    go :
        (e : (is_expert x.task && leb 3 s.active_experts ≡ true)
          ⊎ (is_expert x.task && leb 3 s.active_experts ≡ false))
        (w : (is_writer x.task && leb 2 s.active_writers ≡ true)
          ⊎ (is_writer x.task && leb 2 s.active_writers ≡ false))
        → IsHeldBack x s
    go (inl e) w = inl (ground arith, ground arith)
    go (inr e) (inl w) = inr (inl (ground arith, ground arith))
    go (inr e) (inr w) = inr (inr (ground arith))

drain-next_lane : (s : TaskScheduler) → IsSound s → s.disposed ≡ false → next_lane (drain s) ≡ none
unfolding drain
drain-next_lane s v h =
    subst (λ b. next_lane (if b then s else drain_rounds (queued s + 1) s) ≡ none) (sym h)
      (drain_rounds-done (queued s + 1) s v (omega arith))

-- A drain of a sound scheduler that is not disposed ends, within its fuel, where the task at the
-- head of any of the three lanes has to wait: it is an expert and three experts are active, or it
-- writes and two writers are active, or a path that it writes meets one of an active writer that
-- it may not overlap.
pub drain-done :
    (s : TaskScheduler) (lane : Lane) (x : Scheduled)
    → IsSound s
    → s.disposed ≡ false
    → peek (lane_of lane (drain s)) ≡ some x
    → IsHeldBack x (drain s)
drain-done s lane x v h p =
    can_start-IsHeldBack x (drain s) (next_lane-none (drain s) lane x (drain-next_lane s v h) p)
