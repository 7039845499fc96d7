-- ===== src/Team/Scheduler/Start.antt =====
-- Starting a task keeps the limits (`start` of packages/agent-team/src/task-scheduler.ts).
use dsh_backend_team.Base.{
  ℕ, ◌+◌, ◌≤◌, ◌≡◌, refl, sym, ◌∙◌, Bool, true, false, not, ◌&&◌, ◌||◌, Option, none, some, is_some,
  List, Text, ◌==◌, ==_iff, leb, nat_eq, lookup, one_if, is_some-lookup-set, tally-set_fresh,
  set-All, if◌then◌else◌, arith,
}
use mathlib.Core.Path.{subst}
use dsh_backend_team.Team.Budget.Ledger.{
  LedgerError, BudgetReservation, Ledger, Outcome, done, failed, register, reserve,
}
use dsh_backend_team.Team.Scheduler.{
  Scheduled, Settlement, TaskScheduler, or_empty, is_writer, is_expert, can_start, started, refused,
  start_child, start_top, start, queued,
}
use dsh_backend_team.Team.Scheduler.Bounds.{waiting, runs, IsSound, IsReady}

pub one_more :
    (b p q : Bool) (n : ℕ)
    → p ≡ (b || q)
    → n + one_if q ≤ 1
    → (b ≡ true → n + one_if q ≡ 0)
    → n + one_if p ≤ 1
one_more true p true n e h k = absurd (omega (arith, k refl))
one_more true true false n e h k = omega (arith, k refl)
one_more true false false n e h k = omega (arith, k refl)
one_more false true false n e h k = absurd (ground arith)
one_more false false false n e h k = h
one_more false true true n e h k = h
one_more false false true n e h k = absurd (ground arith)

pub if_add : (t : Bool) (n k : ℕ) → n ≡ k → (if t then n + 1 else n) ≡ k + one_if t
if_add true n k e = omega arith
if_add false n k e = omega arith

pub if_limit :
    (t : Bool) (n k : ℕ) → n ≤ k → not (t && leb k n) ≡ true → (if t then n + 1 else n) ≤ k
if_limit true n k h e = ground arith
if_limit false n k h e = h

pub none_running : (b : Bool) (n : ℕ) → n + one_if b ≡ 0 → b ≡ false
none_running true n h = absurd (omega arith)
none_running false n h = refl

pub and_left : (a b : Bool) → (a && b) ≡ true → a ≡ true
and_left a b h = ground arith

pub and_right : (a b : Bool) → (a && b) ≡ true → b ≡ true
and_right a b h = ground arith

pub started-IsSound :
    (x : Scheduled) (r : Option BudgetReservation) (l : Ledger) (s : TaskScheduler)
    → IsReady x s
    → IsSound (started x r l s)
unfolding can_start
started-IsSound x r l s v =
    let fresh = none_running (is_some (lookup x.task.id s.active)) (waiting x.task.id s) v.alone in
    let first_two = and_left _ _ v.may_start in
    record {
      unique = λ id.
          one_more (x.task.id == id) _ (is_some (lookup id s.active)) (waiting id s)
            (is_some-lookup-set id x.task.id _ s.active) (v.sound.unique id)
            (λ same.
              subst (λ j. waiting j s + runs j s ≡ 0) ((==_iff x.task.id id).0 same) v.alone);
      experts =
          if_add (is_expert x.task) s.active_experts _ v.sound.experts
          ∙ sym (tally-set_fresh (λ a. is_expert a.task) x.task.id _ s.active fresh);
      writers =
          if_add (is_writer x.task) s.active_writers _ v.sound.writers
          ∙ sym (tally-set_fresh (λ a. a.writer) x.task.id _ s.active fresh);
      keyed = set-All (λ e. e.1.task.id ≡ e.0) x.task.id _ s.active refl v.sound.keyed;
      expert_limit =
          if_limit (is_expert x.task) s.active_experts 3 v.sound.expert_limit
            (and_left _ _ first_two);
      writer_limit =
          if_limit (is_writer x.task) s.active_writers 2 v.sound.writer_limit
            (and_right _ _ first_two);
    }

-- The invariant does not read the other fields.
pub same-IsSound :
    (s : TaskScheduler) (l : Ledger) (b c : List Text) (d : Bool) (e : List (Text × Settlement))
    → IsSound s
    → IsSound
        (record s { ledger = l; blocked = b; cancel_requested = c; disposed = d; settled = e })
same-IsSound s l b c d e v = record {
  unique = v.unique;
  experts = v.experts;
  writers = v.writers;
  keyed = v.keyed;
  expert_limit = v.expert_limit;
  writer_limit = v.writer_limit;
}

pub refused-IsSound :
    (id : Text) (e : LedgerError) (l : Ledger) (s : TaskScheduler)
    → IsSound s
    → IsSound (refused id e l s)
refused-IsSound id e l s v = same-IsSound s l _ s.cancel_requested s.disposed _ v

pub start-IsSound : (x : Scheduled) (s : TaskScheduler) → IsReady x s → IsSound (start x s)
unfolding start
start-IsSound x s v = go (nat_eq x.task.depth 2)
  where
    child : (o : Outcome BudgetReservation × Ledger) → IsSound (start_child x o s)
    child (done r, l) = started-IsSound x (some r) l s v
    child (failed e, l) = refused-IsSound x.task.id e l s v.sound

    top : (o : Outcome (Unit {0}) × Ledger) → IsSound (start_top x o s)
    top (done _, l) = started-IsSound x none l s v
    top (failed e, l) = refused-IsSound x.task.id e l s v.sound

    go :
        (b : Bool)
        → IsSound (
            if b
            then start_child x
                (reserve (or_empty x.task.parent_task_id) x.task.id x.task.budget s.ledger)
                s
            else start_top x (register x.task.id x.task.budget s.ledger) s)
    go true = child _
    go false = top _

pub start-queued : (x : Scheduled) (s : TaskScheduler) → queued (start x s) ≡ queued s
unfolding start
start-queued x s = go (nat_eq x.task.depth 2)
  where
    child : (o : Outcome BudgetReservation × Ledger) → queued (start_child x o s) ≡ queued s
    child (done r, l) = refl
    child (failed e, l) = refl

    top : (o : Outcome (Unit {0}) × Ledger) → queued (start_top x o s) ≡ queued s
    top (done _, l) = refl
    top (failed e, l) = refl

    go :
        (b : Bool)
        → queued (
            if b
            then start_child x
                (reserve (or_empty x.task.parent_task_id) x.task.id x.task.budget s.ledger)
                s
            else start_top x (register x.task.id x.task.budget s.ledger) s)
          ≡ queued s
    go true = child _
    go false = top _
