-- ===== src/Team/Scheduler/Finish.antt =====
-- The end of a run keeps the limits (`run` and `release` of packages/agent-team/src/task-scheduler.ts).
use dsh_backend_team.Base.{
  ℕ, ◌+◌, ◌-◌, ◌≤◌, ◌≡◌, refl, sym, ap, ◌∙◌, Bool, true, false, not, ◌||◌, Option, none, some,
  is_some, Text, text_member, set-All, delete-All, lookup-All_entry, ◌==◌, ==_iff, filter, lookup,
  set, one_if, is_some-lookup-set, is_some-lookup-delete, tally-set_same, tally-delete,
  if◌then◌else◌, arith,
}
use mathlib.Core.Path.{subst}
use dsh_backend_team.Team.Budget.Ledger.{Ledger, Outcome, done, failed}
use dsh_backend_team.Team.Scheduler.{
  is_exhausted, Active, Settlement, TaskScheduler, is_expert, settle, drain,
}
use dsh_backend_team.Team.Scheduler.Runs.{
  begin_failure, begin_found, begin_charged, give_back, Ending, fail, charged, charge, conclude,
  release_held_by, finalize, finish_found, finish,
}
use dsh_backend_team.Team.Scheduler.Start.{same-IsSound}
use dsh_backend_team.Team.Scheduler.Drain.{drain-IsSound}
use dsh_backend_team.Team.Scheduler.Bounds.{waiting, IsSound}

pub fail-IsSound :
    (a : Active) (x y : Bool) (s : TaskScheduler) → IsSound s → IsSound (fail a x y s)
fail-IsSound a x y s v = same-IsSound s _ _ s.cancel_requested s.disposed _ v

pub conclude-IsSound :
    (a : Active) (ending : Ending) (s : TaskScheduler) → IsSound s → IsSound (conclude a ending s)
unfolding conclude
conclude-IsSound a (Ending.thrown x y) s v = fail-IsSound a x y s v
conclude-IsSound a (Ending.returned usage) s v =
    go (text_member a.task.id s.cancel_requested) (charge a usage s.ledger)
  where
    go :
        (b : Bool) (o : Outcome (Unit {0}) × Ledger)
        → IsSound (if b then settle a.task.id Settlement.resolved_undefined s else charged a o s)
    go true o = same-IsSound s s.ledger s.blocked s.cancel_requested s.disposed _ v
    go false (done _, l) = same-IsSound s l s.blocked s.cancel_requested s.disposed _ v
    go false (failed e, l) =
        fail-IsSound a (is_exhausted e) false (record s { ledger = l })
          (same-IsSound s l s.blocked s.cancel_requested s.disposed s.settled v)

pub conclude-active :
    (a : Active) (ending : Ending) (s : TaskScheduler) → (conclude a ending s).active ≡ s.active
unfolding conclude
conclude-active a (Ending.thrown x y) s = refl
conclude-active a (Ending.returned usage) s =
    go (text_member a.task.id s.cancel_requested) (charge a usage s.ledger)
  where
    go :
        (b : Bool) (o : Outcome (Unit {0}) × Ledger)
        → (if b then settle a.task.id Settlement.resolved_undefined s else charged a o s).active
          ≡ s.active
    go true o = refl
    go false (done _, l) = refl
    go false (failed e, l) = refl

pub less : (b c : Bool) (n : ℕ) → (b ≡ true → c ≡ true) → n + one_if c ≤ 1 → n + one_if b ≤ 1
less true c n h k = ground (arith, h refl)
less false true n h k = omega arith
less false false n h k = k

pub if_sub : (t : Bool) (n k m : ℕ) → n ≡ m → m ≡ k + one_if t → (if t then n - 1 else n) ≡ k
if_sub true n k m e h = omega arith
if_sub false n k m e h = omega arith

pub if_sub_le : (t : Bool) (n k : ℕ) → n ≤ k → (if t then n - 1 else n) ≤ k
if_sub_le true n k h = omega arith
if_sub_le false n k h = h

pub present :
    (id : Text) (a b : Active) (s : TaskScheduler)
    → lookup a.task.id s.active ≡ some a
    → is_some (lookup id (set a.task.id b s.active)) ≡ true
    → is_some (lookup id s.active) ≡ true
present id a b s h k =
    go (a.task.id == id) refl (sym (is_some-lookup-set id a.task.id b s.active) ∙ k)
  where
    go :
        (t : Bool)
        → (a.task.id == id) ≡ t
        → (t || is_some (lookup id s.active)) ≡ true
        → is_some (lookup id s.active) ≡ true
    go true e f =
        subst (λ j. is_some (lookup j s.active) ≡ true) ((==_iff a.task.id id).0 e) (ap is_some h)
    go false e f = f

pub release_held_by-IsSound :
    (a : Active) (o : Outcome (Unit {0}) × Ledger) (s : TaskScheduler)
    → IsSound s
    → lookup a.task.id s.active ≡ some a
    → IsSound (release_held_by a o s)
release_held_by-IsSound a (done _, l) s v h = drain-IsSound _ (record {
  unique =
      λ id. less _ _ (waiting id s) (is_some-lookup-delete id a.task.id s.active) (v.unique id);
  experts =
      if_sub (is_expert a.task) s.active_experts _ _ v.experts
        (tally-delete (λ b. is_expert b.task) a.task.id a s.active h);
  writers =
      if_sub a.writer s.active_writers _ _ v.writers
        (tally-delete (λ b. b.writer) a.task.id a s.active h);
  keyed = delete-All (λ e. e.1.task.id ≡ e.0) a.task.id s.active v.keyed;
  expert_limit = if_sub_le (is_expert a.task) s.active_experts 3 v.expert_limit;
  writer_limit = if_sub_le a.writer s.active_writers 2 v.writer_limit;
})
release_held_by-IsSound a (failed e, l) s v h = record {
  unique = λ id. less _ _ (waiting id s) (present id a _ s h) (v.unique id);
  experts = v.experts ∙ sym (tally-set_same (λ b. is_expert b.task) a.task.id a _ s.active h refl);
  writers = v.writers ∙ sym (tally-set_same (λ b. b.writer) a.task.id a _ s.active h refl);
  keyed = set-All (λ e. e.1.task.id ≡ e.0) a.task.id _ s.active refl v.keyed;
  expert_limit = v.expert_limit;
  writer_limit = v.writer_limit;
}

pub finalize-IsSound :
    (a : Active) (s : TaskScheduler)
    → IsSound s
    → lookup a.task.id s.active ≡ some a
    → IsSound (finalize a s)
unfolding finalize
finalize-IsSound a s v h = go a.released
  where
    go :
        (b : Bool)
        → IsSound (
            if b
            then drain (record s {
              cancel_requested = filter (λ id. not (id == a.task.id)) s.cancel_requested;
            })
            else release_held_by a (give_back a.reservation s.ledger) s)
    go true = drain-IsSound _ (same-IsSound s s.ledger s.blocked _ s.disposed s.settled v)
    go false = release_held_by-IsSound a (give_back a.reservation s.ledger) s v h

pub finish-IsSound :
    (id : Text) (ending : Ending) (s : TaskScheduler) → IsSound s → IsSound (finish id ending s)
unfolding finish
finish-IsSound id ending s v = go (lookup id s.active) refl
  where
    go : (o : Option Active) → lookup id s.active ≡ o → IsSound (finish_found o ending s)
    go none e = v
    go (some a) e =
        let key = lookup-All_entry (λ x. x.1.task.id ≡ x.0) id a s.active v.keyed e in
        finalize-IsSound a (conclude a ending s) (conclude-IsSound a ending s v)
          (ap (lookup a.task.id) (conclude-active a ending s) ∙ ap (λ j. lookup j s.active) key ∙ e)

pub begin_failure-IsSound :
    (id : Text) (ending : Ending) (s : TaskScheduler)
    → IsSound s
    → IsSound (begin_failure id ending s)
unfolding begin_failure
begin_failure-IsSound id ending s v = go (lookup id s.active) ending
  where
    started :
        (a : Active) (b : Bool) (o : Outcome (Unit {0}) × Ledger)
        → IsSound (if b then s else begin_charged a o s)
    started a true o = v
    started a false (done _, l) = v
    started a false (failed e, l) = same-IsSound s l _ s.cancel_requested s.disposed s.settled v

    go : (o : Option Active) (ending : Ending) → IsSound (begin_found o ending s)
    go none ending = v
    go (some a) (Ending.thrown x y) =
        same-IsSound s s.ledger _ s.cancel_requested s.disposed s.settled v
    go (some a) (Ending.returned usage) =
        started a (text_member a.task.id s.cancel_requested) (charge a usage s.ledger)
