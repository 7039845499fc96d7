-- ===== src/Team/Tests.antt =====
-- Runs of packages/agent-team, and its theorems at concrete inputs.
use dsh_backend_team.Base.{
  sym, ◌∙◌, ==_iff, ◌≤◌, ◌+◌, ◌++◌, starts_with, ◌||◌, All, any, leb, length, sort, text_lt, Bool,
  ◌≡◌, refl, ℕ, true, false, none, some, Option, List, [], ◌∷◌, Text, codes, ◌==◌, nat_eq, trim,
  trim_start, is_space, lookup, arith,
}
use dsh_backend_team.Team.Queue.{
  peek_priority, peek, normal_of, blocking_of, enqueue, enqueue_all, take_head, TaskQueue,
  TaskPriority, empty, order, take_all, remove, cut, take_all-order, remove-order,
}
use dsh_backend_team.Team.Scopes.{matches_pattern, intersect_paths, intersect_paths-full}
use dsh_backend_team.Team.Paths.{
  overlaps, is_path_within, is_safe_workspace_path, safe_path, sensitive_path,
}
use dsh_backend_team.Team.Capabilities.{
  Capability, PartialCapabilitySet, AgentCapabilitySet, intersect_flags, intersection,
  intersect_capabilities, Within, IsChild, intersect_capabilities-Within,
}
use dsh_backend_team.Team.Capabilities.Accepted.{intersect_capabilities-accepted}
use dsh_backend_team.Team.Budget.{AgentBudget, ConsumedBudget}
use dsh_backend_team.Team.Budget.Ledger.{Ledger}
use dsh_backend_team.Team.Budget.Ledger.Bounds.{
  AllWithin, LedgerCall, ledger_after_all, ledger_after_all-AllWithin,
}
use dsh_backend_team.Team.Scheduler.{
  Scheduled, lane_of, can_start, first_lane, take_next, drain_rounds, Lane, AgentTask,
  TaskScheduler, drain,
}
use dsh_backend_team.Team.Scheduler.Runs.{Ending}
use dsh_backend_team.Team.Scheduler.Bounds.{IsSound, waiting, runs}
use dsh_backend_team.Team.Scheduler.Drain.{IsHeldBack, drain-done}
use dsh_backend_team.Team.Scheduler.Reachable.{Event, scheduler_after, Reach, Reach-IsSound}

abbrev queue : TaskQueue ℕ
queue = record { blocking = 1 ∷ 2 ∷ []; normal = 3 ∷ 4 ∷ [] }

abbrev arrivals : List (ℕ × TaskPriority)
arrivals =
    (5, TaskPriority.normal)
    ∷ (6, TaskPriority.blocking)
    ∷ (7, TaskPriority.normal)
    ∷ (8, TaskPriority.blocking)
    ∷ []

take_all_example :
    take_all 8 (enqueue_all arrivals queue)
    ≡ (queue.blocking ++ blocking_of arrivals) ++ (queue.normal ++ normal_of arrivals)
take_all_example = take_all-order 8 arrivals queue (omega arith)

take_all_run : take_all 8 (enqueue_all arrivals queue) ≡ 1 ∷ 2 ∷ 6 ∷ 8 ∷ 3 ∷ 4 ∷ 5 ∷ 7 ∷ []
unfolding take_all take_head enqueue_all enqueue
take_all_run = refl

remove_example :
    ((remove (λ x. nat_eq x 3) queue).0, order (remove (λ x. nat_eq x 3) queue).1)
    ≡ cut (λ x. nat_eq x 3) (order queue)
remove_example = remove-order (λ x. nat_eq x 3) queue

abbrev budget : AgentBudget
budget = record {
  max_tokens = 100;
  max_wall_ms = 1000;
  max_tool_calls = 10;
  max_retries = 2;
  max_children = 2;
}

abbrev usage : ConsumedBudget
usage = record { tokens = 50; wall_ms = 10; tool_calls = 1; retries = 0; children = 0 }

abbrev empty_ledger : Ledger
empty_ledger = record { records = []; handles = 0 }

abbrev ledger_calls : List LedgerCall
ledger_calls =
    LedgerCall.registers (codes "p") budget
    ∷ LedgerCall.records (codes "p") usage
    ∷ LedgerCall.reserves (codes "p") (codes "c") budget
    ∷ LedgerCall.reserves (codes "p") (codes "c")
        (record budget { max_tokens = 40; max_wall_ms = 5; max_tool_calls = 1 })
    ∷ []

ledger_example : AllWithin (ledger_after_all ledger_calls empty_ledger)
ledger_example = ledger_after_all-AllWithin ledger_calls empty_ledger tt

abbrev idle : TaskScheduler
idle = record {
  expert_queue = empty;
  writer_queue = empty;
  read_queue = empty;
  active = [];
  writer_paths = [];
  blocked = [];
  cancel_requested = [];
  ledger = empty_ledger;
  disposed = false;
  active_experts = 0;
  active_writers = 0;
  settled = [];
}

idle-IsSound : IsSound idle
unfolding lookup
idle-IsSound = record {
  unique = λ id. omega arith;
  experts = refl;
  writers = refl;
  keyed = tt;
  expert_limit = omega arith;
  writer_limit = omega arith;
}

abbrev expert_task : Text → AgentTask
expert_task id = record {
  id = id;
  parent_task_id = none;
  depth = 1;
  read_paths = [];
  write_paths = id ∷ [];
  budget = budget;
}

abbrev submission : Text → Event
submission id = Event.submits (some (expert_task id)) TaskPriority.normal none

reached : Reach idle (
    scheduler_after (Event.finishes (codes "a") (Ending.returned usage)) (
      scheduler_after
        (submission (codes "c"))
        (scheduler_after (submission (codes "b")) (scheduler_after (submission (codes "a")) idle))))
reached =
    Reach.next
      (Reach.next
        (Reach.next (Reach.next Reach.here (submission (codes "a"))) (submission (codes "b")))
        (submission (codes "c")))
      (Event.finishes (codes "a") (Ending.returned usage))

scheduler_example : IsSound (
    scheduler_after (Event.finishes (codes "a") (Ending.returned usage)) (
      scheduler_after
        (submission (codes "c"))
        (scheduler_after (submission (codes "b")) (scheduler_after (submission (codes "a")) idle))))
scheduler_example = Reach-IsSound idle-IsSound reached

-- An expert that writes `x` is active, and one that writes it too waits.
abbrev rival : Scheduled
rival = record {
  task = record (expert_task (codes "w")) { write_paths = codes "x" ∷ [] };
  overlap_token = none;
}

abbrev busy : TaskScheduler
busy = record idle {
  expert_queue = record { blocking = []; normal = rival ∷ [] };
  active =
      (
        codes "x",
        record {
          task = expert_task (codes "x");
          reservation = none;
          writer = true;
          released = false;
          scheduled = record { task = expert_task (codes "x"); overlap_token = none };
        },
      )
      ∷ [];
  writer_paths = (codes "x", codes "x" ∷ []) ∷ [];
  active_experts = 1;
  active_writers = 1;
}

busy_unique : (id : Text) → waiting id busy + runs id busy ≤ 1
unfolding lookup
busy_unique id = go (codes "w" == id) (codes "x" == id) refl refl
  where
    go :
        (a b : Bool)
        → (codes "w" == id) ≡ a
        → (codes "x" == id) ≡ b
        → waiting id busy + runs id busy ≤ 1
    go true true e f =
        let same : codes "w" ≡ codes "x" =
          (==_iff (codes "w") id).0 e ∙ sym ((==_iff (codes "x") id).0 f) in
        absurd (ground arith)
    go true false e f = ground arith
    go false true e f = ground arith
    go false false e f = ground arith

busy-IsSound : IsSound busy
busy-IsSound = record {
  unique = busy_unique;
  experts = refl;
  writers = refl;
  keyed = (refl, tt);
  expert_limit = omega arith;
  writer_limit = omega arith;
}

held_run : peek (lane_of Lane.expert (drain busy)) ≡ some rival
unfolding peek drain drain_rounds take_next first_lane can_start take_head peek_priority starts_with
    overlaps lookup ◌==◌
held_run = refl

drain_example : IsHeldBack rival (drain busy)
drain_example = drain-done busy Lane.expert rival busy-IsSound refl held_run

env_example : is_safe_workspace_path (codes "src/.env.local") ≡ false
unfolding safe_path sensitive_path starts_with ◌==◌
env_example = refl

safe_example : is_safe_workspace_path (codes "src/tokens/index.ts") ≡ true
unfolding safe_path sensitive_path starts_with ◌==◌
safe_example = refl

token_example : is_safe_workspace_path (codes "src/my-Token.ts") ≡ false
unfolding safe_path sensitive_path starts_with ◌==◌
token_example = refl

-- Everything is granted, and two hosts are named, one of them twice.
abbrev generous : PartialCapabilitySet
generous = record {
  flag = λ c. some true;
  network_hosts = some (codes " Example.com" ∷ codes "example.com" ∷ codes "b.org" ∷ []);
}

abbrev reading : Capability → Option Bool
reading Capability.read_project_files = some true
reading Capability.can_delegate = some true
reading _ = none

abbrev modest : PartialCapabilitySet
modest = record { flag = reading; network_hosts = some (codes "example.com" ∷ []) }

abbrev granted_child : AgentCapabilitySet
granted_child = record {
  flag = intersect_flags generous generous modest generous;
  network_hosts = codes "example.com" ∷ [];
}

intersect_capabilities_example :
    Within granted_child generous
    × Within granted_child generous
    × Within granted_child modest
    × Within granted_child generous
    × IsChild granted_child
unfolding intersect_capabilities trim trim_start is_space ◌==◌
intersect_capabilities_example =
    intersect_capabilities-Within generous generous modest generous granted_child refl

intersect_capabilities_accepted_example :
    intersect_capabilities generous generous modest generous
    ≡ some (intersection generous generous modest generous)
unfolding intersect_capabilities trim trim_start is_space ◌==◌
intersect_capabilities_accepted_example =
    intersect_capabilities-accepted generous generous modest generous refl (omega arith)

intersect_paths_example :
    All
      (λ path.
        (safe_path path ≡ true)
        × (any (λ scope. is_path_within path scope) (codes "src" ∷ []) ≡ true)
        × ((leb (length (codes "src/**" ∷ [])) 0
              || any (λ pattern. matches_pattern path pattern) (codes "src/**" ∷ []))
            ≡ true))
      (codes "src/a.ts" ∷ codes "src/b.ts" ∷ [])
unfolding intersect_paths sort safe_path sensitive_path is_path_within starts_with matches_pattern
    ◌==◌ text_lt
intersect_paths_example =
    intersect_paths-full (codes "src" ∷ []) (codes "src/a.ts" ∷ codes "src/b.ts" ∷ [])
      (codes "src/**" ∷ []) refl
