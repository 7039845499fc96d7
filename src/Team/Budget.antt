-- ===== src/Team/Budget.antt =====
-- The budgets of parents and their children, of packages/agent-team/src/budget-ledger.ts, with the
-- schemas of packages/contracts/src/budget.ts. A number is a natural number, as both schemas demand.
pub mod Ledger
use dsh_backend_team.Base.{
  ℕ, ◌+◌, ◌-◌, Bool, true, false, not, ◌&&◌, List, [], ◌∷◌, Text, leb, ltb, nat_eq, if◌then◌else◌,
}

pub record AgentBudget : Type 0 where
  pub max_tokens : ℕ
  pub max_wall_ms : ℕ
  pub max_tool_calls : ℕ
  pub max_retries : ℕ
  pub max_children : ℕ

pub record ConsumedBudget : Type 0 where
  pub tokens : ℕ
  pub wall_ms : ℕ
  pub tool_calls : ℕ
  pub retries : ℕ
  pub children : ℕ

-- `AgentBudgetSchema` on natural numbers
abbrev pub budget_parses : AgentBudget → Bool
budget_parses b =
    ltb 0 b.max_tokens && ltb 0 b.max_wall_ms && ltb 0 b.max_tool_calls && leb b.max_children 3

abbrev pub zero_usage : ConsumedBudget
zero_usage = record { tokens = 0; wall_ms = 0; tool_calls = 0; retries = 0; children = 0 }

unfoldable pub add : ConsumedBudget → ConsumedBudget → ConsumedBudget
add left right = record {
  tokens = left.tokens + right.tokens;
  wall_ms = left.wall_ms + right.wall_ms;
  tool_calls = left.tool_calls + right.tool_calls;
  retries = left.retries + right.retries;
  children = left.children + right.children;
}

pub data Dimension : Type 0 where
  tokens : Dimension
  wall_ms : Dimension
  tool_calls : Dimension
  retries : Dimension
  children : Dimension

-- `usage[dimension]`
unfoldable pub used : Dimension → ConsumedBudget → ℕ
used Dimension.tokens u = u.tokens
used Dimension.wall_ms u = u.wall_ms
used Dimension.tool_calls u = u.tool_calls
used Dimension.retries u = u.retries
used Dimension.children u = u.children

-- `limitFor`
unfoldable pub limit_for : Dimension → AgentBudget → ℕ
limit_for Dimension.tokens b = b.max_tokens
limit_for Dimension.wall_ms b = b.max_wall_ms
limit_for Dimension.tool_calls b = b.max_tool_calls
limit_for Dimension.retries b = b.max_retries
limit_for Dimension.children b = b.max_children

-- `if (over) exceeded.push(d)`
abbrev pushed : Bool → Dimension → List Dimension → List Dimension
pushed true d rest = d ∷ rest
pushed false d rest = rest

unfoldable pub exceeded_dimensions : ConsumedBudget → AgentBudget → List Dimension
exceeded_dimensions usage remaining =
    pushed (ltb remaining.max_tokens usage.tokens) Dimension.tokens (
      pushed (ltb remaining.max_wall_ms usage.wall_ms) Dimension.wall_ms (
        pushed (ltb remaining.max_tool_calls usage.tool_calls) Dimension.tool_calls (
          pushed (ltb remaining.max_retries usage.retries) Dimension.retries
            (pushed (ltb remaining.max_children usage.children) Dimension.children []))))

-- `heldFor`
unfoldable pub held_for : AgentBudget → ConsumedBudget
held_for b = record {
  tokens = b.max_tokens;
  wall_ms = b.max_wall_ms;
  tool_calls = b.max_tool_calls;
  retries = b.max_retries;
  children = 1;
}

abbrev pub same_budget : AgentBudget → AgentBudget → Bool
same_budget left right =
    nat_eq left.max_tokens right.max_tokens
    && nat_eq left.max_wall_ms right.max_wall_ms
    && nat_eq left.max_tool_calls right.max_tool_calls
    && nat_eq left.max_retries right.max_retries
    && nat_eq left.max_children right.max_children

-- `Math.max(0, budget - total)` in each dimension; subtraction on natural numbers stops at 0.
unfoldable pub remaining_of : AgentBudget → ConsumedBudget → AgentBudget
remaining_of budget total = record {
  max_tokens = budget.max_tokens - total.tokens;
  max_wall_ms = budget.max_wall_ms - total.wall_ms;
  max_tool_calls = budget.max_tool_calls - total.tool_calls;
  max_retries = budget.max_retries - total.retries;
  max_children = budget.max_children - total.children;
}

-- The comparison of `fits` and of `fitsWithinCeiling`
unfoldable pub within : ConsumedBudget → AgentBudget → Bool
within usage budget =
    leb usage.tokens budget.max_tokens
    && leb usage.wall_ms budget.max_wall_ms
    && leb usage.tool_calls budget.max_tool_calls
    && leb usage.retries budget.max_retries
    && leb usage.children budget.max_children

-- What `consume` demands of a usage: within what was held, and of children no more than the
-- budget of the child allows.
unfoldable pub usage_allowed : ConsumedBudget → ConsumedBudget → AgentBudget → Bool
usage_allowed usage held budget =
    leb usage.tokens held.tokens
    && leb usage.wall_ms held.wall_ms
    && leb usage.tool_calls held.tool_calls
    && leb usage.retries held.retries
    && leb usage.children budget.max_children
