-- ===== src/Team.antt =====
-- The team of agents of packages/agent-team: its queues, its capabilities, its budgets and its scheduler.
pub mod Queue
pub mod Budget
pub mod Paths
pub mod Capabilities
pub mod Scopes
pub mod Scheduler
mod Tests
