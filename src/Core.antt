-- ===== src/Core.antt =====
-- The control of a task in packages/core: its phases, its state with revisions, what an edited
-- document takes back, and the final verification.
pub mod Phase
pub mod State
pub mod Invalidation
pub mod Delivery
mod Tests
