-- ===== src/Policy.antt =====
-- The policy of packages/policy-engine: its actions and decisions, and the rules that decide.
pub mod Canonical
pub mod Actions
pub mod Paths
pub mod Commands
pub mod Git
pub mod Installs
pub mod Targets
pub mod Engine
pub mod Grants
pub mod Base64
pub mod Tokens
pub mod Rules
mod Tests
