-- ===== src/Personnel.antt =====
-- The personnel module of the delivered backend (src/personnel): rows and the in-memory store,
-- the audit log, and the use cases on persons and their assignments.
pub mod Rows
pub mod Action
pub mod Store
pub mod Input
pub mod Audit
pub mod Effective
pub mod Assignment
pub mod PersonInput
pub mod Service
pub mod Status
pub mod Lifecycle
pub mod Roster
pub mod Laws
mod Tests
