-- ===== src/Customers.antt =====
-- The customers of src/customers: the aggregate of domain/customer.ts, the repository of
-- persistence/memory-customer-repository.ts, and the use cases of application.
pub mod Patterns
pub mod Customer
pub mod Changelog
pub mod Repository
pub mod UseCases
mod Tests
