-- ===== src/Catch.antt =====
-- src/storage/catch-repository.ts: the resources and events of CATCH, as two tables.
pub mod Model
pub mod Store
pub mod Listing
pub mod Usage
pub mod Accounting
pub mod History
mod Tests
