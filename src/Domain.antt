-- ===== src/Domain.antt =====
-- src/domain: the plans, the calendar of the long CATCH plan and the life cycle of a CATCH resource.
pub mod Plans
pub mod Lifecycle
mod Tests
