-- ===== src/Http.antt =====
-- src/app.ts: the HTTP application.
pub mod RateLimit
pub mod Exchange
pub mod WhisperRoutes
pub mod PulseRoutes
pub mod CatchRoutes
pub mod PaymentRoutes
mod Tests
mod CatchTests
mod PaymentTests
