-- ===== src/Payment.antt =====
-- src/payment/: the purchase of a resource with a Lightning payment.
pub mod Order
pub mod Delivery
pub mod Bolt11
pub mod Tables
pub mod Orders
pub mod Dispense
pub mod Bookkeeping
pub mod Steps
pub mod History
pub mod Laws
pub mod L402
pub mod Protocol
pub mod Samples
mod Tests
mod L402Tests
pub mod Service
