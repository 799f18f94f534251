-- ===== src/Payments.antt =====
-- The payment domain (apps/api/app/domain/payments): the lifecycle of a payment, the reliability of
-- a delivered event, and the resolution of payment truth from evidence.
pub mod State
pub mod Reliability
pub mod Truth
mod Tests
