-- ===== src/Recovery.antt =====
-- The recovery domain (apps/api/app/domain/recovery): the data that a recovery decision reads, the
-- policy that decides it, the planner that proposes actions, and the outcomes that are proved.
pub mod Models
pub mod Policy
pub mod Outcomes
pub mod Normal
pub mod Plans
pub mod Planner
mod Tests
