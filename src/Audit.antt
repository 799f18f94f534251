-- ===== src/Audit.antt =====
-- The audit trail of a recovery case: apps/api/app/services/recovery_audit.py, the hash chain, and
-- apps/api/app/services/recovery_audit_store.py, the table that keeps it.
pub mod Values
pub mod Chain
pub mod Store
mod Tests
