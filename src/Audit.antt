-- ===== src/Audit.antt =====
-- The sanitizing of audit metadata (packages/db/src/repositories/audit.ts).
pub mod Value
pub mod Sanitize
pub mod Clean
