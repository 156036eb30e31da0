-- ===== src/Governance.antt =====
-- Workspace governance: roles of members, removal, leaving and the transfer of ownership
-- (apps/api/src/services/workspace-governance.ts, packages/db/src/repositories/memberships.ts).
-- A transaction is a function from the database to a result and the database it leaves; one that
-- throws leaves the database as it was. Ids are opaque and stand as numbers. A query returns the
-- rows in the table's order, which is that of their ids.
pub mod Store
pub mod Service
pub mod Counting
pub mod Checks
pub mod Writes
pub mod Members
pub mod Removal
pub mod Transfer
pub mod Reach
pub mod Outcomes
