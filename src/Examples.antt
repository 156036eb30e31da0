-- ===== src/Examples.antt =====
-- The theorems at concrete inputs, and runs of the definitions.
mod Governance
mod Authz
mod Sdk
mod Outbox
mod Audit
mod Realtime
mod Issues
mod Invitations
