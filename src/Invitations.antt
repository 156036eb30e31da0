-- ===== src/Invitations.antt =====
-- Invitations to a workspace: their tokens (packages/db/src/invitations.ts), their table
-- (packages/db/src/repositories/invitations.ts), the requests that create, revoke and accept them
-- (apps/api/src/services/invitations.ts) and the sweep that retires those that have expired
-- (apps/worker/src/cleanup/invitations.ts).
pub mod Token
pub mod TokenLaws
pub mod Store
pub mod Service
pub mod Endings
pub mod Invariant
pub mod Writes
pub mod Acceptance
pub mod Accepted
pub mod Reuse
pub mod Bodies
pub mod Insertion
pub mod Creation
pub mod Admission
pub mod Invite
pub mod Retiring
pub mod Issuing
pub mod Steps
