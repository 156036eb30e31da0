-- ===== src/Authz.antt =====
-- Authorization: the API's policy and guards (apps/api/src/authz), and the web's copy of it
-- (apps/web/lib/rbac.ts).
pub mod Roles
pub mod Policy
pub mod Matrix
pub mod Guards
pub mod Web
pub mod Laws
pub mod WebLaws
pub mod Access
pub mod AccessLaws
