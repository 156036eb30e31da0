-- ===== src/Governance/Store.antt =====
-- Memberships and audit rows, the repository's queries on them, and transactions
-- (packages/db/src/repositories/memberships.ts, audit.ts).
use replay_bug.Common.{
  ℕ, Bool, not, ◌==◌, ◌&&◌, if◌then◌else◌, Option, List, [], ◌∷◌, ◌++◌, map, filter,
}
use replay_bug.Errors.{Result, ok, err}
use replay_bug.Authz.Roles.{WorkspaceRole}
use replay_bug.Authz.Access.{find}

pub record MembershipRow : Type 0 where
  pub id : ℕ
  pub workspace_id : ℕ
  pub user_id : ℕ
  pub role : WorkspaceRole

-- `metadataJson` of the actions that governance writes.
pub data AuditAction : Type 0 where
  role_changed : ℕ → WorkspaceRole → WorkspaceRole → AuditAction
  removed : ℕ → WorkspaceRole → AuditAction
  left : ℕ → WorkspaceRole → AuditAction
  ownership_transferred : ℕ → ℕ → AuditAction

pub record AuditRow : Type 0 where
  pub workspace_id : ℕ
  pub actor_user_id : ℕ
  pub action : AuditAction

pub record Db : Type 0 where
  pub workspaces : List ℕ
  pub memberships : List MembershipRow
  pub audit : List AuditRow

-- `where(and(eq(workspaceId, ...), eq(userId, ...)))`
abbrev pub is_key : ℕ → ℕ → MembershipRow → Bool
is_key workspace_id user_id m = (m.workspace_id == workspace_id) && (m.user_id == user_id)

abbrev pub in_workspace : ℕ → MembershipRow → Bool
in_workspace workspace_id m = m.workspace_id == workspace_id

unfoldable pub lock_memberships_by_workspace : Db → ℕ → List MembershipRow
lock_memberships_by_workspace db workspace_id = filter (in_workspace workspace_id) db.memberships

unfoldable pub list_memberships_by_workspace : Db → ℕ → List MembershipRow
list_memberships_by_workspace db workspace_id = filter (in_workspace workspace_id) db.memberships

abbrev pub with_role : ℕ → ℕ → WorkspaceRole → MembershipRow → MembershipRow
with_role workspace_id user_id role m =
    if is_key workspace_id user_id m then record m { role = role } else m

-- The rows of an update are returned as they are after it.
unfoldable pub update_membership_role : Db → ℕ → ℕ → WorkspaceRole → Db × Option MembershipRow
update_membership_role db workspace_id user_id role =
    let rows = map (with_role workspace_id user_id role) db.memberships in
    (record db { memberships = rows }, find (is_key workspace_id user_id) rows)

unfoldable pub delete_membership : Db → ℕ → ℕ → Db × Option MembershipRow
delete_membership db workspace_id user_id = (
  record db { memberships = filter (λ m. not (is_key workspace_id user_id m)) db.memberships },
  find (is_key workspace_id user_id) db.memberships,
)

unfoldable pub insert_audit_log : Db → ℕ → ℕ → AuditAction → Db
insert_audit_log db workspace_id actor_user_id action =
    let row : AuditRow = record {
      workspace_id = workspace_id;
      actor_user_id = actor_user_id;
      action = action;
    } in
    record db { audit = db.audit ++ (row ∷ []) }

-- `db.transaction(body)`: what the body wrote is kept if it returns, and dropped if it throws.
abbrev pub commit {ℓ} : {A : Type ℓ} → Db → Result (Db × A) → Db × Result A
commit db (ok (db', a)) = (db', ok a)
commit db (err e) = (db, err e)

abbrev pub transaction {ℓ} : {A : Type ℓ} → (Db → Result (Db × A)) → Db → Db × Result A
transaction body db = commit db (body db)
