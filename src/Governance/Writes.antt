-- ===== src/Governance/Writes.antt =====
-- What the writes of the governance operations do to the owners of every workspace.
use replay_bug.Common.{
  ℕ, true, false, not, ◌==◌, ◌&&◌, ◌≡◌, refl, sym, ap, ◌⊎◌, inl, inr, ◌∙◌, subst, none, some, List,
  [], ◌∷◌, filter, map, arith,
}
use mathlib.Core.Option
use replay_bug.Errors.{ok}
use replay_bug.Authz.Roles.{WorkspaceRole, admin, owner, is_role}
use replay_bug.Authz.Access.{find}
use replay_bug.Governance.Store.{
  MembershipRow, AuditAction, Db, is_key, with_role, update_membership_role, delete_membership,
  insert_audit_log,
}
use replay_bug.Governance.Service.{owner_row, change_role, delete_and_log, swap_owner}
use replay_bug.Governance.Counting.{
  owners, Unique, owners-update, owners-delete, Unique-map, Unique-filter,
}

-- The number of owners is as before in every workspace, and the table's key is still unique.
pub record Keeps (db db' : Db) : Type 0 where
  pub workspaces : db'.workspaces ≡ db.workspaces
  pub owners_kept : (v : ℕ) → owners v db'.memberships ≡ owners v db.memberships
  pub unique : Unique db'.memberships

update_keeps :
    (v w u : ℕ) (r : WorkspaceRole) (ms : List MembershipRow) {old : MembershipRow}
    → Unique ms
    → find (is_key w u) ms ≡ some old
    → owner_row old ≡ false
    → is_role r owner ≡ false
    → owners v (map (with_role w u r) ms) ≡ owners v ms
update_keeps v w u r ms {old} uq there o n = ground (arith, owners-update v w u r ms old uq there)

change_role_rows :
    (a w t : ℕ) (r : WorkspaceRole) (target : MembershipRow) (db : Db) {db' : Db}
    {out : ℕ × WorkspaceRole}
    → change_role a w t r target db ≡ ok (db', out)
    → (db'.workspaces ≡ db.workspaces)
      × ((db'.memberships ≡ db.memberships)
          ⊎ (db'.memberships ≡ map (with_role w t r) db.memberships))
unfolding change_role update_membership_role insert_audit_log
change_role_rows a w t r target db {db'} h = grind arith

pub change_role-Keeps :
    (a w t : ℕ) (r : WorkspaceRole) (target : MembershipRow) (db : Db) {db' : Db}
    {out : ℕ × WorkspaceRole}
    → Unique db.memberships
    → find (is_key w t) db.memberships ≡ some target
    → owner_row target ≡ false
    → is_role r owner ≡ false
    → change_role a w t r target db ≡ ok (db', out)
    → Keeps db db'
change_role-Keeps a w t r target db uq there o n h =
    let (ws, rows) = change_role_rows a w t r target db h in
    elim rows [
      | inl same ↦ record {
        workspaces = ws;
        owners_kept = λ v. ap (owners v) same;
        unique = subst Unique (sym same) uq;
      }
      | inr changed ↦ record {
        workspaces = ws;
        owners_kept = λ v. ap (owners v) changed ∙ update_keeps v w t r db.memberships uq there o n;
        unique = subst Unique (sym changed) (Unique-map w t r db.memberships uq);
      }
    ]

delete_and_log_rows :
    (a w u : ℕ) (action : AuditAction) (ms : List MembershipRow) (db : Db) {db' : Db}
    → delete_and_log a w u action ms db ≡ ok (db', tt)
    → (db'.workspaces ≡ db.workspaces)
      × (db'.memberships ≡ filter (λ m. not (is_key w u m)) db.memberships)
unfolding delete_and_log delete_membership insert_audit_log
delete_and_log_rows a w u action ms db h = ground arith

pub delete_and_log-Keeps :
    (a w u : ℕ) (action : AuditAction) (ms : List MembershipRow) (row : MembershipRow) (db : Db)
    {db' : Db}
    → Unique db.memberships
    → find (is_key w u) db.memberships ≡ some row
    → owner_row row ≡ false
    → delete_and_log a w u action ms db ≡ ok (db', tt)
    → Keeps db db'
delete_and_log-Keeps a w u action ms row db uq there o h =
    let (ws, rows) = delete_and_log_rows a w u action ms db h in
    record {
      workspaces = ws;
      owners_kept =
          λ v. ap (owners v) rows ∙ ground (arith, owners-delete v w u db.memberships row uq there);
      unique = subst Unique (sym rows) (Unique-filter _ db.memberships uq);
    }

swap_owner_rows :
    (a w : ℕ) (only target : MembershipRow) (db : Db) {db' : Db} {out : ℕ × ℕ}
    → swap_owner a w only target db ≡ ok (db', out)
    → (db'.workspaces ≡ db.workspaces)
      × (db'.memberships
          ≡ map
              (with_role w target.user_id owner)
              (map (with_role w only.user_id admin) db.memberships))
unfolding swap_owner update_membership_role insert_audit_log
swap_owner_rows a w only target db h = ground arith

-- The row that a key finds after an update, at every key.
pub find-update :
    (w u : ℕ) (r : WorkspaceRole) (v t : ℕ) (ms : List MembershipRow)
    → find (is_key v t) (map (with_role w u r) ms)
      ≡ Option.map (with_role w u r) (find (is_key v t) ms)
unfolding find
find-update w u r v t [] = refl
find-update w u r v t (m ∷ ms) = ground (arith, find-update w u r v t ms)

-- The row that a key finds after a delete: none at the key itself, and else the row before it.
pub find-delete_self :
    (w u : ℕ) (ms : List MembershipRow)
    → find (is_key w u) (filter (λ m. not (is_key w u m)) ms) ≡ none
unfolding find
find-delete_self w u [] = refl
find-delete_self w u (m ∷ ms) = ground (arith, find-delete_self w u ms)

pub find-delete_other :
    (w u v t : ℕ) (ms : List MembershipRow)
    → ((v == w) && (t == u)) ≡ false
    → find (is_key v t) (filter (λ m. not (is_key w u m)) ms) ≡ find (is_key v t) ms
unfolding find
find-delete_other w u v t [] h = refl
find-delete_other w u v t (m ∷ ms) h = ground (arith, find-delete_other w u v t ms h)

pub swap_owner-Keeps :
    (a w : ℕ) (only target : MembershipRow) (db : Db) {db' : Db} {out : ℕ × ℕ}
    → Unique db.memberships
    → find (is_key w only.user_id) db.memberships ≡ some only
    → find (is_key w target.user_id) db.memberships ≡ some target
    → owner_row only ≡ true
    → owner_row target ≡ false
    → swap_owner a w only target db ≡ ok (db', out)
    → Keeps db db'
swap_owner-Keeps a w only target db uq there at o n h =
    let (ws, rows) = swap_owner_rows a w only target db h in
    let first = map (with_role w only.user_id admin) db.memberships in
    let uq1 = Unique-map w only.user_id admin db.memberships uq in
    let next : find (is_key w target.user_id) first ≡ some (with_role w only.user_id admin target) =
      find-update w only.user_id admin w target.user_id db.memberships
      ∙ ap (Option.map (with_role w only.user_id admin)) at in
    record {
      workspaces = ws;
      owners_kept = λ v.
          ap (owners v) rows
          ∙ ground (
            arith,
            owners-update v w only.user_id admin db.memberships only uq there,
            owners-update v w target.user_id owner first (with_role w only.user_id admin target) uq1
                next,
          );
      unique = subst Unique (sym rows) (Unique-map w target.user_id owner first uq1);
    }
