-- ===== src/Examples/Governance.antt =====
-- A workspace with an owner, an admin, a member and a viewer, and requests to it
-- (apps/api/src/services/workspace-governance.ts).
use replay_bug.Common.{ℕ, ◌≡◌, refl, some, List, [], ◌∷◌, inl, inr, arith, In}
use replay_bug.Errors.{ok, err, conflict, not_found}
use replay_bug.Authz.Roles.{
  member, admin, owner, as_admin, can_change_member_role, can_remove_member, can_leave_workspace,
}
use replay_bug.Authz.Policy.{has_capability}
use replay_bug.Authz.Guards.{require_workspace_membership, require_workspace_capability}
use replay_bug.Authz.Access.{find}
use replay_bug.Governance.Store.{
  MembershipRow, role_changed, removed, left, ownership_transferred, Db,
  lock_memberships_by_workspace, list_memberships_by_workspace, update_membership_role,
  delete_membership, insert_audit_log,
}
use replay_bug.Governance.Service.{
  membership_view, membership_for_user, actor_membership_or_throw, target_membership_or_throw,
  require_exactly_one_owner, lock_governance_state, change_role, update_role_body, delete_and_log,
  remove_body, leave_body, swap_owner, transfer_body, update_workspace_member_role,
  remove_workspace_member, leave_workspace, transfer_workspace_ownership,
}
use replay_bug.Governance.Counting.{owners, Unique}
use replay_bug.Governance.Members.{RoleChanged, update_role_sound}
use replay_bug.Governance.Removal.{Removed, remove_sound, Left, leave_sound}
use replay_bug.Governance.Transfer.{Transferred, transfer_sound}
use replay_bug.Governance.Outcomes.{transfer_total, governance_hides, swapped}
use replay_bug.Governance.Reach.{
  Request, update, remove, leave, transfer, serve_all, Inv, serve_all-Inv,
}

abbrev owner_1 : MembershipRow
owner_1 = record { id = 10; workspace_id = 7; user_id = 1; role = owner }

abbrev admin_2 : MembershipRow
admin_2 = record { id = 11; workspace_id = 7; user_id = 2; role = admin }

abbrev member_3 : MembershipRow
member_3 = record { id = 12; workspace_id = 7; user_id = 3; role = member }

abbrev start : Db
start = record { workspaces = 7 ∷ []; memberships = owner_1 ∷ admin_2 ∷ member_3 ∷ []; audit = [] }

abbrev start_unique : Unique start.memberships
start_unique = ((refl, (refl, tt)), ((refl, tt), (tt, tt)))

abbrev handed_over : Db
handed_over = record {
  workspaces = 7 ∷ [];
  memberships = record owner_1 { role = admin } ∷ record admin_2 { role = owner } ∷ member_3 ∷ [];
  audit = record { workspace_id = 7; actor_user_id = 1; action = ownership_transferred 1 2 } ∷ [];
}

transfer_runs : transfer_body 1 7 2 start ≡ ok (handed_over, (1, 2))
unfolding transfer_body lock_governance_state lock_memberships_by_workspace
    actor_membership_or_throw membership_for_user find membership_view require_workspace_membership
    require_workspace_capability has_capability require_exactly_one_owner target_membership_or_throw
    swap_owner update_membership_role list_memberships_by_workspace insert_audit_log
transfer_runs = refl

transfer_sound_example : Transferred 1 7 2 start handed_over (1, 2)
transfer_sound_example = transfer_sound 1 7 2 start start_unique transfer_runs

transfer_total_example :
    (db' : Db) × (transfer_body 1 7 3 start ≡ ok (db', (1, 3)))
    × (db'.memberships ≡ swapped 7 1 3 start.memberships)
unfolding owners find
transfer_total_example =
    transfer_total 1 7 3 start owner_1 member_3 start_unique refl refl refl refl refl refl

governance_hides_example :
    (update_workspace_member_role 9 7 3 (some as_admin) start
      ≡ (start, err (not_found "Workspace")))
    × (remove_workspace_member 9 7 3 start ≡ (start, err (not_found "Workspace")))
    × (leave_workspace 9 7 start ≡ (start, err (not_found "Workspace")))
    × (transfer_workspace_ownership 9 7 3 start ≡ (start, err (not_found "Workspace")))
unfolding find
governance_hides_example = governance_hides 9 7 start (inr refl) 3 as_admin

abbrev promoted_3 : Db
promoted_3 = record {
  workspaces = 7 ∷ [];
  memberships = owner_1 ∷ admin_2 ∷ record member_3 { role = admin } ∷ [];
  audit = record { workspace_id = 7; actor_user_id = 1; action = role_changed 3 member admin } ∷ [];
}

update_role_runs : update_role_body 1 7 3 as_admin start ≡ ok (promoted_3, (3, admin))
unfolding update_role_body lock_governance_state lock_memberships_by_workspace
    actor_membership_or_throw membership_for_user find membership_view require_workspace_membership
    require_workspace_capability has_capability require_exactly_one_owner target_membership_or_throw
    change_role update_membership_role insert_audit_log can_change_member_role
update_role_runs = refl

update_role_sound_example : RoleChanged 1 7 3 as_admin start promoted_3 (3, admin)
update_role_sound_example = update_role_sound 1 7 3 as_admin start start_unique update_role_runs

abbrev without_3 : Db
without_3 = record {
  workspaces = 7 ∷ [];
  memberships = owner_1 ∷ admin_2 ∷ [];
  audit = record { workspace_id = 7; actor_user_id = 2; action = removed 3 member } ∷ [];
}

remove_runs : remove_body 2 7 3 start ≡ ok (without_3, tt)
unfolding remove_body lock_governance_state lock_memberships_by_workspace actor_membership_or_throw
    membership_for_user find membership_view require_workspace_membership
    require_workspace_capability has_capability require_exactly_one_owner target_membership_or_throw
    delete_and_log delete_membership insert_audit_log can_remove_member
remove_runs = refl

remove_sound_example : Removed 2 7 3 start without_3
remove_sound_example = remove_sound 2 7 3 start start_unique remove_runs

abbrev without_2 : Db
without_2 = record {
  workspaces = 7 ∷ [];
  memberships = owner_1 ∷ member_3 ∷ [];
  audit = record { workspace_id = 7; actor_user_id = 2; action = left 2 admin } ∷ [];
}

leave_runs : leave_body 2 7 start ≡ ok (without_2, tt)
unfolding leave_body lock_governance_state lock_memberships_by_workspace actor_membership_or_throw
    membership_for_user find membership_view require_workspace_membership require_exactly_one_owner
    delete_and_log delete_membership insert_audit_log can_leave_workspace
leave_runs = refl

leave_sound_example : Left 2 7 start without_2
leave_sound_example = leave_sound 2 7 start start_unique leave_runs

start_owner : (w : ℕ) → In w start.workspaces → owners w start.memberships ≡ 1
unfolding owners
start_owner w (inl e) = ground (arith, e)
start_owner w (inr none_left) = elim none_left [ ]

start-Inv : Inv start
start-Inv = record { unique = start_unique; one_owner = start_owner }

abbrev requests : List Request
requests = update 1 7 3 (some as_admin) ∷ transfer 1 7 2 ∷ remove 3 7 2 ∷ leave 1 7 ∷ leave 2 7 ∷ []

serve_all-Inv_example : Inv (serve_all requests start)
serve_all-Inv_example = serve_all-Inv requests start start-Inv

-- The owner may not leave.
leave_owner : leave_body 1 7 start ≡ err (conflict "The last workspace owner cannot leave")
unfolding leave_body lock_governance_state lock_memberships_by_workspace actor_membership_or_throw
    membership_for_user find membership_view require_workspace_membership require_exactly_one_owner
    delete_and_log delete_membership insert_audit_log can_leave_workspace
leave_owner = refl
