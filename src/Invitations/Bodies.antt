-- ===== src/Invitations/Bodies.antt =====
-- What the body of a transaction on invitations leaves, by its statements
-- (apps/api/src/services/invitations.ts).
use replay_bug.Common.{ℕ, Bool, false, ◌≡◌, refl, subst, arith}
use replay_bug.Errors.{
  Result, ok, err, ◌>>=◌, already_workspace_member, invitation_already_used, through, transacted,
}
use replay_bug.Authz.Roles.{WorkspaceMemberRole, to_role, owner, is_role}
use replay_bug.Governance.Store.{MembershipRow}
use replay_bug.Invitations.Store.{
  InvitationRow, InvitationDb, invitation_accepted, mark_invitation_accepted,
  ExpiredInvitationCleanupOptions, lock_expired_pending_invitations,
  retire_expired_pending_invitations, insert_membership,
}
use replay_bug.Invitations.Service.{or_throw}
use replay_bug.Invitations.Endings.{admit}
use replay_bug.Invitations.Invariant.{Advances, Advances-refl, Advances-trans}
use replay_bug.Invitations.Writes.{
  mark_invitation_accepted-Advances, retire_each-Advances, insert_audit-Advances,
  insert_membership-Advances,
}

-- What a body that returns leaves.
pub record Left {A : Type 0} (db : InvitationDb) (r : Result (InvitationDb × A)) : Type 0 where
  pub kept : (db' : InvitationDb) (a : A) → r ≡ ok (db', a) → Advances db db'

pub transacted-Advances :
    {A : Type 0} (db : InvitationDb) (r : Result (InvitationDb × A))
    → Left db r
    → Advances db (transacted db r).0
transacted-Advances db (ok (db', a)) h = h.kept db' a refl
transacted-Advances db (err e) h = Advances-refl db

pub returned-Left :
    {A : Type 0} (db db1 : InvitationDb) (a : A) → Advances db db1 → Left db (ok (db1, a))
returned-Left db db1 a h = record {
  kept = λ db' b e. let same : db1 ≡ db' = ground arith in subst (λ d. Advances db d) same h;
}

-- A check before a body, and a body after a write.
pub checked-Left :
    {A B : Type 0} (db : InvitationDb) (m : Result A) (f : A → Result (InvitationDb × B))
    → ((a : A) → Left db (f a))
    → Left db (m >>= f)
checked-Left db m f h = record { kept = λ db' b e. through m f e λ a e1 e2. (h a).kept db' b e2 }

pub wrote-Left :
    {A B : Type 0} (db : InvitationDb) (m : Result (InvitationDb × A))
    (f : InvitationDb × A → Result (InvitationDb × B))
    → Left db m
    → ((db1 : InvitationDb) (a : A) → Left db1 (f (db1, a)))
    → Left db (m >>= f)
wrote-Left db m f g h = record {
  kept = λ db' b e.
      through m f e
        λ (db1, a) e1 e2. Advances-trans db db1 db' (g.kept db1 a e1) ((h db1 a).kept db' b e2);
}

pub retire-Left :
    (locked : ℕ → Bool) (options : ExpiredInvitationCleanupOptions) (db : InvitationDb)
    → Left db (retire_expired_pending_invitations locked options db)
unfolding retire_expired_pending_invitations
retire-Left locked options db =
    checked-Left db (lock_expired_pending_invitations locked options db) _
      (λ cs. returned-Left db _ _ (retire_each-Advances options.now cs db))

pub not_owner : (r : WorkspaceMemberRole) → is_role (to_role r) owner ≡ false
not_owner r = ground arith

pub admit-Left :
    (new_id now actor_id : ℕ) (matched : InvitationRow) (db : InvitationDb)
    → Left db (admit new_id now actor_id matched db)
unfolding admit
admit-Left new_id now actor_id matched db =
    let row : MembershipRow = record {
      id = new_id;
      workspace_id = matched.workspace_id;
      user_id = actor_id;
      role = to_role matched.role;
    } in
    let db1 = (insert_membership row db).0 in
    let db2 = (mark_invitation_accepted matched.id now db1).0 in
    checked-Left db (or_throw (err already_workspace_member) (insert_membership row db).1) _
      λ membership.
        checked-Left db
          (or_throw (err invitation_already_used) (mark_invitation_accepted matched.id now db1).1) _
          λ accepted. returned-Left db _ _ (
            Advances-trans db db1 _ (insert_membership-Advances row db (not_owner matched.role)) (
              Advances-trans db1 db2 _ (mark_invitation_accepted-Advances matched.id now db1)
                (insert_audit-Advances actor_id invitation_accepted accepted db2)))
