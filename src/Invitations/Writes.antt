-- ===== src/Invitations/Writes.antt =====
-- Each write on the tables of invitations keeps what holds of them
-- (packages/db/src/repositories/invitations.ts, memberships.ts).
use replay_bug.Common.{
  ℕ, ◌+◌, false, ◌&&◌, ◌≡◌, refl, inl, inr, none, List, [], ◌∷◌, ◌++◌, map, any, arith, Bool-cases,
}
use replay_bug.Common.Text.{text_eq_comm}
use replay_bug.Common.Rows.{at, All-imp, weight}
use replay_bug.Common.RowLaws.{Distinct-append, All-of_any, find-append_keep}
use replay_bug.Common.RowUpdates.{All-append_one}
use replay_bug.Authz.Roles.{owner, is_role}
use replay_bug.Governance.Store.{MembershipRow, is_key, in_workspace}
use replay_bug.Governance.Service.{owner_row}
use replay_bug.Governance.Counting.{owners, Unique}
use replay_bug.Invitations.Store.{
  InvitationRow, InvitationDb, InvitationAction, is_invitation, is_valid, to_retire, accepted_row,
  revoked_row, conflicts, mark_invitation_accepted, mark_invitation_revoked, retire_each,
  insert_membership, insert_audit,
}
use replay_bug.Invitations.Invariant.{
  same_id, same_hash, both_open, Settled, Advances, Advances-refl, Advances-trans, Closing,
  closing-Advances,
}

accepting-Closing : (id now : ℕ) → Closing (is_valid id now) (accepted_row now)
accepting-Closing id now = record {
  id = λ i. refl;
  hash = λ i. refl;
  opened = λ i k. ground arith;
  closed = λ i. refl;
  settled = λ i k s. ground arith;
}

revoking-Closing : (id now : ℕ) → Closing (is_valid id now) (revoked_row now)
revoking-Closing id now = record {
  id = λ i. refl;
  hash = λ i. refl;
  opened = λ i k. ground arith;
  closed = λ i. ground arith;
  settled = λ i k s. ground arith;
}

retiring-Closing : (now : ℕ) (c : InvitationRow) → Closing (to_retire now c) (revoked_row now)
retiring-Closing now c = record {
  id = λ i. refl;
  hash = λ i. refl;
  opened = λ i k. ground arith;
  closed = λ i. ground arith;
  settled = λ i k s. ground arith;
}

pub mark_invitation_accepted-Advances :
    (id now : ℕ) (db : InvitationDb) → Advances db (mark_invitation_accepted id now db).0
unfolding mark_invitation_accepted
mark_invitation_accepted-Advances id now db =
    closing-Advances (is_valid id now) (accepted_row now) (accepting-Closing id now) db

pub mark_invitation_revoked-Advances :
    (id now : ℕ) (db : InvitationDb) → Advances db (mark_invitation_revoked id now db).0
unfolding mark_invitation_revoked
mark_invitation_revoked-Advances id now db =
    closing-Advances (is_valid id now) (revoked_row now) (revoking-Closing id now) db

pub retire_each-Advances :
    (now : ℕ) (cs : List InvitationRow) (db : InvitationDb)
    → Advances db (record db { invitations = (retire_each now cs db.invitations).0 })
unfolding retire_each
retire_each-Advances now [] db = Advances-refl db
retire_each-Advances now (c ∷ cs) db =
    let next = record db {
      invitations = map (at (to_retire now c) (revoked_row now)) db.invitations;
    } in
    Advances-trans db next _
      (closing-Advances (to_retire now c) (revoked_row now) (retiring-Closing now c) db)
      (retire_each-Advances now cs next)

-- The audit table is read by nothing.
pub insert_audit-Advances :
    (actor_id : ℕ) (action : InvitationAction) (i : InvitationRow) (db : InvitationDb)
    → Advances db (insert_audit actor_id action i db)
unfolding insert_audit
insert_audit-Advances actor_id action i db v = (
  record {
    ids = v.ids;
    hashes = v.hashes;
    pending = v.pending;
    settled = v.settled;
    members = v.members;
  },
  λ id j there closed. there,
  λ w. refl,
)

-- A new row is open, and the constraints held before it is inserted.
pub appended-Advances :
    (row : InvitationRow) (db : InvitationDb)
    → any (is_invitation row.id) db.invitations ≡ false
    → any (conflicts row) db.invitations ≡ false
    → row.accepted_at ≡ none
    → Advances db (record db { invitations = db.invitations ++ (row ∷ []) })
appended-Advances row db unused free fresh v =
    let apart = All-of_any (conflicts row) db.invitations free in
    (
      record {
        ids = Distinct-append same_id db.invitations row v.ids (All-of_any _ _ unused);
        hashes = Distinct-append same_hash db.invitations row v.hashes (
            All-imp (λ i. conflicts row i ≡ false) _
              (λ i k. ground (arith, text_eq_comm i.token_hash row.token_hash)) db.invitations
              apart);
        pending = Distinct-append both_open db.invitations row v.pending (
            All-imp (λ i. conflicts row i ≡ false) _
              (λ i k. ground (arith, text_eq_comm i.email row.email)) db.invitations apart);
        settled = All-append_one Settled db.invitations row v.settled (rw fresh (refl, refl));
        members = v.members;
      },
      λ id i there closed. find-append_keep (is_invitation id) db.invitations (row ∷ []) i there,
      λ w. refl,
    )

-- A membership that is inserted is not there yet, and its role is no owner's.
Unique-append :
    (ms : List MembershipRow) (row : MembershipRow)
    → Unique ms
    → any (is_key row.workspace_id row.user_id) ms ≡ false
    → Unique (ms ++ (row ∷ []))
Unique-append [] row u h = (tt, tt)
Unique-append (m ∷ ms) row (a, u) h = (
  All-append_one (λ n. is_key m.workspace_id m.user_id n ≡ false) ms row a (ground arith),
  Unique-append ms row u (ground arith),
)

owners-append_one :
    (w : ℕ) (ms : List MembershipRow) (row : MembershipRow)
    → owners w (ms ++ (row ∷ [])) ≡ owners w ms + weight (in_workspace w row && owner_row row)
unfolding owners
owners-append_one w [] row = omega arith
owners-append_one w (m ∷ ms) row = omega (arith, owners-append_one w ms row)

pub insert_membership-Advances :
    (row : MembershipRow) (db : InvitationDb)
    → is_role row.role owner ≡ false
    → Advances db (insert_membership row db).0
unfolding insert_membership
insert_membership-Advances row db plain v =
    elim (Bool-cases (any (is_key row.workspace_id row.user_id) db.memberships)) [
      | inl k ↦ rw k (Advances-refl db v)
      | inr k ↦ rw k (
        record {
          ids = v.ids;
          hashes = v.hashes;
          pending = v.pending;
          settled = v.settled;
          members = Unique-append db.memberships row v.members k;
        },
        λ id j there closed. there,
        λ w. ground (arith, owners-append_one w db.memberships row),
      )
    ]
