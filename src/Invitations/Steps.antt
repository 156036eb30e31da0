-- ===== src/Invitations/Steps.antt =====
-- Any sequence of requests on invitations and of sweeps
-- (apps/api/src/services/invitations.ts, apps/worker/src/cleanup/invitations.ts).
use replay_bug.Common.{
  ℕ, Bool, false, not, ◌==◌, ◌||◌, leb, ◌≡◌, inl, inr, is_some, Option, none, some, any, arith,
  Bool-cases,
}
use replay_bug.Common.Text.{Text}
use replay_bug.Errors.{
  err, ensure, through, forbidden, not_found, conflict, validation_error, invitation_invalid,
}
use replay_bug.Authz.Roles.{to_role}
use replay_bug.Invitations.Token.{
  parse_invitation_token, normalize_invitation_email, validate_invitation_role,
}
use replay_bug.Invitations.Store.{
  InvitationRow, InvitationDb, invitation_revoked, is_invitation, lock_invitation_by_id,
  mark_invitation_revoked,
}
use replay_bug.Invitations.Service.{
  Sources, or_throw, can_invite_invitation_role, require_invitation_management,
  create_workspace_invitation,
}
use replay_bug.Invitations.Endings.{
  after_revoke, revoke_body, revoke_workspace_invitation, accept_workspace_invitation,
  run_expired_invitation_cleanup,
}
use replay_bug.Invitations.Invariant.{
  Inv, Final, SameOwners, Advances, Advances-refl, Advances-trans,
}
use replay_bug.Invitations.Writes.{mark_invitation_revoked-Advances, insert_audit-Advances}
use replay_bug.Invitations.Bodies.{
  Left, transacted-Advances, returned-Left, checked-Left, retire-Left, admit-Left,
}
use replay_bug.Invitations.Creation.{create_body-Left}
use replay_bug.Invitations.Acceptance.{accept_body-Accepting}

after_revoke-Advances :
    (actor_id : ℕ) (i : InvitationRow) (db : InvitationDb) (r : InvitationDb × Option InvitationRow)
    → Advances db r.0
    → Advances db (after_revoke actor_id i db r).0
after_revoke-Advances actor_id i db (db', none) h = Advances-refl db
after_revoke-Advances actor_id i db (db', some r) h =
    Advances-trans db db' _ h (insert_audit-Advances actor_id invitation_revoked r db')

revoke_body-Left :
    (now actor_id workspace_id invitation_id : ℕ) (db : InvitationDb)
    → Left db (revoke_body now actor_id workspace_id invitation_id db)
unfolding revoke_body
revoke_body-Left now actor_id workspace_id invitation_id db = record {
  kept = λ db' a e.
      through (or_throw (err (not_found "Invitation")) (lock_invitation_by_id db invitation_id)) _ e
        λ i e1 h1.
          through (ensure (i.workspace_id == workspace_id) (not_found "Invitation")) _ h1 λ _ e2 h2.
            through
              (ensure (not (is_some i.accepted_at))
                (conflict "Accepted invitations cannot be revoked"))
              _ h2
              λ _ e3 h3. elim (Bool-cases (is_some i.revoked_at || leb i.expires_at now)) [
                | inl k ↦ (returned-Left db db i (Advances-refl db)).kept db' a (ground arith)
                | inr k ↦
                    let r = mark_invitation_revoked i.id now db in
                    let last = after_revoke actor_id i db r in
                    (returned-Left db last.0 last.1 (
                        after_revoke-Advances actor_id i db r
                          (mark_invitation_revoked-Advances i.id now db))).kept
                      db' a (ground arith)
              ];
}

pub create_workspace_invitation-Advances :
    (sources : Sources) (locked : ℕ → Bool) (actor_id workspace_id : ℕ) (email role : Text)
    (db : InvitationDb)
    → any (is_invitation sources.new_id) db.invitations ≡ false
    → Advances db (create_workspace_invitation sources locked actor_id workspace_id email role db).0
unfolding create_workspace_invitation
create_workspace_invitation-Advances sources locked actor_id workspace_id email role db unused =
    transacted-Advances db _ (record {
      kept = λ db' a e.
          through (require_invitation_management db workspace_id actor_id) _ e λ actor e1 h1.
            through
              (or_throw (err (validation_error "Invitation email has an invalid format"))
                (normalize_invitation_email sources.lower_case email))
              _ h1
              λ address e2 h2.
                through
                  (or_throw
                    (err (validation_error "Invitation role must be admin, member, or viewer"))
                    (validate_invitation_role role))
                  _ h2
                  λ granted e3 h3.
                    through
                      (ensure (can_invite_invitation_role actor.role (to_role granted))
                        (forbidden "Insufficient workspace role"))
                      _ h3
                      λ _ e4 h4.
                        (create_body-Left sources locked actor_id workspace_id address granted db
                            unused).kept
                          db' a h4;
    })

pub revoke_workspace_invitation-Advances :
    (now actor_id workspace_id invitation_id : ℕ) (db : InvitationDb)
    → Advances db (revoke_workspace_invitation now actor_id workspace_id invitation_id db).0
unfolding revoke_workspace_invitation
revoke_workspace_invitation-Advances now actor_id workspace_id invitation_id db =
    transacted-Advances db _ (
      checked-Left db (require_invitation_management db workspace_id actor_id) _
        λ _. revoke_body-Left now actor_id workspace_id invitation_id db)

pub accept_workspace_invitation-Advances :
    (sha256 lower_case : Text → Text) (new_id now actor_id : ℕ) (actor_email token : Text)
    (db : InvitationDb)
    → Advances db
        (accept_workspace_invitation sha256 lower_case new_id now actor_id actor_email token db).0
unfolding accept_workspace_invitation
accept_workspace_invitation-Advances sha256 lower_case new_id now actor_id actor_email token db =
    transacted-Advances db _ (record {
      kept = λ db' a e.
          through (or_throw (err invitation_invalid) (parse_invitation_token token)) _ e
            λ parsed e1 h1.
              through
                (or_throw (err invitation_invalid)
                  (normalize_invitation_email lower_case actor_email))
                _ h1
                λ email e2 h2.
                  let s =
                    accept_body-Accepting sha256 lower_case new_id now actor_id email parsed db
                      (db', a) h2 in
                  (admit-Left new_id now actor_id s.matched db).kept db' a s.admitted;
    })

pub run_expired_invitation_cleanup-Advances :
    (locked : ℕ → Bool) (batch_size now : ℕ) (db : InvitationDb)
    → Advances db (run_expired_invitation_cleanup locked batch_size now db).0
unfolding run_expired_invitation_cleanup
run_expired_invitation_cleanup-Advances locked batch_size now db =
    transacted-Advances db _ (retire-Left locked _ db)

module _ (sha256 lower_case : Text → Text) where
  -- What can happen to the tables: an invitation is created with an id that is unused, revoked or
  -- accepted, and a sweep retires those that have expired.
  pub data Step : InvitationDb → InvitationDb → Type 0 where
    created :
        {db : InvitationDb} (sources : Sources) (locked : ℕ → Bool) (actor_id workspace_id : ℕ)
        (email role : Text)
        → any (is_invitation sources.new_id) db.invitations ≡ false
        → Step db (create_workspace_invitation sources locked actor_id workspace_id email role db).0
    revoked :
        {db : InvitationDb} (now actor_id workspace_id invitation_id : ℕ)
        → Step db (revoke_workspace_invitation now actor_id workspace_id invitation_id db).0
    accepted :
        {db : InvitationDb} (new_id now actor_id : ℕ) (actor_email token : Text)
        → Step db
            (accept_workspace_invitation sha256 lower_case new_id now actor_id actor_email token
              db).0
    swept :
        {db : InvitationDb} (locked : ℕ → Bool) (batch_size now : ℕ)
        → Step db (run_expired_invitation_cleanup locked batch_size now db).0

  pub data Reach (start : InvitationDb) : InvitationDb → Type 0 where
    here : Reach start start
    next : {db db' : InvitationDb} → Reach start db → Step db db' → Reach start db'

  step-Advances : {db db' : InvitationDb} → Step db db' → Advances db db'
  step-Advances (created {db} sources locked actor_id workspace_id email role unused) =
      create_workspace_invitation-Advances sources locked actor_id workspace_id email role db unused
  step-Advances (revoked {db} now actor_id workspace_id invitation_id) =
      revoke_workspace_invitation-Advances now actor_id workspace_id invitation_id db
  step-Advances (accepted {db} new_id now actor_id actor_email token) =
      accept_workspace_invitation-Advances sha256 lower_case new_id now actor_id actor_email token
        db
  step-Advances (swept {db} locked batch_size now) =
      run_expired_invitation_cleanup-Advances locked batch_size now db

  -- Whatever is requested and swept, in any order, from tables where ids, hashes, open invitations
  -- of an address to a workspace and memberships are unique, no invitation is both accepted and
  -- revoked, and each was accepted only before it expired: all of this still holds, an invitation
  -- that was accepted or revoked stays as it is, and no workspace gets or loses an owner.
  pub reach-Advances :
      {start db : InvitationDb}
      → Inv start
      → Reach start db
      → Inv db × Final start db × SameOwners start db
  reach-Advances {start} v here = Advances-refl start v
  reach-Advances {start} v (next {db} {db'} r s) =
      Advances-trans start db db' (λ w. reach-Advances w r) (step-Advances s) v
