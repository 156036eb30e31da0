-- ===== src/Invitations/Creation.antt =====
-- What the creation of an invitation leaves (apps/api/src/services/invitations.ts).
use replay_bug.Common.{
  ℕ, Bool, false, not, ◌≡◌, refl, ap, ◌∙◌, sym, subst, inl, inr, some, List, [], ◌∷◌, map, any,
  arith, Bool-cases,
}
use replay_bug.Common.Text.{Text}
use replay_bug.Common.Rows.{at}
use replay_bug.Common.RowLaws.{any-map}
use replay_bug.Errors.{ok, ensure, active_invitation_exists, through}
use replay_bug.Authz.Roles.{WorkspaceMemberRole}
use replay_bug.Invitations.Store.{
  InvitationRow, InvitationDb, invitation_created, is_invitation, ExpiredInvitationCleanupOptions,
  retire_each, to_retire, revoked_row, retire_expired_pending_invitations,
  lock_expired_pending_invitations, lock_active_invitation_by_workspace_email, insert_audit,
  find_user_by_email,
}
use replay_bug.Invitations.Service.{
  Sources, insert_attempts, create_body, require_no_member, require_invitation_management,
}
use replay_bug.Invitations.Invariant.{Advances, Advances-trans}
use replay_bug.Invitations.Writes.{appended-Advances, insert_audit-Advances}
use replay_bug.Invitations.Acceptance.{ensure-false}
use replay_bug.Invitations.Insertion.{appended, Inserted, insert_attempts-Inserted}
use replay_bug.Invitations.Bodies.{Left, retire-Left}

-- What the creation retires before it inserts.
abbrev pub retiring : Sources → ℕ → Text → ExpiredInvitationCleanupOptions
retiring sources workspace_id email = record {
  workspace_id = some workspace_id;
  email = some email;
  now = sources.now;
  limit = 20;
}

-- No test that a revocation keeps is changed by retiring.
module _ (p : InvitationRow → Bool) (now : ℕ)
    (kept : (i : InvitationRow) → p (revoked_row now i) ≡ p i) where
  retire_each-any : (cs rows : List InvitationRow) → any p (retire_each now cs rows).0 ≡ any p rows
  unfolding retire_each
  retire_each-any [] rows = refl
  retire_each-any (c ∷ cs) rows =
      retire_each-any cs (map (at (to_retire now c) (revoked_row now)) rows)
      ∙ any-map p (at (to_retire now c) (revoked_row now))
          (λ x. elim (Bool-cases (to_retire now c x)) [ inl k ↦ rw k (kept x) | inr k ↦ rw k refl ])
          rows

pub retired-any :
    (p : InvitationRow → Bool) (locked : ℕ → Bool) (options : ExpiredInvitationCleanupOptions)
    (db db1 : InvitationDb) (retired : List InvitationRow)
    → ((i : InvitationRow) → p (revoked_row options.now i) ≡ p i)
    → retire_expired_pending_invitations locked options db ≡ ok (db1, retired)
    → any p db1.invitations ≡ any p db.invitations
unfolding retire_expired_pending_invitations
retired-any p locked options db db1 retired kept h =
    through (lock_expired_pending_invitations locked options db) _ h λ cs e1 h1.
      let same : (retire_each options.now cs db.invitations).0 ≡ db1.invitations = ground arith in
      ap (any p) (sym same) ∙ retire_each-any p options.now kept cs db.invitations

-- The statements of a transaction that creates, each with what it left.
pub record Creating (sources : Sources) (locked : ℕ → Bool) (actor_id workspace_id : ℕ)
    (email : Text) (role : WorkspaceMemberRole) (db db' : InvitationDb) (out : InvitationRow × Text)
    : Type 0 where
  pub swept : InvitationDb
  pub inserted : InvitationDb
  pub retired : List InvitationRow
  pub retires :
      retire_expired_pending_invitations locked (retiring sources workspace_id email) db
      ≡ ok (swept, retired)
  pub stranger : require_no_member swept workspace_id (find_user_by_email swept email) ≡ ok tt
  pub alone : lock_active_invitation_by_workspace_email swept workspace_id email sources.now ≡ false
  pub attempts : Inserted sources actor_id workspace_id email role 0 3 swept inserted out
  pub last : db' ≡ insert_audit actor_id invitation_created out.0 inserted

pub create_body-Creating :
    (sources : Sources) (locked : ℕ → Bool) (actor_id workspace_id : ℕ) (email : Text)
    (role : WorkspaceMemberRole) (db db' : InvitationDb) (out : InvitationRow × Text)
    → create_body sources locked actor_id workspace_id email role db ≡ ok (db', out)
    → Creating sources locked actor_id workspace_id email role db db' out
unfolding create_body
create_body-Creating sources locked actor_id workspace_id email role db db' out e =
    through (require_invitation_management db workspace_id actor_id) _ e λ actor e1 h1.
      through (retire_expired_pending_invitations locked (retiring sources workspace_id email) db) _
        h1
        λ (db1, retired) e2 h2.
          through (require_no_member db1 workspace_id (find_user_by_email db1 email)) _ h2
            λ _ e3 h3.
              through
                (ensure
                  (not
                    (lock_active_invitation_by_workspace_email db1 workspace_id email sources.now))
                  active_invitation_exists)
                _ h3
                λ _ e4 h4.
                  through (insert_attempts sources actor_id workspace_id email role 0 3 db1) _ h4
                    λ (db2, pair) e5 h5.
                      let (same, out_same) : (insert_audit actor_id invitation_created pair.0 db2
                            ≡ db')
                          × (pair ≡ out) =
                        ground arith in
                      record {
                        swept = db1;
                        inserted = db2;
                        retired = retired;
                        retires = e2;
                        stranger = e3;
                        alone = ensure-false _ _ e4;
                        attempts =
                            insert_attempts-Inserted sources actor_id workspace_id email role 0 3
                              db1 db2 out (e5 ∙ ap (λ o. ok (db2, o)) out_same);
                        last =
                            sym same
                            ∙ ap (λ o. insert_audit actor_id invitation_created o.0 db2) out_same;
                      }

pub create_body-Left :
    (sources : Sources) (locked : ℕ → Bool) (actor_id workspace_id : ℕ) (email : Text)
    (role : WorkspaceMemberRole) (db : InvitationDb)
    → any (is_invitation sources.new_id) db.invitations ≡ false
    → Left db (create_body sources locked actor_id workspace_id email role db)
create_body-Left sources locked actor_id workspace_id email role db unused = record {
  kept = λ db' out e.
      let c = create_body-Creating sources locked actor_id workspace_id email role db db' out e in
      let i = c.attempts in
      let options = retiring sources workspace_id email in
      let swept = (retire-Left locked options db).kept c.swept c.retired c.retires in
      let unused1 : any (is_invitation (out.0).id) c.swept.invitations ≡ false =
        ap (λ r. any (is_invitation (InvitationRow.id r)) c.swept.invitations) i.row
        ∙ retired-any (is_invitation sources.new_id) locked options db c.swept c.retired (λ i. refl)
            c.retires
        ∙ unused in
      let inserted =
        appended-Advances out.0 c.swept unused1 i.free
          (ap (λ r. InvitationRow.accepted_at r) i.row) in
      let grown = appended out.0 c.swept in
      let logged = insert_audit-Advances actor_id invitation_created out.0 grown in
      subst (λ d. Advances db d)
        (sym (c.last ∙ ap (insert_audit actor_id invitation_created out.0) i.last))
        (Advances-trans db c.swept _ swept (Advances-trans c.swept grown _ inserted logged));
}
