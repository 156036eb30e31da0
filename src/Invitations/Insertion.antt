-- ===== src/Invitations/Insertion.antt =====
-- What the attempts to insert an invitation come to (apps/api/src/services/invitations.ts).
use replay_bug.Common.{
  ℕ, zero, suc, ◌+◌, ◌<◌, true, false, not, ◌==◌, ◌≡◌, ap, ◌∙◌, sym, ◌⊎◌, inl, inr, Option, none,
  some, [], ◌∷◌, ◌++◌, any, arith, Bool-cases,
}
use replay_bug.Common.Text.{Text}
use replay_bug.Errors.{
  Result, ok, err, ensure, ensure-eq-ok, conflict, active_invitation_exists, internal_error,
  through,
}
use replay_bug.Authz.Roles.{WorkspaceMemberRole}
use replay_bug.Invitations.Token.{
  generate_invitation_token, GeneratedInvitationToken, validate_invitation_token_prefix,
  validate_invitation_token_hash,
}
use replay_bug.Invitations.Store.{
  InvitationRow, InvitationDb, conflicts, insert_invitation, is_normalized_email,
  lock_active_invitation_by_workspace_email,
}
use replay_bug.Invitations.Service.{Sources, row_of, or_throw, after_insert, insert_attempts}
use replay_bug.Invitations.Acceptance.{or_throw-eq-ok}

abbrev pub appended : InvitationRow → InvitationDb → InvitationDb
appended row db = record db { invitations = db.invitations ++ (row ∷ []) }

-- An insert meets a violation, or the row is the last one of the table.
insert_invitation-cases :
    (lower_case : Text → Text) (row : InvitationRow) (db db1 : InvitationDb)
    (o : Option InvitationRow)
    → insert_invitation lower_case row db ≡ ok (db1, o)
    → ((o ≡ none) × (db1 ≡ db))
      ⊎ ((o ≡ some row)
          × (db1 ≡ appended row db)
          × (any (conflicts row) db.invitations ≡ false)
          × (validate_invitation_token_hash row.token_hash ≡ true)
          × (validate_invitation_token_prefix row.token_prefix ≡ true))
unfolding insert_invitation
insert_invitation-cases lower_case row db db1 o h =
    through (ensure (is_normalized_email lower_case row.email) internal_error) _ h λ _ e1 h1.
      through (ensure (validate_invitation_token_hash row.token_hash) internal_error) _ h1
        λ _ e2 h2.
          through (ensure (validate_invitation_token_prefix row.token_prefix) internal_error) _ h2
            λ _ e3 h3. elim (Bool-cases (any (conflicts row) db.invitations)) [
              | inl k ↦ inl (ground arith)
              | inr k ↦
                  let (there, same) : (o ≡ some row) × (db1 ≡ appended row db) = ground arith in
                  inr (there, same, k, ensure-eq-ok _ _ e2, ensure-eq-ok _ _ e3)
            ]

-- What follows an insert: the next attempt, or nothing.
module _ (again : InvitationDb → Result (InvitationDb × (InvitationRow × Text)))
    (left workspace_id now : ℕ) (email token : Text) (db1 db' : InvitationDb)
    (a : InvitationRow × Text) where
  after_insert-none :
      (o : Option InvitationRow) (db : InvitationDb)
      → o ≡ none
      → db1 ≡ db
      → after_insert again left workspace_id email now token (db1, o) ≡ ok (db', a)
      → again db ≡ ok (db', a)
  after_insert-none none db e same h =
      through
        (ensure (not (lock_active_invitation_by_workspace_email db1 workspace_id email now))
          active_invitation_exists)
        _ h
        λ _ e1 h1.
          through (ensure (not (left == 0)) (conflict "Unable to create workspace invitation")) _ h1
            λ _ e2 h2. ap again (sym same) ∙ h2
  after_insert-none (some r) db e same h = absurd (cc)

  after_insert-some :
      (o : Option InvitationRow) (row : InvitationRow)
      → o ≡ some row
      → after_insert again left workspace_id email now token (db1, o) ≡ ok (db', a)
      → (db' ≡ db1) × (a.0 ≡ row) × (a.1 ≡ token)
  after_insert-some none row e h = absurd (cc)
  after_insert-some (some r) row e h = ground arith

abbrev pub attempted : Sources → ℕ → GeneratedInvitationToken
attempted sources attempt =
    generate_invitation_token sources.sha256 (sources.prefix_bytes attempt)
      (sources.secret_bytes attempt) sources.now

-- The attempt whose row was inserted.
pub record Inserted (sources : Sources) (actor_id workspace_id : ℕ) (email : Text)
    (role : WorkspaceMemberRole) (first left : ℕ) (db db' : InvitationDb)
    (out : InvitationRow × Text) : Type 0 where
  pub attempt : ℕ
  pub token_hash : Text
  pub tried : attempt < first + left
  pub hashed : (attempted sources attempt).token_hash ≡ some token_hash
  pub row :
      out.0 ≡ row_of sources actor_id workspace_id email role (attempted sources attempt) token_hash
  pub token : out.1 ≡ (attempted sources attempt).token
  pub free : any (conflicts out.0) db.invitations ≡ false
  pub last : db' ≡ appended out.0 db
  pub hash_form : validate_invitation_token_hash token_hash ≡ true
  pub prefix_form : validate_invitation_token_prefix (attempted sources attempt).token_prefix ≡ true

pub insert_attempts-Inserted :
    (sources : Sources) (actor_id workspace_id : ℕ) (email : Text) (role : WorkspaceMemberRole)
    (first left : ℕ) (db db' : InvitationDb) (out : InvitationRow × Text)
    → insert_attempts sources actor_id workspace_id email role first left db ≡ ok (db', out)
    → Inserted sources actor_id workspace_id email role first left db db' out
unfolding insert_attempts
insert_attempts-Inserted sources actor_id workspace_id email role first zero db db' out e =
    absurd (cc)
insert_attempts-Inserted sources actor_id workspace_id email role first (suc left) db db' out e =
    let generated = attempted sources first in
    through (or_throw (err internal_error) generated.token_hash) _ e λ token_hash e1 h1.
      let row = row_of sources actor_id workspace_id email role generated token_hash in
      through (insert_invitation sources.lower_case row db) _ h1 λ (db1, o) e2 h2.
        let again = insert_attempts sources actor_id workspace_id email role (first + 1) left in
        elim (insert_invitation-cases sources.lower_case row db db1 o e2) [
          | inl (missing, same) ↦
              let later =
                insert_attempts-Inserted sources actor_id workspace_id email role (first + 1) left
                  db db' out
                  (after_insert-none again left workspace_id sources.now email generated.token db1
                    db' out o db missing same h2) in
              record {
                attempt = later.attempt;
                token_hash = later.token_hash;
                tried = omega (arith, later.tried);
                hashed = later.hashed;
                row = later.row;
                token = later.token;
                free = later.free;
                last = later.last;
                hash_form = later.hash_form;
                prefix_form = later.prefix_form;
              }
          | inr (there, same, free, hash_form, prefix_form) ↦
              let (last, out_row, out_token) =
                after_insert-some again left workspace_id sources.now email generated.token db1 db'
                  out o row there h2 in
              record {
                attempt = first;
                token_hash = token_hash;
                tried = omega arith;
                hashed = or_throw-eq-ok _ _ e1;
                row = out_row;
                token = out_token;
                free = ap (λ r. any (conflicts r) db.invitations) out_row ∙ free;
                last = last ∙ same ∙ ap (λ r. appended r db) (sym out_row);
                hash_form = hash_form;
                prefix_form = prefix_form;
              }
        ]
