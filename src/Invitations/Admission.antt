-- ===== src/Invitations/Admission.antt =====
-- The token of a new invitation admits the user it was made for
-- (apps/api/src/services/invitations.ts).
use replay_bug.Common.{
  ℕ, ◌+◌, Bool, true, false, not, ◌==◌, ◌||◌, ltb, leb, ◌≡◌, refl, ap, ◌∙◌, sym, inl, inr, is_some,
  none, some, List, [], ◌∷◌, ◌++◌, any, All, arith, Bool-cases, filter, length, ==_refl,
}
use replay_bug.Common.Text.{Text, text_eq, text_eq_refl}
use replay_bug.Common.Rows.{find}
use replay_bug.Common.RowLaws.{find-append_here, none-of_any, any-of_none, any-weaker}
use replay_bug.Errors.{ok}
use replay_bug.Authz.Roles.{WorkspaceMemberRole}
use replay_bug.Governance.Store.{is_key}
use replay_bug.Invitations.Token.{
  ParsedInvitationToken, parse_invitation_token, verify_invitation_token,
  normalize_invitation_email, validate_invitation_token_prefix, validate_invitation_token_hash,
  generate_invitation_token, to_base64url, invitation_ttl_ms, default_invitation_expiry,
}
use replay_bug.Invitations.TokenLaws.{IsByte, parse-generate}
use replay_bug.Invitations.Store.{
  InvitationRow, UserRow, InvitationDb, is_invitation, is_valid, accepted_row, revoked_row,
  insert_audit, lock_membership, lock_user_by_id, lock_invitation_candidates_by_token_prefix,
  insert_membership, mark_invitation_accepted,
}
use replay_bug.Invitations.Service.{Sources}
use replay_bug.Invitations.Endings.{admit, accept_body, accept_workspace_invitation}
use replay_bug.Invitations.Accepted.{granted}
use replay_bug.Invitations.Insertion.{attempted}
use replay_bug.Invitations.Creation.{Creating, retiring, retired-any}

filter-append_only {ℓ} :
    {A : Type ℓ} (p : A → Bool) (xs : List A) (x : A)
    → any p xs ≡ false
    → p x ≡ true
    → filter p (xs ++ (x ∷ [])) ≡ x ∷ []
filter-append_only p [] x h k = rw k refl
filter-append_only p (y ∷ ys) x h k = elim (Bool-cases (p y)) [
  | inl l ↦ absurd (ground arith)
  | inr l ↦ rw l (filter-append_only p ys x (ground arith) k)
]

-- The user that an invitation was made for, with what acceptance asks of the user.
pub record Invited (lower_case : Text → Text) (actor_id workspace_id : ℕ) (actor_email email : Text)
    (db : InvitationDb) : Type 0 where
  pub user : UserRow
  pub stored : lock_user_by_id db actor_id ≡ some user
  pub stored_email : normalize_invitation_email lower_case user.email ≡ some email
  pub session_email : normalize_invitation_email lower_case actor_email ≡ some email
  pub workspace : any (λ w. w == workspace_id) db.workspaces ≡ true
  pub stranger : lock_membership db workspace_id actor_id ≡ none

-- The last row of the table is open and valid, and the only one of its prefix and its id.
pub record Offered (sha256 : Text → Text) (now : ℕ) (token : Text) (rows : List InvitationRow)
    (row : InvitationRow) : Type 0 where
  parsed : ParsedInvitationToken
  token_parsed : parse_invitation_token token ≡ some parsed
  prefix : parsed.token_prefix ≡ row.token_prefix
  prefix_form : validate_invitation_token_prefix parsed.token_prefix ≡ true
  verified : verify_invitation_token sha256 parsed.token row.token_hash ≡ true
  pending : is_valid row.id now row ≡ true
  only_prefix : any (λ i. text_eq (InvitationRow.token_prefix i) parsed.token_prefix) rows ≡ false
  only_id : any (is_invitation row.id) rows ≡ false

pub Offered-accept :
    (sha256 lower_case : Text → Text) (new_id now actor_id : ℕ) (actor_email token : Text)
    (rows : List InvitationRow) (row : InvitationRow) (db : InvitationDb)
    → db.invitations ≡ rows ++ (row ∷ [])
    → Offered sha256 now token rows row
    → Invited lower_case actor_id row.workspace_id actor_email row.email db
    → (accept_workspace_invitation sha256 lower_case new_id now actor_id actor_email token db).1
      ≡ ok (accepted_row now row, granted new_id actor_id row)
unfolding accept_workspace_invitation accept_body admit insert_membership mark_invitation_accepted
    lock_invitation_candidates_by_token_prefix lock_membership lock_user_by_id
Offered-accept sha256 lower_case new_id now actor_id actor_email token rows row db e o u =
    let same_prefix : text_eq row.token_prefix o.parsed.token_prefix ≡ true =
      rw o.prefix (text_eq_refl row.token_prefix) in
    let (unused, usable) : (is_some row.accepted_at ≡ false)
        × ((is_some row.revoked_at || leb row.expires_at now || not (text_eq row.email row.email))
            ≡ false) =
      ground (arith, o.pending, text_eq_refl row.email) in
    let found : find (is_valid row.id now) (rows ++ (row ∷ [])) ≡ some row =
      find-append_here (is_valid row.id now) rows row
        (none-of_any (is_valid row.id now) rows (
          any-weaker (is_invitation row.id) (is_valid row.id now) (λ i k. ground arith) rows
            o.only_id))
        o.pending in
    let absent : any (is_key row.workspace_id actor_id) db.memberships ≡ false =
      any-of_none (is_key row.workspace_id actor_id) db.memberships u.stranger in
    rw
      (
        o.token_parsed,
        u.session_email,
        o.prefix_form,
        e,
        filter-append_only _ rows row o.only_prefix same_prefix,
        o.verified,
        unused,
        usable,
        u.workspace,
        u.stored,
        u.stored_email,
        text_eq_refl row.email,
        u.stranger,
        absent,
        found,
      )
      refl

-- `randomBytes(4)` and `randomBytes(32)`: so many bytes.
pub record RandomBytes (sources : Sources) : Type 0 where
  pub prefix_of_bytes : (k : ℕ) → All IsByte (sources.prefix_bytes k)
  pub secret_of_bytes : (k : ℕ) → All IsByte (sources.secret_bytes k)
  pub prefix_size : (k : ℕ) → length (sources.prefix_bytes k) ≡ 4
  pub secret_size : (k : ℕ) → length (sources.secret_bytes k) ≡ 32

attempted-parsed :
    (sources : Sources) (k : ℕ)
    → RandomBytes sources
    → parse_invitation_token (attempted sources k).token
      ≡ some (record {
        token = (attempted sources k).token;
        token_prefix = (attempted sources k).token_prefix;
        secret = to_base64url (sources.secret_bytes k);
      })
attempted-parsed sources k r =
    parse-generate sources.sha256 (sources.prefix_bytes k) (sources.secret_bytes k) sources.now
      (r.prefix_of_bytes k) (r.secret_of_bytes k) (r.prefix_size k) (r.secret_size k)

attempted-verified :
    (sources : Sources) (k : ℕ) (token_hash : Text)
    → (attempted sources k).token_hash ≡ some token_hash
    → validate_invitation_token_hash token_hash ≡ true
    → verify_invitation_token sources.sha256 (attempted sources k).token token_hash ≡ true
unfolding verify_invitation_token generate_invitation_token
attempted-verified sources k token_hash h form = rw (h, form) (text_eq_refl token_hash)

attempted-pending :
    (sources : Sources) (k now : ℕ)
    → ltb now (sources.now + invitation_ttl_ms) ≡ true
    → ltb now (attempted sources k).expires_at ≡ true
unfolding generate_invitation_token default_invitation_expiry
attempted-pending sources k now soon = soon

-- A new row is last in the table of the transaction that creates it.
pub Creating-Offered :
    (sources : Sources) (locked : ℕ → Bool) (actor_id workspace_id now : ℕ) (email : Text)
    (role : WorkspaceMemberRole) (db db' : InvitationDb) (out : InvitationRow × Text)
    → RandomBytes sources
    → ltb now (sources.now + invitation_ttl_ms) ≡ true
    → any (is_invitation sources.new_id) db.invitations ≡ false
    → any (λ i. text_eq (InvitationRow.token_prefix i) out.0.token_prefix) db.invitations ≡ false
    → (c : Creating sources locked actor_id workspace_id email role db db' out)
    → Offered sources.sha256 now out.1 c.swept.invitations out.0
Creating-Offered sources locked actor_id workspace_id now email role db db' out r soon unused alone
      c =
    let i = c.attempts in
    let g = attempted sources i.attempt in
    let swept_any =
      λ (p : InvitationRow → Bool)
          (kept : (j : InvitationRow) → p (revoked_row sources.now j) ≡ p j).
        retired-any p locked (retiring sources workspace_id email) db c.swept c.retired kept
          c.retires in
    let same_prefix = ap InvitationRow.token_prefix i.row in
    record {
      parsed = record {
        token = g.token;
        token_prefix = g.token_prefix;
        secret = to_base64url (sources.secret_bytes i.attempt);
      };
      token_parsed = ap parse_invitation_token i.token ∙ attempted-parsed sources i.attempt r;
      prefix = sym (ap InvitationRow.token_prefix i.row);
      prefix_form = i.prefix_form;
      verified =
          ap (λ w. verify_invitation_token sources.sha256 g.token (InvitationRow.token_hash w))
            i.row
          ∙ attempted-verified sources i.attempt i.token_hash i.hashed i.hash_form;
      pending =
          ap (λ w. is_valid (InvitationRow.id w) now w) i.row
          ∙ rw (==_refl sources.new_id, attempted-pending sources i.attempt now soon) refl;
      only_prefix =
          swept_any (λ j. text_eq (InvitationRow.token_prefix j) g.token_prefix) (λ j. refl)
          ∙ (ap (λ t. any (λ j. text_eq (InvitationRow.token_prefix j) t) db.invitations)
                (sym same_prefix)
              ∙ alone);
      only_id =
          swept_any (is_invitation (out.0).id) (λ j. refl)
          ∙ (ap (λ w. any (is_invitation (InvitationRow.id w)) db.invitations) i.row ∙ unused);
    }

pub Creating-last :
    (sources : Sources) (locked : ℕ → Bool) (actor_id workspace_id : ℕ) (email : Text)
    (role : WorkspaceMemberRole) (db db' : InvitationDb) (out : InvitationRow × Text)
    → (c : Creating sources locked actor_id workspace_id email role db db' out)
    → db'.invitations ≡ c.swept.invitations ++ (out.0 ∷ [])
unfolding insert_audit
Creating-last sources locked actor_id workspace_id email role db db' out c =
    ap InvitationDb.invitations c.last ∙ ap InvitationDb.invitations c.attempts.last
