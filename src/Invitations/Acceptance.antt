-- ===== src/Invitations/Acceptance.antt =====
-- The statements that an acceptance passes through, and the candidates of a token
-- (apps/api/src/services/invitations.ts).
use replay_bug.Common.{
  ℕ, Bool, true, false, not, ◌==◌, ◌||◌, leb, ◌≡◌, refl, ap, ◌∙◌, subst, inl, inr, is_some, Option,
  none, some, List, [], ◌∷◌, any, All, arith, Bool-cases, Option-cases, ==_refl, take, filter,
}
use replay_bug.Common.Text.{Text, text_eq, text_eq_sound}
use replay_bug.Common.Rows.{find, Distinct}
use replay_bug.Common.RowSearch.{All-filter, All-sort_by, All-take, All-find_key}
use replay_bug.Common.Sort.{sort_by}
use replay_bug.Errors.{
  ok, err, ensure, ensure-eq-ok, internal_error, already_workspace_member, invitation_invalid,
  invitation_already_used, through,
}
use replay_bug.Governance.Store.{MembershipRow}
use replay_bug.Invitations.Token.{
  ParsedInvitationToken, verify_invitation_token, normalize_invitation_email,
  validate_invitation_token_prefix,
}
use replay_bug.Invitations.Store.{
  InvitationRow, UserRow, InvitationDb, is_invitation, newest_first,
  max_invitation_token_candidates, lock_membership, lock_user_by_id,
  lock_invitation_candidates_by_token_prefix,
}
use replay_bug.Invitations.Service.{or_throw}
use replay_bug.Invitations.Endings.{last_verified, admit, accept_body}
use replay_bug.Invitations.Invariant.{same_id}

pub or_throw-eq-ok {ℓ} :
    {A : Type ℓ} (e : _) (o : Option A) {a : A} → or_throw (err e) o ≡ ok a → o ≡ some a
or_throw-eq-ok e none h = absurd (cc)
or_throw-eq-ok e (some b) h = ground arith

-- The statements of a transaction that accepts, each with what it found.
pub record Accepting (sha256 lower_case : Text → Text) (new_id now actor_id : ℕ) (email : Text)
    (parsed : ParsedInvitationToken) (db : InvitationDb)
    (result : InvitationDb × (InvitationRow × MembershipRow)) : Type 0 where
  pub candidates : List InvitationRow
  pub matched : InvitationRow
  pub user : UserRow
  pub listed : lock_invitation_candidates_by_token_prefix db parsed.token_prefix ≡ ok candidates
  pub verified : last_verified sha256 parsed.token candidates ≡ some matched
  pub unused : is_some matched.accepted_at ≡ false
  pub usable :
      (is_some matched.revoked_at
        || leb matched.expires_at now
        || not (text_eq email matched.email))
      ≡ false
  pub own : lock_user_by_id db actor_id ≡ some user
  pub own_email : normalize_invitation_email lower_case user.email ≡ some email
  pub stranger : is_some (lock_membership db matched.workspace_id actor_id) ≡ false
  pub admitted : admit new_id now actor_id matched db ≡ ok result

pub ensure-false : (b : Bool) (e : _) {t : Unit {0}} → ensure (not b) e ≡ ok t → b ≡ false
ensure-false true e h = absurd (cc)
ensure-false false e h = refl

pub accept_body-Accepting :
    (sha256 lower_case : Text → Text) (new_id now actor_id : ℕ) (email : Text)
    (parsed : ParsedInvitationToken) (db : InvitationDb)
    (result : InvitationDb × (InvitationRow × MembershipRow))
    → accept_body sha256 lower_case new_id now actor_id email parsed db ≡ ok result
    → Accepting sha256 lower_case new_id now actor_id email parsed db result
unfolding accept_body
accept_body-Accepting sha256 lower_case new_id now actor_id email parsed db result h =
    through (lock_invitation_candidates_by_token_prefix db parsed.token_prefix) _ h λ cs e1 h1.
      through (or_throw (err invitation_invalid) (last_verified sha256 parsed.token cs)) _ h1
        λ m e2 h2.
          through (ensure (not (is_some m.accepted_at)) invitation_already_used) _ h2 λ _ e3 h3.
            through
              (ensure
                (not (is_some m.revoked_at || leb m.expires_at now || not (text_eq email m.email)))
                invitation_invalid)
              _ h3
              λ _ e4 h4.
                through (ensure (any (λ w. w == m.workspace_id) db.workspaces) invitation_invalid) _
                  h4
                  λ _ e5 h5.
                    through (or_throw (err invitation_invalid) (lock_user_by_id db actor_id)) _ h5
                      λ user e6 h6.
                        through
                          (or_throw (err invitation_invalid)
                            (normalize_invitation_email lower_case user.email))
                          _ h6
                          λ own e7 h7.
                            through (ensure (text_eq own email) invitation_invalid) _ h7 λ _ e8 h8.
                              through
                                (ensure (not (is_some (lock_membership db m.workspace_id actor_id)))
                                  already_workspace_member)
                                _ h8
                                λ _ e9 h9.
                                  let same : own ≡ email =
                                    text_eq_sound own email (ensure-eq-ok _ _ e8) in
                                  record {
                                    candidates = cs;
                                    matched = m;
                                    user = user;
                                    listed = e1;
                                    verified = or_throw-eq-ok _ _ e2;
                                    unused = ensure-false _ _ e3;
                                    usable = ensure-false _ _ e4;
                                    own = or_throw-eq-ok _ _ e6;
                                    own_email = or_throw-eq-ok _ _ e7 ∙ ap some same;
                                    stranger = ensure-false _ _ e9;
                                    admitted = h9;
                                  }

pub last_verified_sound :
    (sha256 : Text → Text) (token : Text) (P : InvitationRow → Type 0) (cs : List InvitationRow)
    (m : InvitationRow)
    → All P cs
    → last_verified sha256 token cs ≡ some m
    → P m × (verify_invitation_token sha256 token m.token_hash ≡ true)
last_verified_sound sha256 token P [] m h e = absurd (cc)
last_verified_sound sha256 token P (c ∷ cs) m (k, h) e =
    elim (Option-cases (last_verified sha256 token cs)) [
      | inl missing ↦ elim (Bool-cases (verify_invitation_token sha256 token c.token_hash)) [
        | inl agrees ↦
            let same : c ≡ m = ground arith in
            subst
              (λ z.
                P z × (verify_invitation_token sha256 token (InvitationRow.token_hash z) ≡ true))
              same (k, agrees)
        | inr differs ↦ absurd (ground arith)
      ]
      | inr (later, found) ↦ last_verified_sound sha256 token P cs m h (ground arith)
    ]

-- Where ids are unique, the candidates are the rows of their ids.
pub candidates-found :
    (db : InvitationDb) (prefix : Text) (cs : List InvitationRow)
    → Distinct same_id db.invitations
    → lock_invitation_candidates_by_token_prefix db prefix ≡ ok cs
    → All (λ c. find (is_invitation (InvitationRow.id c)) db.invitations ≡ some c) cs
unfolding lock_invitation_candidates_by_token_prefix
candidates-found db prefix cs d h =
    through (ensure (validate_invitation_token_prefix prefix) internal_error) _ h λ _ e1 h1.
      let here = λ (c : InvitationRow). find (is_invitation c.id) db.invitations ≡ some c in
      let same : take max_invitation_token_candidates (
            sort_by newest_first
              (filter (λ i. text_eq (InvitationRow.token_prefix i) prefix) db.invitations))
          ≡ cs =
        ground arith in
      subst (All here) same (
        All-take here max_invitation_token_candidates _ (
          All-sort_by here newest_first _ (
            All-filter here _ db.invitations
              (All-find_key same_id (λ x. ==_refl x.id) db.invitations d))))
