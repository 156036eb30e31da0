-- ===== src/Invitations/Reuse.antt =====
-- A token that was accepted is refused from then on (apps/api/src/services/invitations.ts).
use replay_bug.Common.{
  ℕ, Bool, true, is_some, Option-cases, subst, sym, ap, ◌∙◌, ◌⊎◌, ◌≡◌, refl, inl, inr, some, List,
  arith, Bool-cases,
}
use replay_bug.Common.Text.{text_eq, text_eq_sound, text_eq_refl, Text}
use replay_bug.Common.Rows.{at, find, Distinct}
use replay_bug.Common.RowSearch.{find_narrow}
use replay_bug.Common.RowLaws.{find-map, find-key_of}
use replay_bug.Errors.{
  Result, Result-cases, transacted, ok, err, DomainError, ensure, ensure-eq-ok, internal_error,
  invitation_invalid, invitation_already_used, through,
}
use replay_bug.Governance.Store.{MembershipRow}
use replay_bug.Invitations.Token.{
  ParsedInvitationToken, parse_invitation_token, verify_invitation_token,
  normalize_invitation_email, validate_invitation_token_prefix, hash_invitation_token,
}
use replay_bug.Invitations.Store.{
  InvitationRow, InvitationDb, is_invitation, is_valid, accepted_row,
  lock_invitation_candidates_by_token_prefix,
}
use replay_bug.Invitations.Service.{or_throw}
use replay_bug.Invitations.Endings.{last_verified, accept_body, accept_workspace_invitation}
use replay_bug.Invitations.Invariant.{Inv, same_hash}
use replay_bug.Invitations.Acceptance.{
  accept_body-Accepting, or_throw-eq-ok, last_verified_sound, candidates-found,
}
use replay_bug.Invitations.Accepted.{Accepting-Found, admit-Admitted, transacted-eq-ok}
use replay_bug.Invitations.Steps.{Reach, reach-Advances, accept_workspace_invitation-Advances}

-- Rows with one hash are one row.
one_hash :
    (rows : List InvitationRow) (p q : InvitationRow → Bool) (a b : InvitationRow)
    → Distinct same_hash rows
    → find p rows ≡ some a
    → find q rows ≡ some b
    → a.token_hash ≡ b.token_hash
    → a ≡ b
one_hash rows p q a b d ha hb same =
    let fa = find-key_of same_hash p rows a (text_eq_refl a.token_hash) d ha in
    let fb = find-key_of same_hash q rows b (text_eq_refl b.token_hash) d hb in
    let fa' =
      subst (λ t. find (λ (y : InvitationRow). text_eq t y.token_hash) rows ≡ some a) same fa in
    ground (arith, sym fa' ∙ fb)

-- The hash that a token is verified for is its own.
verified_hash :
    (sha256 : Text → Text) (token t u : Text)
    → verify_invitation_token sha256 token t ≡ true
    → verify_invitation_token sha256 token u ≡ true
    → t ≡ u
unfolding verify_invitation_token
verified_hash sha256 token t u h k = elim (Option-cases (hash_invitation_token sha256 token)) [
  | inl missing ↦ absurd (ground arith)
  | inr (d, e) ↦
      let dt : text_eq d t ≡ true = ground arith in
      let du : text_eq d u ≡ true = ground arith in
      sym (text_eq_sound d t dt) ∙ text_eq_sound d u du
]

listed :
    (db : InvitationDb) (prefix : Text) (e : DomainError)
    → validate_invitation_token_prefix prefix ≡ true
    → lock_invitation_candidates_by_token_prefix db prefix ≡ err e
    → ⊥
unfolding lock_invitation_candidates_by_token_prefix
listed db prefix e form k = let never = rw form at k in cc

-- The error of a token that was used, or of one that is not known any more.
abbrev pub Refused : {A : Type 0} → InvitationDb → InvitationDb × Result A → Type 0
Refused db r = (r ≡ (db, err invitation_already_used)) ⊎ (r ≡ (db, err invitation_invalid))

-- Where a closed invitation is the one of a token, its acceptance is refused.
closed-Refused :
    (sha256 lower_case : Text → Text) (new_id now actor_id : ℕ) (email : Text)
    (parsed : ParsedInvitationToken) (db : InvitationDb) (i : InvitationRow)
    → Inv db
    → find (is_invitation i.id) db.invitations ≡ some i
    → is_some i.accepted_at ≡ true
    → verify_invitation_token sha256 parsed.token i.token_hash ≡ true
    → validate_invitation_token_prefix parsed.token_prefix ≡ true
    → Refused db (transacted db (accept_body sha256 lower_case new_id now actor_id email parsed db))
unfolding accept_body
closed-Refused sha256 lower_case new_id now actor_id email parsed db i v there used verified form =
    elim (Result-cases (lock_invitation_candidates_by_token_prefix db parsed.token_prefix)) [
      | inl (e, k) ↦ absurd (listed db parsed.token_prefix e form k)
      | inr (cs, k) ↦ elim (Option-cases (last_verified sha256 parsed.token cs)) [
        | inl l ↦ inr (rw (k, l) refl)
        | inr (m, l) ↦
            let (found, agrees) =
              last_verified_sound sha256 parsed.token
                (λ c. find (is_invitation (InvitationRow.id c)) db.invitations ≡ some c) cs m
                (candidates-found db parsed.token_prefix cs v.ids k) l in
            let same : i ≡ m =
              one_hash db.invitations (is_invitation i.id) (is_invitation m.id) i m v.hashes there
                found
                (verified_hash sha256 parsed.token i.token_hash m.token_hash verified agrees) in
            let gone : is_some m.accepted_at ≡ true =
              subst (λ w. is_some (InvitationRow.accepted_at w) ≡ true) same used in
            inl (rw (k, l, gone) refl)
      ]
    ]

-- After a successful acceptance and any further requests and sweeps, the same token is refused as
-- used or as invalid, for any user with an address that has the form of one, at any time; and
-- nothing is changed.
pub accept_workspace_invitation-again :
    (sha256 lower_case : Text → Text) (new_id now actor_id : ℕ) (actor_email token : Text)
    (db db' db'' : InvitationDb) (out : InvitationRow × MembershipRow) (new_id' now' actor_id' : ℕ)
    (actor_email' email' : Text)
    → Inv db
    → accept_workspace_invitation sha256 lower_case new_id now actor_id actor_email token db
      ≡ (db', ok out)
    → Reach sha256 lower_case db' db''
    → normalize_invitation_email lower_case actor_email' ≡ some email'
    → Refused db'' (
        accept_workspace_invitation sha256 lower_case new_id' now' actor_id' actor_email' token
          db'')
unfolding accept_workspace_invitation lock_invitation_candidates_by_token_prefix
accept_workspace_invitation-again sha256 lower_case new_id now actor_id actor_email token db db'
      db'' out new_id' now' actor_id' actor_email' email' v h r address =
    through (or_throw (err invitation_invalid) (parse_invitation_token token)) _
      (transacted-eq-ok db _ h)
      λ parsed e1 h1.
        through
          (or_throw (err invitation_invalid) (normalize_invitation_email lower_case actor_email)) _
          h1
          λ email e2 h2.
            let a =
              accept_body-Accepting sha256 lower_case new_id now actor_id email parsed db (db', out)
                h2 in
            let (f, address_same) =
              Accepting-Found sha256 lower_case new_id now actor_id email parsed db (db', out) v
                a in
            let m = a.matched in
            let valid =
              find_narrow (is_invitation m.id) (is_valid m.id now) (λ y k. ground arith)
                db.invitations m f.here f.valid in
            let (result, (written_membership, written, audit)) =
              admit-Admitted new_id now actor_id m db db' out valid a.admitted in
            let i = accepted_row now m in
            let marked : find (is_invitation i.id) db'.invitations ≡ some i =
              ap (find (is_invitation m.id)) written
              ∙ (find-map (is_valid m.id now) (accepted_row now) (is_invitation m.id)
                    (at (is_valid m.id now) (accepted_row now))
                    (λ x. elim (Bool-cases (is_valid m.id now x)) [
                      | inl k ↦ simp k refl
                      | inr k ↦ simp k refl
                    ])
                    db.invitations
                  ∙ rw (f.here, f.valid) refl) in
            let v' : Inv db' =
              subst Inv (ap (λ r. r.0) h)
                (accept_workspace_invitation-Advances sha256 lower_case new_id now actor_id
                  actor_email token db v).0 in
            let (v'', final, owned) = reach-Advances sha256 lower_case v' r in
            let form =
              through (ensure (validate_invitation_token_prefix parsed.token_prefix) internal_error)
                _ a.listed λ _ e3 h3. ensure-eq-ok _ _ e3 in
            rw (or_throw-eq-ok _ _ e1, address)
              (closed-Refused sha256 lower_case new_id' now' actor_id' email' parsed db'' i v''
                (final i.id i marked refl) refl f.verified form)
