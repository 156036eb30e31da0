-- ===== src/Issues/Locked.antt =====
-- The issue that an event finds or creates (apps/worker/src/processors/process-event.ts,
-- packages/db/src/repositories/issues.ts).
use replay_bug.Common.{
  ℕ, false, ◌≡◌, refl, inl, inr, some, [], ◌∷◌, ◌++◌, any, arith, ==_refl, is_some,
}
use replay_bug.Common.Rows.{find, All-imp, All-find}
use replay_bug.Common.RowLaws.{
  All-of_any, Distinct-append, count-none, find-append_here, find-key_of, none-of_any,
}
use replay_bug.Common.RowUpdates.{All-append_one}
use replay_bug.Issues.Store.{IssueRow, EventRow, Db, has_fingerprint, is_status, resolved}
use replay_bug.Issues.Process.{SymbolicationResult}
use replay_bug.Issues.Consistent.{
  has_id, same_id, same_key, counts, of_issue, IssueOk, Related, Consistent,
}
use replay_bug.Issues.Occurrence.{Found, any-append_left}
use replay_bug.Issues.Settled.{no_occurrences, no_relations}

module _ {P : Type 0} {db : Db P SymbolicationResult} (event : EventRow P SymbolicationResult)
    (fingerprint : ℕ) (c : Consistent db) where
  -- An issue that is there already.
  pub Found-existing :
      (row : IssueRow)
      → find (has_fingerprint event.project_id fingerprint) db.issues ≡ some row
      → Found db event fingerprint row
  Found-existing row there =
      let (k, key) = All-find (IssueOk db.events db.affected) _ db.issues row c.issues_ok there in
      record {
        event_ids = c.event_ids;
        issue_ids = c.issue_ids;
        issue_keys = c.issue_keys;
        relation_keys = c.relation_keys;
        here = find-key_of same_id _ db.issues row (==_refl row.id) c.issue_ids there;
        project = ground arith;
        group = ground arith;
        tallied = k.tallied;
        ends = inl (k.first, k.last);
        others = All-imp (IssueOk db.events db.affected) _ (λ i q _. q) db.issues c.issues_ok;
        related = c.related;
        caused = c.caused;
      }

  -- A new issue, appended.
  pub Found-new :
      (row : IssueRow)
      → any (has_id row.id) db.issues ≡ false
      → any (has_fingerprint event.project_id fingerprint) db.issues ≡ false
      → row.project_id ≡ event.project_id
      → row.fingerprint ≡ fingerprint
      → row.occurrence_count ≡ 0
      → row.affected_session_count ≡ 0
      → row.first_seen_at ≡ event.occurred_at
      → row.last_seen_at ≡ event.occurred_at
      → is_some row.resolved_at ≡ is_status row.status resolved
      → Found (record db { issues = db.issues ++ (row ∷ []) }) event fingerprint row
  Found-new row unused fresh project group no_count no_sessions first last lifecycle =
      let nothing = no_occurrences db.issues db.affected row.id unused db.events c.related in
      record {
        event_ids = c.event_ids;
        issue_ids = Distinct-append same_id db.issues row c.issue_ids (All-of_any _ _ unused);
        issue_keys = Distinct-append same_key db.issues row c.issue_keys (
            All-imp (λ i. has_fingerprint event.project_id fingerprint i ≡ false) _
              (λ i q. ground arith) db.issues (All-of_any _ _ fresh));
        relation_keys = c.relation_keys;
        here =
            find-append_here (has_id row.id) db.issues row (none-of_any _ _ unused)
              (==_refl row.id);
        project = project;
        group = group;
        tallied = record {
          counted = rw (no_count, count-none (counts row.id) db.events nothing) refl;
          sessions =
              rw
                (
                  no_sessions,
                  count-none (of_issue row.id) db.affected
                      (no_relations row.id db.events db.affected nothing c.caused),
                )
                refl;
          seen =
              All-imp (λ e. counts row.id e ≡ false) _ (λ e q k. absurd (cc)) db.events
                (All-of_any _ _ nothing);
          lifecycle = lifecycle;
        };
        ends = inr (first, last);
        others =
            All-append_one _ db.issues row
              (All-imp (IssueOk db.events db.affected) _ (λ i q _. q) db.issues c.issues_ok)
              (λ k. absurd (ground (arith, ==_refl row.id)));
        related =
            All-imp (Related db.issues db.affected) _
              (λ e q i k.
                let (a, b) = q i k in (any-append_left (has_id i) db.issues (row ∷ []) a, b))
              db.events c.related;
        caused = c.caused;
      }
