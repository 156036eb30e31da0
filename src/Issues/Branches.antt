-- ===== src/Issues/Branches.antt =====
-- What each branch of the processing of an event finds and writes
-- (apps/worker/src/processors/process-event.ts).
use replay_bug.Common.{
  ℕ, true, false, ◌==◌, ◌≡◌, refl, ap, subst, sym, inl, inr, ◌⊎◌, Option, none, some, List, [], ◌∷◌,
  ◌++◌, map, any, arith, Option-cases, append-nil, ==_iff,
}
use replay_bug.Common.Rows.{find, at}
use replay_bug.Common.RowLaws.{find-passes, any-of_none, map-at-at}
use replay_bug.Authz.Guards.{ProjectView}
use replay_bug.Issues.Store.{
  IssueRow, EventRow, Db, join_project, CreateIssueInput, new_issue, has_fingerprint, processed,
  rejected, lock_issue_by_fingerprint, insert_issue_if_absent, lock_event_for_processing,
  mark_event_rejected, mark_event_processed, persist_event_symbolication, StoredEventRejectionCode,
}
use replay_bug.Issues.Process.{SymbolicationResult, lock_or_create_issue}
use replay_bug.Issues.Tables.{is_event, settle}

join_project-eq-some :
    {P : Type 0} (projects : List ProjectView) (found : Option (EventRow P SymbolicationResult))
    (event : EventRow P SymbolicationResult) (workspace_id : ℕ)
    → join_project projects found ≡ some (event, workspace_id)
    → found ≡ some event
join_project-eq-some projects none event workspace_id h = cc
join_project-eq-some projects (some e) event workspace_id h =
    elim (Option-cases (find (λ p. ProjectView.id p == e.project_id) projects)) [
      | inl k ↦ absurd (ground arith)
      | inr (p, k) ↦ ground arith
    ]

-- The event that was locked, with its id.
pub lock_event-eq-some :
    {P : Type 0} (db : Db P SymbolicationResult) (event_id workspace_id : ℕ)
    (event : EventRow P SymbolicationResult)
    → lock_event_for_processing db event_id ≡ some (event, workspace_id)
    → (find (is_event event.id) db.events ≡ some event) × (event.id ≡ event_id)
unfolding lock_event_for_processing
lock_event-eq-some db event_id workspace_id event h =
    let there =
      join_project-eq-some db.projects (find (is_event event_id) db.events) event workspace_id h in
    let same : event.id ≡ event_id =
      (==_iff _ _).0 (find-passes (is_event event_id) db.events event there) in
    (subst (λ i. find (is_event i) db.events ≡ some event) (sym same) there, same)

-- What `lockOrCreateIssue` returns where nobody interferes: the issue of the fingerprint, or a new
-- one, which is appended.
module _ (new_id now : ℕ) (input : CreateIssueInput) (issues : List IssueRow) where
  pub lock_or_create_issue_existing :
      (r : IssueRow)
      → find (has_fingerprint input.project_id input.fingerprint) issues ≡ some r
      → lock_or_create_issue [] new_id now input issues
        ≡ (issues, some (record { row = r; created = false }))
  unfolding lock_or_create_issue lock_issue_by_fingerprint
  lock_or_create_issue_existing r k = rw k refl

  pub lock_or_create_issue_new :
      find (has_fingerprint input.project_id input.fingerprint) issues ≡ none
      → let row = new_issue new_id now input in
        lock_or_create_issue [] new_id now input issues
        ≡ (issues ++ (row ∷ []), some (record { row = row; created = true }))
  unfolding lock_or_create_issue lock_issue_by_fingerprint insert_issue_if_absent
  lock_or_create_issue_new k =
      rw
        (
          k,
          append-nil issues,
          any-of_none (has_fingerprint input.project_id input.fingerprint) issues k,
        )
        refl

  pub lock_or_create_issue_lem :
      let key = has_fingerprint input.project_id input.fingerprint in
      let row = new_issue new_id now input in
      ((r : IssueRow) × (find key issues ≡ some r)
        × (lock_or_create_issue [] new_id now input issues
            ≡ (issues, some (record { row = r; created = false }))))
      ⊎ ((any key issues ≡ false)
          × (lock_or_create_issue [] new_id now input issues
              ≡ (issues ++ (row ∷ []), some (record { row = row; created = true }))))
  lock_or_create_issue_lem =
      elim (Option-cases (find (has_fingerprint input.project_id input.fingerprint) issues)) [
        | inl k ↦ inr (any-of_none _ issues k, lock_or_create_issue_new k)
        | inr (r, k) ↦ inl (r, k, lock_or_create_issue_existing r k)
      ]

module _ {P : Type 0} (db : Db P SymbolicationResult) (event : EventRow P SymbolicationResult)
    (symbolication : SymbolicationResult) where
  -- The rejected event.
  abbrev pub refuse :
      StoredEventRejectionCode → EventRow P SymbolicationResult → EventRow P SymbolicationResult
  refuse code e = record e {
    symbolication_json = some symbolication;
    processing_state = rejected;
    rejection_reason = some code;
  }

  pub mark_event_rejected_lem :
      (code : StoredEventRejectionCode)
      → mark_event_rejected event.id code (persist_event_symbolication event.id symbolication db)
        ≡ (record db { events = map (at (is_event event.id) (refuse code)) db.events })
  unfolding mark_event_rejected persist_event_symbolication
  mark_event_rejected_lem code =
      ap (λ es. record db { events = es })
        (map-at-at (is_event event.id)
          (λ e. record e { processing_state = rejected; rejection_reason = some code })
          (λ e. record e { symbolication_json = some symbolication }) (λ e. refl) db.events)

  pub mark_event_processed_lem :
      mark_event_processed event.id none none
        (persist_event_symbolication event.id symbolication db)
      ≡ (record db {
        events = map (at (is_event event.id) (settle symbolication none none)) db.events;
      })
  unfolding mark_event_processed persist_event_symbolication
  mark_event_processed_lem =
      ap (λ es. record db { events = es })
        (map-at-at (is_event event.id)
          (λ e. record e { processing_state = processed; fingerprint = none; issue_id = none })
          (λ e. record e { symbolication_json = some symbolication }) (λ e. refl) db.events)
