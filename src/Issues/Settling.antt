-- ===== src/Issues/Settling.antt =====
-- How a delivery settles its event (apps/worker/src/processors/process-event.ts).
use replay_bug.Common.{
  ℕ, true, false, ◌==◌, ◌≡◌, refl, ap, sym, subst, inl, inr, ◌⊎◌, Option, none, some, arith, map,
}
use replay_bug.Common.Rows.{find, at}
use replay_bug.Common.RowLaws.{find-at_same}
use replay_bug.Authz.Guards.{ProjectView}
use replay_bug.Issues.Store.{
  EventRow, Db, processed, rejected, join_project, in_workspace, lock_event_for_processing,
  get_event_for_symbolication, new_issue,
}
use replay_bug.Issues.Process.{
  SymbolicationResult, LockOrCreateResult, candidate, Derived, non_issue, issue, payload_error,
  other_error, ProcessEventOutcome, processed_outcome, already_processed, already_rejected,
  rejected_outcome, event_not_found, follow_plan,
}
use replay_bug.Issues.Tables.{is_event, settle, after_occurrence, record_occurrence_lem}
use replay_bug.Issues.Branches.{
  lock_event-eq-some, lock_or_create_issue_lem, refuse, mark_event_rejected_lem,
  mark_event_processed_lem,
}

-- What a job is answered that is delivered again.
abbrev pub again : ProcessEventOutcome → ProcessEventOutcome
again (processed_outcome project_id issue_id fingerprint) = already_processed project_id
again (already_processed project_id) = already_processed project_id
again (already_rejected project_id) = already_rejected project_id
again (rejected_outcome project_id code) = already_rejected project_id
again event_not_found = event_not_found

-- A settled row, and the outcome that says so.
abbrev pub SettledAs : {P : Type 0} → EventRow P SymbolicationResult → ProcessEventOutcome → Type 0
SettledAs e outcome =
    ((e.processing_state ≡ processed) × (again outcome ≡ already_processed e.project_id))
    ⊎ ((e.processing_state ≡ rejected) × (again outcome ≡ already_rejected e.project_id))

pub get-of_locked :
    {P : Type 0} (db : Db P SymbolicationResult) (event_id workspace_id : ℕ)
    (event : EventRow P SymbolicationResult)
    → lock_event_for_processing db event_id ≡ some (event, workspace_id)
    → get_event_for_symbolication db event_id ≡ some event
unfolding get_event_for_symbolication
get-of_locked db event_id workspace_id event h =
    let (there, same) = lock_event-eq-some db event_id workspace_id event h in
    subst (λ i. find (is_event i) db.events ≡ some event) same there

in_workspace_of :
    {P : Type 0} (e e' : EventRow P SymbolicationResult) (p : Option ProjectView) (workspace_id : ℕ)
    → in_workspace e p ≡ some (e, workspace_id)
    → in_workspace e' p ≡ some (e', workspace_id)
in_workspace_of e e' none workspace_id h = absurd (cc)
in_workspace_of e e' (some p) workspace_id h =
    let same : p.workspace_id ≡ workspace_id = ground arith in rw same refl

module _ {P : Type 0} (db : Db P SymbolicationResult) (event : EventRow P SymbolicationResult)
    (workspace_id : ℕ)
    (locked : lock_event_for_processing db event.id ≡ some (event, workspace_id)) where
  -- Locking the event after its row was updated.
  pub locked_after :
      (f : EventRow P SymbolicationResult → EventRow P SymbolicationResult)
      (db' : Db P SymbolicationResult)
      → ((x : EventRow P SymbolicationResult) → (f x).id ≡ x.id)
      → ((x : EventRow P SymbolicationResult) → (f x).project_id ≡ x.project_id)
      → db'.events ≡ map (at (is_event event.id) f) db.events
      → db'.projects ≡ db.projects
      → (get_event_for_symbolication db' event.id ≡ some (f event))
        × (lock_event_for_processing db' event.id ≡ some (f event, workspace_id))
  unfolding lock_event_for_processing get_event_for_symbolication
  locked_after f db' keeps same events projects =
      let there = (lock_event-eq-some db event.id workspace_id event locked).0 in
      let found : find (is_event event.id) db'.events ≡ some (f event) =
        rw (events, find-at_same (is_event event.id) f (λ x. rw (keeps x) refl) db.events, there)
          refl in
      let joined : in_workspace event (find (λ p. ProjectView.id p == event.project_id) db.projects)
          ≡ some (event, workspace_id) =
        subst (λ o. join_project db.projects o ≡ some (event, workspace_id)) there locked in
      (
        found,
        rw (found, projects)
            (subst
              (λ z.
                in_workspace (f event) (find (λ p. ProjectView.id p == z) db.projects)
                ≡ some (f event, workspace_id))
              (sym (same event)) (in_workspace_of event (f event) _ workspace_id joined)),
      )

  -- What a transaction that returned made of the events.
  pub record Settles (db' : Db P SymbolicationResult) (outcome : ProcessEventOutcome) : Type 0 where
    pub change : EventRow P SymbolicationResult → EventRow P SymbolicationResult
    pub id_kept : (x : EventRow P SymbolicationResult) → (change x).id ≡ x.id
    pub project_kept : (x : EventRow P SymbolicationResult) → (change x).project_id ≡ x.project_id
    pub events : db'.events ≡ map (at (is_event event.id) change) db.events
    pub projects : db'.projects ≡ db.projects
    pub settled : SettledAs (change event) outcome

  abbrev pub IfWritten : Option (Db P SymbolicationResult × ProcessEventOutcome) → Type 0
  IfWritten none = Unit
  IfWritten (some (db', outcome)) = Settles db' outcome

  Settles-issue :
      (now fingerprint : ℕ) (symbolication : SymbolicationResult) (found : LockOrCreateResult)
      (db' : Db P SymbolicationResult)
      → db'.events ≡ db.events
      → db'.projects ≡ db.projects
      → Settles
          (after_occurrence now event workspace_id symbolication fingerprint found db')
          (processed_outcome event.project_id (some found.row.id) (some fingerprint))
  Settles-issue now fingerprint symbolication found db' events projects = record {
    change = settle symbolication (some fingerprint) (some found.row.id);
    id_kept = λ x. refl;
    project_kept = λ x. refl;
    events =
        ap
          (λ es.
            map
              (at (is_event event.id) (settle symbolication (some fingerprint) (some found.row.id)))
              es)
          events;
    projects = projects;
    settled = inl (refl, refl);
  }

  pub follow_plan-Settles :
      (new_id now : ℕ) (symbolication : SymbolicationResult) (d : Derived)
      → IfWritten (follow_plan new_id now event workspace_id symbolication d db)
  follow_plan-Settles new_id now symbolication other_error = tt
  follow_plan-Settles new_id now symbolication non_issue =
      rw (mark_event_processed_lem db event symbolication) (record {
        change = settle symbolication none none;
        id_kept = λ x. refl;
        project_kept = λ x. refl;
        events = refl;
        projects = refl;
        settled = inl (refl, refl);
      })
  follow_plan-Settles new_id now symbolication (payload_error code) =
      rw (mark_event_rejected_lem db event symbolication code) (record {
        change = refuse db event symbolication code;
        id_kept = λ x. refl;
        project_kept = λ x. refl;
        events = refl;
        projects = refl;
        settled = inr (refl, refl);
      })
  follow_plan-Settles new_id now symbolication (issue descriptor) =
      let fp = descriptor.fingerprint in
      elim (lock_or_create_issue_lem new_id now (candidate event descriptor) db.issues) [
        | inl (r, there, e) ↦
            rw
              (
                e,
                record_occurrence_lem now event workspace_id symbolication fp
                    (record { row = r; created = false }) db,
              )
              (Settles-issue now fp symbolication (record { row = r; created = false }) db refl
                refl)
        | inr (fresh, e) ↦
            let found : LockOrCreateResult = record {
              row = new_issue new_id now (candidate event descriptor);
              created = true;
            } in
            rw (e, record_occurrence_lem now event workspace_id symbolication fp found _)
              (Settles-issue now fp symbolication found _ refl refl)
      ]

  -- A plan that is derived is followed without an error.
  pub follow_plan-none :
      (new_id now : ℕ) (symbolication : SymbolicationResult) (d : Derived)
      → follow_plan new_id now event workspace_id symbolication d db ≡ none
      → d ≡ other_error
  follow_plan-none new_id now symbolication other_error h = refl
  follow_plan-none new_id now symbolication non_issue h = absurd (cc)
  follow_plan-none new_id now symbolication (payload_error code) h = absurd (cc)
  follow_plan-none new_id now symbolication (issue descriptor) h =
      elim (lock_or_create_issue_lem new_id now (candidate event descriptor) db.issues) [
        | inl (r, there, e) ↦ absurd (ground arith)
        | inr (fresh, e) ↦ absurd (ground arith)
      ]
