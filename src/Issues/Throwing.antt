-- ===== src/Issues/Throwing.antt =====
-- When a delivery throws, and that it changes nothing then
-- (apps/worker/src/processors/process-event.ts).
use replay_bug.Common.{
  ℕ, ◌≡◌, refl, ap, ◌∙◌, sym, subst, inl, inr, ◌⊎◌, Option, none, some, List, arith, Option-cases,
}
use replay_bug.Common.Text.{Text}
use replay_bug.Issues.Store.{
  EventRow, Db, pending, processed, rejected, EventProcessingState, lock_event_for_processing,
  get_event_for_symbolication,
}
use replay_bug.Issues.Process.{
  select_mapped_fingerprint_frames, SymbolicationResult, NormalizableStackFrame, Derived,
  other_error, ProcessEventOutcome, follow_plan, process_state, process_event, committed,
}
use replay_bug.Issues.Branches.{lock_event-eq-some}
use replay_bug.Issues.Settling.{get-of_locked, follow_plan-none}

committed-none :
    {P : Type 0} (db : Db P SymbolicationResult)
    (r : Option (Db P SymbolicationResult × ProcessEventOutcome))
    → (committed db r).1 ≡ none
    → r ≡ none
committed-none db none h = refl
committed-none db (some r) h = absurd (cc)

module _ {P : Type 0} (symbolicate : ℕ → Option Text → P → Option SymbolicationResult)
    (derive : ℕ → Text → P → Option (List NormalizableStackFrame) → Derived)
    (new_id now event_id : ℕ) (db : Db P SymbolicationResult) where
  -- Why a delivery threw: the symbolication of its event did, or the derivation for a pending one.
  abbrev pub Threw : EventRow P SymbolicationResult → Type 0
  Threw e =
      (symbolicate e.project_id e.release e.payload_json ≡ none)
      ⊎ ((s : SymbolicationResult) × (symbolicate e.project_id e.release e.payload_json ≡ some s)
          × (e.processing_state ≡ pending)
          × (derive e.project_id e.event_type e.payload_json (select_mapped_fingerprint_frames s)
              ≡ other_error))

  state-Threw :
      (event : EventRow P SymbolicationResult) (workspace_id : ℕ)
      (symbolication : SymbolicationResult) (state : EventProcessingState)
      → lock_event_for_processing db event.id ≡ some (event, workspace_id)
      → (committed db
          (process_state symbolicate derive new_id now event workspace_id symbolication state db)).1
        ≡ none
      → (state ≡ pending)
        × (derive event.project_id event.event_type event.payload_json
              (select_mapped_fingerprint_frames symbolication)
            ≡ other_error)
        × ((committed db (
              process_state symbolicate derive new_id now event workspace_id symbolication state
                db)).0
            ≡ db)
  state-Threw event workspace_id symbolication processed locked h = absurd (cc)
  state-Threw event workspace_id symbolication rejected locked h = absurd (cc)
  state-Threw event workspace_id symbolication pending locked h =
      let d =
        derive event.project_id event.event_type event.payload_json
          (select_mapped_fingerprint_frames symbolication) in
      let k = committed-none db (follow_plan new_id now event workspace_id symbolication d db) h in
      (
        refl,
        follow_plan-none db event workspace_id locked new_id now symbolication d k,
        ap (λ r. (committed db r).0) k,
      )

  -- While the database answers, a delivery throws only where the symbolication of its event or, for
  -- a pending event, the derivation of its plan does, and a delivery that throws changes nothing.
  pub process_event_throws :
      (process_event symbolicate derive new_id now event_id db).1 ≡ none
      → ((process_event symbolicate derive new_id now event_id db).0 ≡ db)
        × ((e : EventRow P SymbolicationResult) × (get_event_for_symbolication db event_id ≡ some e)
            × Threw e)
  unfolding process_event
  process_event_throws h = elim (Option-cases (get_event_for_symbolication db event_id)) [
    | inl k ↦ let never = rw k at h in absurd (cc)
    | inr (e, k) ↦ elim (Option-cases (symbolicate e.project_id e.release e.payload_json)) [
      | inl q ↦ (rw k (rw q refl), (e, k, inl q))
      | inr (s, q) ↦ elim (Option-cases (lock_event_for_processing db event_id)) [
        | inl l ↦ let never = rw (q, l) at (rw k at h) in absurd (cc)
        | inr ((event, workspace_id), l) ↦
            let same = (lock_event-eq-some db event_id workspace_id event l).1 in
            let locked =
              subst (λ z. lock_event_for_processing db z ≡ some (event, workspace_id)) (sym same)
                l in
            let one : event ≡ e =
              ground (arith, sym (get-of_locked db event_id workspace_id event l) ∙ k) in
            let (state, threw, unchanged) =
              state-Threw event workspace_id s event.processing_state locked
                (rw (q, l) at (rw k at h)) in
            (
              rw k (rw (q, l) unchanged),
              (
                e,
                k,
                inr (
                  s,
                  q,
                  subst (λ z. EventRow.processing_state z ≡ pending) one state,
                  subst
                      (λ z.
                        derive (EventRow.project_id z) (EventRow.event_type z)
                          (EventRow.payload_json z) (select_mapped_fingerprint_frames s)
                        ≡ other_error)
                      one threw,
                ),
              ),
            )
      ]
    ]
  ]
