-- ===== src/Outbox/Table.antt =====
-- The outbox table and its queries (packages/db/src/repositories/outbox.ts).
-- The table is a list of rows, a time a number. `FOR UPDATE SKIP LOCKED` leaves out the rows that
-- another transaction holds, which the Boolean function says.
use replay_bug.Common.{
  ℕ, ◌+◌, Bool, not, ◌&&◌, ◌||◌, ltb, leb, ◌==◌, if◌then◌else◌, is_some, Option, none, some, List,
  [], ◌∷◌, ◌++◌, map, filter, take, any,
}
use replay_bug.Common.Text.{Text}

pub record OutboxRow : Type 0 where
  pub event_id : ℕ
  pub created_at : ℕ
  pub dispatched_at : Option ℕ
  pub attempt_count : ℕ
  pub last_error : Option Text

abbrev pub has_id : ℕ → OutboxRow → Bool
has_id e row = row.event_id == e

-- The event's id is the primary key: a second row for it is refused.
unfoldable pub insert_outbox : List OutboxRow → ℕ → ℕ → Option (List OutboxRow)
insert_outbox rows event_id now =
    if any (has_id event_id) rows
    then none
    else (let row : OutboxRow = record {
      event_id = event_id;
      created_at = now;
      dispatched_at = none;
      attempt_count = 0;
      last_error = none;
    } in
        some (rows ++ (row ∷ [])))

-- `isNull(dispatchedAt)`
abbrev pub is_pending : OutboxRow → Bool
is_pending row = not (is_some row.dispatched_at)

-- `isNull(dispatchedAt)` and `lte(createdAt, staleBefore)`
abbrev pub is_stale : ℕ → OutboxRow → Bool
is_stale stale_before row = is_pending row && leb row.created_at stale_before

-- `orderBy(asc(createdAt), asc(eventId))`
abbrev pub precedes : OutboxRow → OutboxRow → Bool
precedes a b =
    ltb a.created_at b.created_at || ((a.created_at == b.created_at) && leb a.event_id b.event_id)

unfoldable pub insert_in_order : OutboxRow → List OutboxRow → List OutboxRow
insert_in_order row [] = row ∷ []
insert_in_order row (r ∷ rows) =
    let rest = insert_in_order row rows in if precedes row r then row ∷ r ∷ rows else r ∷ rest

unfoldable pub in_order : List OutboxRow → List OutboxRow
unfolding insert_in_order
in_order [] = []
in_order (row ∷ rows) = insert_in_order row (in_order rows)

unfoldable pub claim_pending_outbox_batch : (ℕ → Bool) → List OutboxRow → ℕ → List OutboxRow
claim_pending_outbox_batch locked rows limit =
    take limit (in_order (filter (λ r. is_pending r && not (locked r.event_id)) rows))

unfoldable pub claim_stale_outbox_batch : (ℕ → Bool) → List OutboxRow → ℕ → ℕ → List OutboxRow
claim_stale_outbox_batch locked rows stale_before limit =
    take limit (in_order (filter (λ r. is_stale stale_before r && not (locked r.event_id)) rows))

unfoldable pub list_stale_outbox : List OutboxRow → ℕ → ℕ → List OutboxRow
list_stale_outbox rows stale_before limit =
    take limit (in_order (filter (is_stale stale_before) rows))

abbrev pub dispatched : ℕ → OutboxRow → OutboxRow
dispatched now row = record row { dispatched_at = some now; last_error = none }

unfoldable pub mark_outbox_dispatched : ℕ → List OutboxRow → ℕ → List OutboxRow
mark_outbox_dispatched now rows event_id =
    map (λ row. if has_id event_id row then dispatched now row else row) rows

abbrev pub failed : Text → OutboxRow → OutboxRow
failed error row = record row { attempt_count = row.attempt_count + 1; last_error = some error }

unfoldable pub record_outbox_dispatch_failure : List OutboxRow → ℕ → Text → List OutboxRow
record_outbox_dispatch_failure rows event_id error =
    map (λ row. if has_id event_id row then failed error row else row) rows
