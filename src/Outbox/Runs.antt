-- ===== src/Outbox/Runs.antt =====
-- Any sequence of inserts and passes, whatever pg-boss answers and wherever a transaction is broken
-- off (packages/db/src/repositories/outbox.ts, apps/worker/src/dispatcher/outbox-dispatcher.ts,
-- apps/worker/src/reconciliation/outbox-reconciliation.ts).
use replay_bug.Common.{
  ℕ, suc, true, false, ◌≡◌, refl, Option, none, some, List, [], ◌∷◌, ◌++◌, length, take, All,
  All-append, any, arith, Bool-cases, inl, inr,
}
use replay_bug.Outbox.Table.{
  OutboxRow, has_id, insert_outbox, claim_pending_outbox_batch, claim_stale_outbox_batch,
  list_stale_outbox,
}
use replay_bug.Outbox.Dispatcher.{
  Answer, published, deduplicated, threw, PublishBatchResult, Progress, publish_answer,
  publish_loop, Outbox, started, Surroundings, run_transaction, dispatch_outbox_batch,
  reconcile_listed, counted, reconcile_outbox,
}
use replay_bug.Outbox.Claims.{Absent, Distinct}
use replay_bug.Outbox.Passes.{is_handed, is_backed, is_short, Sound, publish_loop-Sound}

publish_answer_keeps :
    (now i e : ℕ) (a : Answer) (p : Progress)
    → is_handed p.handed e ≡ true
    → is_handed (publish_answer now i a p).handed e ≡ true
unfolding publish_answer
publish_answer_keeps now i e published p h = ground (arith, h)
publish_answer_keeps now i e deduplicated p h = ground (arith, h)
publish_answer_keeps now i e (threw m) p h = h

publish_loop_keeps :
    (now : ℕ) (answers : ℕ → Answer) (items : List OutboxRow) (e : ℕ) (p : Progress)
    → is_handed p.handed e ≡ true
    → is_handed (publish_loop now answers items p).handed e ≡ true
unfolding publish_loop
publish_loop_keeps now answers [] e p h = h
publish_loop_keeps now answers (item ∷ items) e p h =
    publish_loop_keeps now answers items e _
      (publish_answer_keeps now item.event_id e (answers item.event_id) p h)

All-imp :
    (P Q : OutboxRow → Type 0)
    → ((r : OutboxRow) → P r → Q r)
    → (rows : List OutboxRow) → All P rows
    → All Q rows
All-imp P Q f [] h = tt
All-imp P Q f (r ∷ rows) (k, h) = (f r k, All-imp P Q f rows h)

abbrev pub SoundOutbox : Outbox → Type 0
SoundOutbox o = Sound o.rows o.handed

backed_more :
    (handed more : List ℕ)
    → ((e : ℕ) → is_handed handed e ≡ true → is_handed more e ≡ true)
    → (r : OutboxRow) → is_backed handed r ≡ true
    → is_backed more r ≡ true
backed_more handed more grows r k = elim (Bool-cases (is_handed handed r.event_id)) [
  | inl e ↦ ground (arith, grows r.event_id e)
  | inr e ↦ ground (arith, e)
]

run_transaction-Sound :
    (env : Surroundings) (items : List OutboxRow) (breaks : Option ℕ) (o : Outbox)
    → SoundOutbox o
    → SoundOutbox (run_transaction env items breaks o).0
unfolding run_transaction
run_transaction-Sound env items none o s =
    publish_loop-Sound env.now env.answers items (started o) s
run_transaction-Sound env items (some n) o s = record {
  distinct = s.distinct;
  backed =
      All-imp _ _
        (backed_more o.handed _
          (λ e h. publish_loop_keeps env.now env.answers (take n items) e (started o) h))
        o.rows s.backed;
  short = s.short;
}

Absent-of_any : (e : ℕ) (rows : List OutboxRow) → any (has_id e) rows ≡ false → Absent e rows
Absent-of_any e [] h = tt
Absent-of_any e (r ∷ rows) h = (ground arith, Absent-of_any e rows (ground arith))

append-Distinct :
    (rows : List OutboxRow) (row : OutboxRow)
    → Distinct rows
    → Absent row.event_id rows
    → Distinct (rows ++ (row ∷ []))
append-Distinct [] row d a = (tt, tt)
append-Distinct (r ∷ rows) row (k, d) (n, a) = (
  All-append (λ t. has_id r.event_id t ≡ false) rows (row ∷ []) k (ground arith, tt),
  append-Distinct rows row d a,
)

-- What happens to the outbox: an event is ingested, or a pass runs.
pub data Action : Type 0 where
  ingest : ℕ → ℕ → Action
  dispatch : ℕ → Surroundings → Action
  reconcile : ℕ → ℕ → Surroundings → Action

abbrev inserted : Outbox → Option (List OutboxRow) → Outbox
inserted o none = o
inserted o (some rows) = record o { rows = rows }

unfoldable pub act : Outbox → Action → Outbox
act o (ingest e now) = inserted o (insert_outbox o.rows e now)
act o (dispatch batch_size env) = (dispatch_outbox_batch batch_size env o).0
act o (reconcile batch_size before env) = (reconcile_outbox batch_size before env o).0

unfoldable pub run : Outbox → List Action → Outbox
run o [] = o
run o (a ∷ rest) = run (act o a) rest

insert-Sound :
    (o : Outbox) (e now : ℕ) → SoundOutbox o → SoundOutbox (inserted o (insert_outbox o.rows e now))
unfolding insert_outbox
insert-Sound o e now s = elim (Bool-cases (any (has_id e) o.rows)) [
  | inl taken ↦ rw taken s
  | inr free ↦ rw free (record {
    distinct = append-Distinct o.rows _ s.distinct (Absent-of_any e o.rows free);
    backed = All-append (λ r. is_backed o.handed r ≡ true) o.rows _ s.backed (refl, tt);
    short = All-append (λ r. is_short r.last_error ≡ true) o.rows _ s.short (refl, tt);
  })
]

counted-Sound :
    (n : ℕ) (r : Outbox × Option PublishBatchResult) → SoundOutbox r.0 → SoundOutbox (counted n r).0
counted-Sound n (o, none) s = s
counted-Sound n (o, some result) s = s

reconcile_listed-Sound :
    (batch_size before : ℕ) (env : Surroundings) (o : Outbox) (stale : List OutboxRow)
    → SoundOutbox o
    → SoundOutbox (reconcile_listed batch_size before env o stale).0
unfolding reconcile_listed
reconcile_listed-Sound batch_size before env o [] s = s
reconcile_listed-Sound batch_size before env o (row ∷ rows) s =
    counted-Sound (suc (length rows)) _ (
      run_transaction-Sound env (claim_stale_outbox_batch env.locked o.rows before batch_size)
        env.breaks_after o s)

act-Sound : (o : Outbox) (a : Action) → SoundOutbox o → SoundOutbox (act o a)
unfolding act dispatch_outbox_batch reconcile_outbox
act-Sound o (ingest e now) s = insert-Sound o e now s
act-Sound o (dispatch batch_size env) s =
    run_transaction-Sound env (claim_pending_outbox_batch env.locked o.rows batch_size)
      env.breaks_after o s
act-Sound o (reconcile batch_size before env) s =
    reconcile_listed-Sound batch_size before env o (list_stale_outbox o.rows before batch_size) s

run-Sound-from : (actions : List Action) (o : Outbox) → SoundOutbox o → SoundOutbox (run o actions)
unfolding run
run-Sound-from [] o s = s
run-Sound-from (a ∷ rest) o s = run-Sound-from rest (act o a) (act-Sound o a s)

-- Whatever is ingested, whatever the passes meet and wherever their transactions are broken off,
-- from an empty outbox: ids stay unique, a row is marked dispatched only after pg-boss has taken
-- its event over, and a stored failure message has at most 500 characters.
pub run-Sound :
    (actions : List Action) → SoundOutbox (run (record { rows = []; handed = [] }) actions)
run-Sound actions = run-Sound-from actions _ (record { distinct = tt; backed = tt; short = tt })
