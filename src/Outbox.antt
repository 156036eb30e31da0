-- ===== src/Outbox.antt =====
-- The transactional outbox of ingested events: the table (packages/db/src/repositories/outbox.ts),
-- and the worker's dispatcher and reconciliation (apps/worker/src/dispatcher/publish-batch.ts,
-- outbox-dispatcher.ts, apps/worker/src/reconciliation/outbox-reconciliation.ts).
pub mod Table
pub mod Dispatcher
pub mod Claims
pub mod Settled
pub mod Passes
pub mod Runs
pub mod Outcomes
pub mod Drains
