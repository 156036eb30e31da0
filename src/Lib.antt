-- ===== src/Lib.antt =====
-- The verification library of ReplayBug: models of its core logic and the theorems about them.
--
-- ReplayBug collects telemetry of web applications. The SDK in the browser records breadcrumbs and
-- queues events for the ingest API; the API authorizes its users by their role in a workspace,
-- governs the workspaces' members, and tells dashboards of changes in real time; workers group
-- what was ingested into issues. The library follows these parts.
--
-- Common: the numbers, lists, options and texts that the models share. Numbers are natural
-- numbers, ids are opaque numbers where the code only compares them, and texts are lists of
-- character codes where the code looks into them.
--
-- Errors (apps/api/src/errors.ts): `DomainError`, its codes and statuses; `Result` is what code
-- that may throw one comes to, and its bind is the sequence of statements.
--
-- Authz.Roles, Authz.Policy and Authz.Matrix (apps/api/src/authz/policy.ts): roles with their
-- ranks, `hasCapability` and the other rules, and the matrix that is written out next to them.
-- Authz.Guards (apps/api/src/authz/guards.ts): the guards, and Authz.Access the order in which
-- getProjectById and updateProject (apps/api/src/services/projects.ts) and issueWithAccess
-- (apps/api/src/services/ai-analyses.ts) use them. Authz.Web (apps/web/lib/rbac.ts): the rules by
-- which the web client shows its controls.
--
-- Governance.Store (packages/db/src/repositories/memberships.ts, audit.ts): the membership and
-- audit tables as lists of rows, the queries on them, and `transaction`, which keeps what its body
-- wrote only if the body returns. Governance.Service
-- (apps/api/src/services/workspace-governance.ts): each operation as the body of its transaction,
-- statement by statement. Governance.Reach runs any list of requests; the operations lock the
-- workspace's row first, so they are taken one after another. The table's key on workspace and
-- user is the predicate `Unique`. The look-up of a member's name for the answer (memberDto) and
-- the paged audit list are not modelled.
--
-- Audit.Sanitize (packages/db/src/repositories/audit.ts): the sanitizing of audit metadata, on
-- JSON values. What `sanitizeAuditMetadata` makes of the fixed fields that governance writes is
-- left out of Governance.
--
-- Sdk.Breadcrumbs (packages/sdk/src/breadcrumbs.ts): the ring buffer. Sdk.Queue and Sdk.Retry
-- (packages/sdk/src/queue.ts): the event queue, whose `flush` is cut at its `await` into
-- `flush_begin`, and `flush_sent` or `flush_failed`; `Action` is what can happen to a queue
-- between two turns of the event loop, and `run` any sequence of them. Retries are a recursion on
-- the number of attempts that are left, which is the configured maximum at first, so it ends by
-- itself. A delay is computed with exact fractions. The loop in which `close` waits is not
-- modelled.
--
-- Realtime.Update and Realtime.Broker (apps/api/src/realtime/broker.ts): the validation of what
-- PostgreSQL notifies of, the subscribers with their queues and the connection;
-- Realtime.Notification (packages/db/src/repositories/project-updates.ts): what is sent. A sink is
-- known by which of its calls throw. Realtime.Steps has each request and each event of the
-- connection as a step.
--
-- Outbox.Table (packages/db/src/repositories/outbox.ts) is the outbox of ingested events: a list
-- of rows whose key is the event's id. Outbox.Dispatcher
-- (apps/worker/src/dispatcher/publish-batch.ts, outbox-dispatcher.ts,
-- apps/worker/src/reconciliation/outbox-reconciliation.ts) has the passes that hand its rows to
-- pg-boss: the claim, the loop over the claimed rows, the transaction, which the database may
-- break off after any number of rows, and the loop of a tick, a recursion on the ten passes that
-- the code allows. Outbox.Runs has any sequence of inserts and passes.
--
-- Issues.Store (packages/db/src/repositories/issues.ts, event-processing.ts,
-- issue-affected-sessions.ts, issue-activity.ts, notifications.ts, project-updates.ts and
-- insertEvent of telemetry.ts) has the tables of events and issues and of what refers to them,
-- with their queries; Issues.Process (apps/worker/src/processors/process-event.ts) the processing
-- of one event, and Issues.Frames (apps/worker/src/symbolication/fingerprint-frames.ts) the frames
-- that it is fingerprinted by; Issues.Service (apps/api/src/services/issues.ts) the requests that
-- change a status or an assignee; Issues.Requested says in its own words what they write. The
-- symbolication and the derivation may throw, and so does a delivery then; a transaction that
-- throws leaves the tables as they were. The row locks order the transactions, so they are taken
-- one after another, except that lock_or_create_issue has the issues that others commit between
-- its two statements as an argument. The id of a new row is an argument, with the hypothesis that
-- it is unused; fingerprints are hashes, so they are only compared. Issues.Consistent says what
-- the aggregates of issues say of the events, and Issues.Steps has every event, delivery and
-- request as a step. The sweeps that delete old events are no step.
--
-- Invitations.Token (packages/db/src/invitations.ts) has the tokens, addresses and roles of
-- invitations, on texts of UTF-16 code units; Invitations.Store
-- (packages/db/src/repositories/invitations.ts, memberships.ts, users.ts) the table with its
-- queries and updates; Invitations.Service (apps/api/src/services/invitations.ts) the request that
-- creates an invitation, and Invitations.Endings (the same file and
-- apps/worker/src/cleanup/invitations.ts) those that revoke and accept one and the sweep that
-- retires the expired ones, each as the body of its transaction. Invitations.Steps has each of
-- them as a step. The reads that creating an invitation starts with are modelled as part of its
-- transaction. SHA-256, lower case and the random bytes are parameters. A statement after a unique
-- violation is modelled as if the transaction went on.
--
-- Examples has runs of the definitions, and each theorem at a concrete input.
--
-- Where the models need what is outside: the parsing of a date and `toLowerCase` are parameters,
-- as the engine does them; pg-boss is its answers to the publishes of a pass; a transport, a clock
-- and random draws are functions of the attempt. No definition needs fuel. Not modelled are the
-- timers of the worker's loops, its other processors and its sweeps, symbolication and the
-- derivation of fingerprints (parameters of the processing), reproductions, AI analyses and
-- ingest, the HTTP routes, the web pages, the command line client, and schemas, migrations and
-- other declarations.
mod Common
pub mod Errors
pub mod Authz
pub mod Governance
pub mod Audit
pub mod Sdk
pub mod Realtime
pub mod Outbox
pub mod Issues
pub mod Invitations
mod Examples
