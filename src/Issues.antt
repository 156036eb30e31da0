-- ===== src/Issues.antt =====
-- Issues: the processing of a telemetry event into an issue
-- (apps/worker/src/processors/process-event.ts), the tables it works on
-- (packages/db/src/repositories/issues.ts, event-processing.ts, issue-affected-sessions.ts,
-- issue-activity.ts, notifications.ts, project-updates.ts), and the changes of an issue's status
-- and assignee (apps/api/src/services/issues.ts).
pub mod Store
pub mod Frames
pub mod Process
pub mod Service
pub mod Tables
pub mod Consistent
pub mod Tallies
pub mod Occurrence
pub mod Settled
pub mod Locked
pub mod Branches
pub mod Delivery
pub mod Settling
pub mod Kept
pub mod Redelivery
pub mod Throwing
pub mod Grouping
pub mod Regressions
pub mod Order
pub mod Changes
pub mod Assignments
pub mod Requested
pub mod Requests
pub mod Steps
