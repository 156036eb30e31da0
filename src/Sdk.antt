-- ===== src/Sdk.antt =====
-- The browser SDK: the breadcrumb buffer, the event queue and its retries (packages/sdk/src).
pub mod Breadcrumbs
pub mod BreadcrumbLaws
pub mod Queue
pub mod QueueLaws
pub mod QueueEvents
pub mod QueueAttempts
pub mod QueueFailures
pub mod Retry
pub mod RetryLaws
pub mod RetryRuns
