-- ===== src/Realtime.antt =====
-- Project updates in real time: the API's broker between PostgreSQL's LISTEN and the SSE streams
-- (apps/api/src/realtime/broker.ts).
pub mod Update
pub mod Broker
pub mod Notification
pub mod Delivery
pub mod Isolation
pub mod Steps
