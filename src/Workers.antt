-- ===== src/Workers.antt =====
-- workers/: the messages between the supervisor and the worker processes.
pub mod Protocol
pub mod Heartbeat
