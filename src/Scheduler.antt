-- ===== src/Scheduler.antt =====
-- scheduler/: priorities, queues, retries and cancellation of jobs.
pub mod Priority
pub mod Queues
pub mod Retry
pub mod Cancellation
pub mod Loop
