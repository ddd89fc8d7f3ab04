-- ===== src/Sched.antt =====
-- src/kernel/sched: the scheduler.
pub mod Tasks
pub mod Guard
