-- ===== src/Sched.antt =====
-- kernel/src/sched: identities shared by the scheduler's components, and exact waits.
pub mod Ids
pub mod Wait
