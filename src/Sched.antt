-- ===== src/Sched.antt =====
-- kernel/proc/scheduler.c: the run queue, the round-robin policy, sleeping and waking.
pub mod State
pub mod Queue
pub mod Pick
pub mod Policy
pub mod Core
pub mod Invariant
pub mod Keep
pub mod Turns
pub mod Choice
pub mod Dead
pub mod Wakeup
mod Tests
