-- ===== src/Sched.antt =====
-- TP Sched: the scheduler of the kernel, by round robin or by priorities.
pub mod State
pub mod Run
pub mod Yield
pub mod Syscall
mod Tests
