-- ===== src/Kernel.antt =====
-- The kernel's processes: the queue of tasks, the process table, the scheduler and the
-- system calls of a family of processes.
pub mod Queue
pub mod System
pub mod Process
pub mod Family
pub mod Boot
pub mod Reach
pub mod Kalloc
pub mod Pages
mod Tests
