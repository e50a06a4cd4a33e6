-- ===== src/Signal.antt =====
-- os/signal of the kernel: signals, their delivery, and the system calls on them.
pub mod Set
pub mod Memory
pub mod State
pub mod Frame
pub mod Deliver
pub mod Syscalls
pub mod Send
pub mod Return
pub mod Tests
