-- ===== src/Kernel.antt =====
-- The kernel: src/kernel and include/microposix/kernel.
pub mod Mq
pub mod Sched
pub mod Thread
pub mod Ipc
pub mod Timer
pub mod Watchdog
mod Tests
