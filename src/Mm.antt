-- ===== src/Mm.antt =====
-- Memory management: src/mm and include/microposix/mm.
pub mod View
pub mod Arena
pub mod Pool
pub mod Gc
pub mod SharedHeap
pub mod Tlsf
mod Tests
