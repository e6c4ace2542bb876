-- ===== src/Nrf54l15.antt =====
-- The two cores of the nRF54L15 and what they share: platform/nrf54l15/shared and
-- include/microposix/hal/nrf54l15/shared/ipc.h.
pub mod Ipc
pub mod CoreSync
pub mod SharedMemory
pub mod Registry
mod Tests
