-- ===== src/Nrf54l15/CoreSync/Meet.antt =====
-- Two cores that each call `mp_hal_nrf54l15_core_rendezvous` of platform/nrf54l15/shared/core_sync.c
-- once. A critical section masks the interrupts of its own core only, so the accesses to the shared
-- memory are the steps here, and those of the two cores come in any order;
-- each takes effect at once, in the order of the program.
pub mod Exchange
use micro_posix.Prelude.{ℕ, false, ◌≡◌, ◌==◌}
use micro_posix.Nrf54l15.CoreSync.{core_rendezvous_init, set_flag, set_data, Shared}

-- Where a core is in its call: in front of it, with its data stored, in the loop, behind the test of
-- the other's flag, with the other's data read, with its own flag cleared after that, returned with
-- the other's data, or returned after a timeout.
pub data Phase : Type 0 where
  outside : Phase
  stored : Phase
  waiting : Phase
  seen : Phase
  reading : (value : ℕ) → Phase
  cleared : (value : ℕ) → Phase
  met : (value : ℕ) → Phase
  left : Phase

-- An access of the call on the core `id` with the data `value`. A test that fails changes nothing, and
-- the timeout may come in any round.
pub data Act (id other value : ℕ) : Phase → Shared → Phase → Shared → Type 0 where
  stores : {s : Shared} → Act id other value outside s stored (set_data id value s)
  publishes : {s : Shared} → Act id other value stored s waiting (set_flag id 1 s)
  sees : {s : Shared} → (s.core_ready other == 0) ≡ false → Act id other value waiting s seen s
  reads : {s : Shared} → Act id other value seen s (reading (s.data_of other)) s
  clears_own : {s : Shared} {v : ℕ} → Act id other value (reading v) s (cleared v) (set_flag id 0 s)
  clears_other :
      {s : Shared} {v : ℕ} → Act id other value (cleared v) s (met v) (set_flag other 0 s)
  leaves : {s : Shared} → Act id other value waiting s left (set_flag id 0 s)

-- Any interleaving of the accesses of the two calls, on a rendezvous just initialised.
pub data Reach (value0 value1 : ℕ) : Phase → Phase → Shared → Type 0 where
  start : (s : Shared) → Reach value0 value1 outside outside (core_rendezvous_init s)
  first :
      {p p' q : Phase} {s s' : Shared}
      → Reach value0 value1 p q s
      → Act 0 1 value0 p s p' s'
      → Reach value0 value1 p' q s'
  second :
      {p q q' : Phase} {s s' : Shared}
      → Reach value0 value1 p q s
      → Act 1 0 value1 q s q' s'
      → Reach value0 value1 p q' s'
