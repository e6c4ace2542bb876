-- ===== src/Nrf54l15/CoreSync.antt =====
-- platform/nrf54l15/shared/core_sync.c: the barrier and the rendezvous of the two cores, in the memory
-- that both see. `id` is what `mp_hal_nrf54l15_get_core_id` gives on the calling core. A pause is what
-- the other core does between two critical sections of this one.
pub mod Meet
pub mod Barrier
use micro_posix.Prelude.{
  ℕ, zero, suc, bit_and, bit_or, bit_xor, Bool, true, false, Option, none, some, ltb, leb, size_mod,
  ◌+◌, ◌-◌, ◌*◌, ◌%◌, ◌^◌, ◌&&◌, ◌==◌, if◌then◌else◌,
}
use micro_posix.Run.{Run, ret, hang, ◌>>=◌}
use micro_posix.Nrf54l15.Ipc.{put, Pauses, signal_core_ready, wait_for_other_core_ready, Ipc}

-- `core_barrier` and `core_rendezvous`
pub record Shared : Type 0 where
  pub cores_arrived : ℕ
  pub cores_released : ℕ
  pub core_ready : ℕ → ℕ
  pub data_of : ℕ → ℕ

-- `(1 << CORE_ID_COUNT) - 1`
abbrev pub all_cores : ℕ
all_cores = 3

-- `mp_hal_nrf54l15_get_other_core_id` on the core.
abbrev pub other_core : (id : ℕ) → ℕ
other_core id = if id == 0 then 1 else 0

unfoldable pub core_barrier_init : Shared → Shared
core_barrier_init s = record s { cores_arrived = 0; cores_released = 0 }

unfoldable pub core_barrier_release : Shared → Shared
core_barrier_release s = record s { cores_released = all_cores }

unfoldable pub core_rendezvous_init : Shared → Shared
core_rendezvous_init s = record s {
  core_ready = put (put s.core_ready 0 0) 1 0;
  data_of = put (put s.data_of 0 0) 1 0;
}

unfoldable pub core_sync_init : Shared → Shared
core_sync_init s = core_rendezvous_init (core_barrier_init s)

-- What the other core does in the n-th pause, and what the n-th call of `mp_hal_get_ticks` gives.
pub record World : Type 0 where
  pub pause : ℕ → Shared → Shared
  pub ticks : ℕ → ℕ

-- The test of the timeout in round `k`; call 0 gives the start.
abbrev timed_out : World → (timeout k : ℕ) → Bool
timed_out world timeout k =
    ltb 0 timeout && leb timeout ((world.ticks (suc k) + size_mod - world.ticks 0) % size_mod)

unfoldable pub arrive : (id : ℕ) → Shared → Shared
arrive id s = record s { cores_arrived = bit_or s.cores_arrived (2 ^ id) }

unfoldable pub withdraw : (id : ℕ) → Shared → Shared
withdraw id s = record s {
  cores_arrived = bit_and s.cores_arrived (bit_xor (size_mod - 1) (2 ^ id));
}

-- The first loop, from round `k` on; each round has a pause in front of it, and one behind its test.
-- The first part of the result is false after a timeout.
unfoldable pub wait_arrival : (fuel : ℕ) → World → (timeout id k : ℕ) → Shared → Run (Bool × Shared)
wait_arrival zero world timeout id k s = hang
wait_arrival (suc fuel) world timeout id k s =
    let s1 = world.pause (2 * k) s in
    let s2 = world.pause (2 * k + 1) s1 in
    let rest = wait_arrival fuel world timeout id (suc k) s2 in
    if s1.cores_arrived == all_cores
    then ret (true, s1)
    else if timed_out world timeout k
    then ret (false, withdraw id s2)
    else rest

-- The second loop; its pauses are counted from `k` on.
unfoldable pub wait_release : (fuel : ℕ) → World → (id k : ℕ) → Shared → Run (Bool × Shared)
wait_release zero world id k s = hang
wait_release (suc fuel) world id k s =
    let s1 = world.pause k s in
    let rest = wait_release fuel world id (suc k) s1 in
    if bit_and s1.cores_released (2 ^ id) == 0 then rest else ret (true, s1)

-- `fuel` is for each of the loops; the pauses of the second loop stand behind all of the first.
unfoldable pub core_barrier_wait :
    (fuel : ℕ) → World → (timeout id : ℕ) → Shared → Run (Bool × Shared)
core_barrier_wait fuel world timeout id s =
    wait_arrival fuel world timeout id 0 (arrive id s) >>= λ (arrived, s1).
    if arrived then wait_release fuel world id (2 * fuel) s1 else ret (false, s1)

-- `core_rendezvous.core_ready[id] = flag` and `core_rendezvous.data[id] = value`
unfoldable pub set_flag : (id flag : ℕ) → Shared → Shared
set_flag id flag s = record s { core_ready = put s.core_ready id flag }

unfoldable pub set_data : (id value : ℕ) → Shared → Shared
set_data id value s = record s { data_of = put s.data_of id value }

-- The three critical sections of `mp_hal_nrf54l15_core_rendezvous`, when the other core makes no
-- access in one.
unfoldable pub publish : (id value : ℕ) → Shared → Shared
publish id value s = set_flag id 1 (set_data id value s)

unfoldable pub try_meet : (id : ℕ) → Shared → Option (ℕ × Shared)
try_meet id s =
    if s.core_ready (other_core id) == 0
    then none
    else some (s.data_of (other_core id), set_flag (other_core id) 0 (set_flag id 0 s))

unfoldable pub give_up : (id : ℕ) → Shared → Shared
give_up id s = set_flag id 0 s

unfoldable pub wait_meeting : (fuel : ℕ) → World → (timeout id k : ℕ) → Shared → Run (ℕ × Shared)
wait_meeting zero world timeout id k s = hang
wait_meeting (suc fuel) world timeout id k s =
    let s1 = world.pause (2 * k) s in
    let s2 = world.pause (2 * k + 1) s1 in
    let rest = wait_meeting fuel world timeout id (suc k) s2 in
    elim (try_meet id s1) [
      | some met ↦ ret met
      | none ↦ if timed_out world timeout k then ret (0, give_up id s2) else rest
    ]

unfoldable pub core_rendezvous :
    (fuel : ℕ) → World → (value timeout id : ℕ) → Shared → Run (ℕ × Shared)
core_rendezvous fuel world value timeout id s =
    wait_meeting fuel world timeout id 0 (publish id value s)

-- The handshake is on the state of ipc.c; `wait` is its call of
-- `mp_hal_nrf54l15_wait_for_other_core_ready` in round `k`, and `pauses` its yields.
unfoldable pub handshake_rounds :
    (fuel : ℕ)
    → (wait : ℕ → Ipc → Run (Bool × Ipc)) → Pauses
    → (ticks : ℕ → ℕ) (timeout k : ℕ) → Ipc
    → Run (Bool × Ipc)
handshake_rounds zero wait pauses ticks timeout k s = hang
handshake_rounds (suc fuel) wait pauses ticks timeout k s = wait k s >>= λ (ready, s1).
    let rest = handshake_rounds fuel wait pauses ticks timeout (suc k) (pauses k s1) in
    let elapsed = (ticks (suc k) + size_mod - ticks 0) % size_mod in
    if ready
    then ret (true, s1)
    else if ltb 0 timeout && leb timeout elapsed
    then ret (false, s1)
    else rest

-- `inner` is the fuel of each wait, and `clock` what the calls of `mp_hal_get_ticks` inside it give.
unfoldable pub core_handshake :
    (fuel inner id : ℕ)
    → Pauses
    → (clock : ℕ → ℕ → ℕ) (ticks : ℕ → ℕ) (timeout : ℕ) → Ipc
    → Run (Bool × Ipc)
core_handshake fuel inner id pauses clock ticks timeout s =
    handshake_rounds fuel (λ k. wait_for_other_core_ready inner id pauses (clock k) timeout) pauses
      ticks timeout 0 (signal_core_ready id pauses s)
