-- ===== src/Nrf54l15/CoreSync/Barrier.antt =====
-- The barrier of platform/nrf54l15/shared/core_sync.c, once more after it has been released.
use micro_posix.Prelude.{
  ℕ, zero, suc, bit_and, bit_or, refl, ap, true, false, arith, ltb, leb, size_mod, ◌+◌, ◌-◌, ◌*◌,
  ◌%◌, ◌^◌, ◌<◌, ◌≡◌, ◌∙◌, ◌&&◌, ◌==◌, if◌then◌else◌,
}
use micro_posix.Run.{ret, ◌>>=◌}
use micro_posix.Nrf54l15.CoreSync.{
  all_cores, core_barrier_release, arrive, withdraw, wait_arrival, wait_release, core_barrier_wait,
  Shared, World,
}

-- The other core is not at the barrier.
abbrev pub IsAway : World → Type 0
IsAway world =
    (n : ℕ) (s : Shared)
    → ((world.pause n s).cores_arrived ≡ s.cores_arrived)
      × ((world.pause n s).cores_released ≡ s.cores_released)

arrived_again : (id : ℕ) → id < 2 → bit_or all_cores (2 ^ id) ≡ all_cores
arrived_again zero lt = refl
arrived_again (suc zero) lt = refl
arrived_again (suc (suc n)) lt = absurd (omega arith)

released_again : (id : ℕ) → id < 2 → (bit_and all_cores (2 ^ id) == 0) ≡ false
released_again zero lt = refl
released_again (suc zero) lt = refl
released_again (suc (suc n)) lt = absurd (omega arith)

arrival_again :
    (fuel : ℕ) (world : World) (timeout id : ℕ) (s : Shared)
    → (world.pause 0 s).cores_arrived ≡ all_cores
    → wait_arrival (suc fuel) world timeout id 0 s ≡ ret (true, world.pause 0 s)
unfolding wait_arrival
arrival_again fuel world timeout id s e =
    ap
      (λ (a : ℕ).
        if a == all_cores
        then ret (true, world.pause 0 s)
        else if ltb 0 timeout && leb timeout ((world.ticks 1 + size_mod - world.ticks 0) % size_mod)
        then ret (false, withdraw id (world.pause 1 (world.pause 0 s)))
        else wait_arrival fuel world timeout id 1 (world.pause 1 (world.pause 0 s)))
      e

release_again :
    (fuel : ℕ) (world : World) (id k : ℕ) (s : Shared)
    → id < 2
    → (world.pause k s).cores_released ≡ all_cores
    → wait_release (suc fuel) world id k s ≡ ret (true, world.pause k s)
unfolding wait_release
release_again fuel world id k s lt e =
    ap
      (λ (a : ℕ).
        if bit_and a (2 ^ id) == 0
        then wait_release fuel world id (suc k) (world.pause k s)
        else ret (true, world.pause k s))
      e
    ∙ rw (released_again id lt) refl

-- After both cores have arrived, `mp_hal_nrf54l15_core_barrier_release` leaves the barrier open for good:
-- a call of `mp_hal_nrf54l15_core_barrier_wait` on either core, with the other core away, returns true
-- in its first round.
pub core_barrier_wait-core_barrier_release :
    (fuel : ℕ) (world : World) (timeout id : ℕ) (s : Shared)
    → id < 2
    → IsAway world
    → s.cores_arrived ≡ all_cores
    → (s' : Shared) × (core_barrier_wait (suc fuel) world timeout id (core_barrier_release s)
        ≡ ret (true, s'))
unfolding core_barrier_wait core_barrier_release arrive
core_barrier_wait-core_barrier_release fuel world timeout id s lt away e =
    let s1 = arrive id (core_barrier_release s) in
    let s2 = world.pause 0 s1 in
    let k = 2 * suc fuel in
    let arrived : s2.cores_arrived ≡ all_cores =
      (away 0 s1).0 ∙ ap (λ (a : ℕ). bit_or a (2 ^ id)) e ∙ arrived_again id lt in
    let released : (world.pause k s2).cores_released ≡ all_cores = (away k s2).1 ∙ (away 0 s1).1 in
    (
      world.pause k s2,
      ap (λ m. m >>= λ (a, t). if a then wait_release (suc fuel) world id k t else ret (false, t))
            (arrival_again fuel world timeout id s1 arrived)
          ∙ release_again fuel world id k s2 lt released,
    )
