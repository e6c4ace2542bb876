-- ===== src/Nrf54l15/SharedMemory.antt =====
-- platform/nrf54l15/shared/shared_memory.c: the spinlocks, the mutexes and the registry of threads in
-- the memory of both cores. `id` is what `mp_hal_nrf54l15_get_core_id` gives on the calling core, and
-- `thread` its thread's identifier. Code that does not hold the spinlock of a mutex leaves the mutex
-- alone, but for the lock itself; the pauses stand where the caller does not hold it.
pub mod Starve
use micro_posix.Prelude.{
  ℕ, zero, suc, bit_and, bit_or, bit_xor, Bool, true, false, not, ltb, leb, size_mod, ◌+◌, ◌-◌, ◌%◌,
  ◌^◌, ◌&&◌, ◌==◌, if◌then◌else◌,
}
use micro_posix.Run.{Run, ret, hang, ◌>>=◌}

-- CORE_ID_COUNT, which stands for no core.
abbrev pub no_core : ℕ
no_core = 2

-- `shared_spinlock_t`
pub record Spinlock : Type 0 where
  pub locked : ℕ
  pub owner_core : ℕ

-- `shared_mutex_t`
pub record SharedMutex : Type 0 where
  pub owner_core : ℕ
  pub owner_thread : ℕ
  pub recursion_count : ℕ
  pub waiting_cores : ℕ
  pub lock : Spinlock

-- What the other code does in the n-th pause of a loop, and what the n-th call of `mp_hal_get_ticks` in
-- the function gives.
pub record World : Type 0 where
  pub pause : ℕ → SharedMutex → SharedMutex
  pub ticks : ℕ → ℕ

abbrev timed_out : (ticks : ℕ → ℕ) (timeout k : ℕ) → Bool
timed_out ticks timeout k =
    ltb 0 timeout && leb timeout ((ticks (suc k) + size_mod - ticks 0) % size_mod)

abbrev pub taken : (id : ℕ) → Spinlock
taken id = record { locked = 1; owner_core = id }

-- The lock here and below is that of a mutex.
unfoldable pub spinlock_try_acquire : (id : ℕ) → SharedMutex → Bool × SharedMutex
spinlock_try_acquire id m =
    if m.lock.locked == 0 then (true, record m { lock = taken id }) else (false, m)

-- The loop from round `k` on, each with a pause in front of it.
unfoldable pub acquire_rounds :
    (fuel : ℕ) → World → (timeout id k : ℕ) → SharedMutex → Run (Bool × SharedMutex)
acquire_rounds zero world timeout id k m = hang
acquire_rounds (suc fuel) world timeout id k m =
    let m1 = world.pause k m in
    let rest = acquire_rounds fuel world timeout id (suc k) m1 in
    if m1.lock.locked == 0
    then ret (true, record m1 { lock = taken id })
    else if timed_out world.ticks timeout k
    then ret (false, m1)
    else rest

unfoldable pub spinlock_acquire :
    (fuel : ℕ) → World → (timeout id : ℕ) → SharedMutex → Run (Bool × SharedMutex)
spinlock_acquire fuel world timeout id m = acquire_rounds fuel world timeout id 0 m

unfoldable pub spinlock_release : (id : ℕ) → SharedMutex → SharedMutex
spinlock_release id m =
    if m.lock.owner_core == id && not (m.lock.locked == 0)
    then record m { lock = record { locked = 0; owner_core = no_core } }
    else m

abbrev pub owns : (id thread : ℕ) → SharedMutex → Bool
owns id thread m = m.owner_core == id && m.owner_thread == thread

abbrev take_mutex : (id thread : ℕ) → SharedMutex → SharedMutex
take_mutex id thread m = record m { owner_core = id; owner_thread = thread; recursion_count = 1 }

abbrev stop_waiting : (id : ℕ) → SharedMutex → SharedMutex
stop_waiting id m = record m {
  waiting_cores = bit_and m.waiting_cores (bit_xor (size_mod - 1) (2 ^ id));
}

-- What happens around one call of `mp_hal_nrf54l15_cross_core_mutex_lock`: `inside` in its n-th call of
-- the spinlock's functions, `between` in the yield of round n; `clock 0` is what `mp_hal_get_ticks` gives
-- at the start, `clock (n + 1)` what a call in round n gives, and `spins` the fuel of each of the
-- spinlock's loops.
pub record Around : Type 0 where
  pub inside : ℕ → World
  pub between : ℕ → SharedMutex → SharedMutex
  pub clock : ℕ → ℕ
  pub spins : ℕ

-- The loop that waits for the mutex.
unfoldable pub lock_rounds :
    (fuel : ℕ) → Around → (timeout id thread k : ℕ) → SharedMutex → Run (Bool × SharedMutex)
lock_rounds zero a timeout id thread k m = hang
lock_rounds (suc fuel) a timeout id thread k m =
    spinlock_acquire a.spins (a.inside (suc k)) 100 id m >>= λ (acquired, m1).
    let again = lock_rounds fuel a timeout id thread (suc k) m1 in
    let later =
      lock_rounds fuel a timeout id thread (suc k) (a.between k (spinlock_release id m1)) in
    if acquired
    then (if m1.owner_core == no_core
        then ret (true, spinlock_release id (stop_waiting id (take_mutex id thread m1)))
        else later)
    else if timed_out a.clock timeout k
    then ret (false, spinlock_release id (stop_waiting id m1))
    else again

unfoldable pub cross_core_mutex_lock :
    (fuel : ℕ) → Around → (timeout id thread : ℕ) → SharedMutex → Run (Bool × SharedMutex)
cross_core_mutex_lock fuel a timeout id thread m =
    spinlock_acquire a.spins (a.inside 0) timeout id m >>= λ (acquired, m1).
    let recursive = record m1 { recursion_count = (m1.recursion_count + 1) % size_mod } in
    let waiting = record m1 { waiting_cores = bit_or m1.waiting_cores (2 ^ id) } in
    let wait = lock_rounds fuel a timeout id thread 0 (spinlock_release id waiting) in
    if not acquired
    then ret (false, m1)
    else if owns id thread m1
    then ret (true, spinlock_release id recursive)
    else if m1.owner_core == no_core
    then ret (true, spinlock_release id (take_mutex id thread m1))
    else wait

unfoldable pub cross_core_mutex_unlock :
    (fuel : ℕ) → World → (id thread : ℕ) → SharedMutex → Run SharedMutex
cross_core_mutex_unlock fuel world id thread m =
    spinlock_acquire fuel world 0 id m >>= λ (acquired, m1).
    let lowered = record m1 { recursion_count = m1.recursion_count - 1 } in
    let freed = record m1 { owner_core = no_core; owner_thread = 0; recursion_count = 0 } in
    ret (
      spinlock_release id
        (if owns id thread m1 then (if ltb 1 m1.recursion_count then lowered else freed) else m1))
