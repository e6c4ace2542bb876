-- ===== src/Nrf54l15/SharedMemory/Starve.antt =====
-- How long a lock of a mutex of platform/nrf54l15/shared/shared_memory.c waits.
use micro_posix.Prelude.{
  ℕ, zero, suc, bit_or, refl, true, false, arith, ==_iff, ==-refl, ◌^◌, ◌≡◌, ◌∙◌, ◌==◌,
}
use micro_posix.Run.{ret, hang}
use micro_posix.Nrf54l15.SharedMemory.{
  no_core, taken, acquire_rounds, spinlock_acquire, spinlock_release, owns, lock_rounds,
  cross_core_mutex_lock, SharedMutex, World, Around,
}

-- Another thread has the mutex, and its spinlock is free.
pub record IsHeld (id thread : ℕ) (m : SharedMutex) : Type 0 where
  pub other : owns id thread m ≡ false
  pub held : (m.owner_core == no_core) ≡ false
  pub free : m.lock.locked ≡ 0

abbrev pub KeepHeld : (id thread : ℕ) → Around → Type 0
KeepHeld id thread a =
    ((n k : ℕ) (m : SharedMutex) → IsHeld id thread m → IsHeld id thread ((a.inside n).pause k m))
    × ((k : ℕ) (m : SharedMutex) → IsHeld id thread m → IsHeld id thread (a.between k m))

acquire_free :
    (fuel spins : ℕ) (world : World) (timeout id : ℕ) (m : SharedMutex)
    → fuel ≡ suc spins
    → (world.pause 0 m).lock.locked ≡ 0
    → spinlock_acquire fuel world timeout id m
      ≡ ret (true, record (world.pause 0 m) { lock = taken id })
unfolding spinlock_acquire acquire_rounds
acquire_free zero spins world timeout id m f e = absurd (omega arith)
acquire_free (suc fuel) spins world timeout id m f e =
    rw ((==_iff (world.pause 0 m).lock.locked 0).1 e) refl

release_taken :
    (id : ℕ) (m : SharedMutex)
    → spinlock_release id (record m { lock = taken id })
      ≡ record m { lock = record { locked = 0; owner_core = no_core } }
unfolding spinlock_release
release_taken id m = rw (==-refl id) refl

-- One round on a mutex that is held: the spinlock is taken and given back.
lock_round :
    (fuel spins : ℕ) (a : Around) (timeout id thread k : ℕ) (m : SharedMutex)
    → KeepHeld id thread a
    → a.spins ≡ suc spins
    → IsHeld id thread m
    → (m' : SharedMutex) × (lock_rounds (suc fuel) a timeout id thread k m
        ≡ lock_rounds fuel a timeout id thread (suc k) m')
      × IsHeld id thread m'
unfolding lock_rounds
lock_round fuel spins a timeout id thread k m (inside, between) e h =
    let m1 = (a.inside (suc k)).pause 0 m in
    let h1 = inside (suc k) 0 m h in
    let released = record m1 { lock = record { locked = 0; owner_core = no_core } } in
    (
      a.between k released,
      rw
          (
            acquire_free a.spins spins (a.inside (suc k)) 100 id m e h1.free,
            h1.held,
            release_taken id m1,
          )
          refl,
      between k released (record { other = h1.other; held = h1.held; free = refl }),
    )

lock_rounds-hang :
    (fuel spins : ℕ) (a : Around) (timeout id thread k : ℕ) (m : SharedMutex)
    → KeepHeld id thread a
    → a.spins ≡ suc spins
    → IsHeld id thread m
    → lock_rounds fuel a timeout id thread k m ≡ hang
unfolding lock_rounds
lock_rounds-hang zero spins a timeout id thread k m keep e h = refl
lock_rounds-hang (suc fuel) spins a timeout id thread k m keep e h =
    let (m', next, h') = lock_round fuel spins a timeout id thread k m keep e h in
    next ∙ lock_rounds-hang fuel spins a timeout id thread (suc k) m' keep e h'

-- While another thread has the mutex, and its spinlock is free whenever the caller asks for it,
-- `mp_hal_nrf54l15_cross_core_mutex_lock` does not end, whatever its timeout and the ticks are: no fuel
-- is enough.
pub cross_core_mutex_lock-hang :
    (fuel spins : ℕ) (a : Around) (timeout id thread : ℕ) (m : SharedMutex)
    → KeepHeld id thread a
    → a.spins ≡ suc spins
    → IsHeld id thread m
    → cross_core_mutex_lock fuel a timeout id thread m ≡ hang
unfolding cross_core_mutex_lock
cross_core_mutex_lock-hang fuel spins a timeout id thread m (inside, between) e h =
    let m1 = (a.inside 0).pause 0 m in
    let h1 = inside 0 0 m h in
    let waiting = record m1 {
      waiting_cores = bit_or m1.waiting_cores (2 ^ id);
      lock = record { locked = 0; owner_core = no_core };
    } in
    rw
      (
        acquire_free a.spins spins (a.inside 0) timeout id m e h1.free,
        h1.other,
        h1.held,
        release_taken id (record m1 { waiting_cores = bit_or m1.waiting_cores (2 ^ id) }),
      )
      (lock_rounds-hang fuel spins a timeout id thread 0 waiting (inside, between) e
        (record { other = h1.other; held = h1.held; free = refl }))
