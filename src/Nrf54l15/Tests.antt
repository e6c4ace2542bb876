-- ===== src/Nrf54l15/Tests.antt =====
-- The theorems on the two cores at small states.
use micro_posix.Prelude.{ℕ, refl, true, false, [], arith, failed, ◌≤◌, ◌<◌, ◌≡◌, ◌⊎◌, ◌∷◌}
use micro_posix.Run.{ret, hang}
use micro_posix.Nrf54l15.Ipc.{
  Pauses, init, receive_blocking, receive_nonblocking, signal_core_ready, wait_for_other_core_ready,
  Ipc,
}
use micro_posix.Nrf54l15.Ipc.Mailbox.{blank, receive-blank}
use micro_posix.Nrf54l15.Ipc.Ready.{late, wait_for_other_core_ready-false}
use micro_posix.Nrf54l15.Ipc.Semaphores.{count_taken, count_taken_le, give, attempt}
use micro_posix.Nrf54l15.CoreSync.{
  core_barrier_release, core_rendezvous_init, core_barrier_wait, set_flag, set_data, Shared, World,
}
use micro_posix.Nrf54l15.SharedMemory.{cross_core_mutex_lock, SharedMutex, Around}
use micro_posix.Nrf54l15.SharedMemory.Starve.{cross_core_mutex_lock-hang}
use micro_posix.Nrf54l15.CoreSync.Meet.{
  Reach, seen, met, stores, publishes, sees, reads, clears_own, clears_other, start, first, second,
}
use micro_posix.Nrf54l15.CoreSync.Meet.Exchange.{MetWith, IsMet, Reach-MetWith}
use micro_posix.Nrf54l15.CoreSync.Barrier.{core_barrier_wait-core_barrier_release}
use micro_posix.Nrf54l15.Ipc.Ready.Calls.{Runs, done, calls, registers, initialises, signals}

-- A message of type 30 waits, and the mailbox for sending is full.
abbrev busy : Ipc
busy = record {
  sender = 30;
  receiver = 30;
  semaphore = λ id. 1;
  event_send = 0;
  event_receive = 0;
  core_start = 0;
  core_ready = λ id. false;
}

-- The other core takes a message out of the mailbox in every pause.
abbrev emptied : Pauses
emptied n s = record s { sender = 0 }

abbrev quiet : Pauses
quiet n s = s

receive-blank_example :
    (receive_nonblocking (blank 0) busy ≡ (failed, blank 30, busy))
    × (receive_blocking quiet (blank 0) busy ≡ (failed, blank 30, busy))
receive-blank_example = receive-blank quiet 0 busy (omega arith) (omega arith)

-- Core 0 initialises itself and says that it is ready; the other core empties the mailbox.
abbrev ready : Ipc
ready = signal_core_ready 0 emptied (init 0 (λ s. s) busy)

ready_run : Runs 0 busy ready
ready_run =
    calls (calls done (initialises (λ s. s) (λ t. done)))
      (signals emptied (λ n t. calls done (registers refl)))

wait_for_other_core_ready-false_example :
    (wait_for_other_core_ready 100 0 emptied (λ n. n) 0 ready ≡ hang)
    × ((wait_for_other_core_ready 100 0 emptied (λ n. n) 50 ready ≡ hang)
        ⊎ ((s' : Ipc) × (wait_for_other_core_ready 100 0 emptied (λ n. n) 50 ready
              ≡ ret (false, s'))))
    × ((n : ℕ)
        → n < 100
        → late (λ n. n) 50 n ≡ true
        → (s' : Ipc) × (wait_for_other_core_ready 100 0 emptied (λ n. n) 50 ready
            ≡ ret (false, s')))
wait_for_other_core_ready-false_example =
    wait_for_other_core_ready-false 100 0 emptied (λ n. n) 50 busy ready (λ core. refl) ready_run
      (λ n t. calls done (registers refl))

count_taken_le_example : count_taken (λ s. s) 2 (attempt ∷ give ∷ attempt ∷ attempt ∷ []) busy ≤ 2
count_taken_le_example =
    count_taken_le (λ s. s) 2 (attempt ∷ give ∷ attempt ∷ attempt ∷ []) busy (omega arith)
      (λ t. refl)

abbrev unused : Shared
unused = record { cores_arrived = 3; cores_released = 0; core_ready = λ id. 0; data_of = λ id. 0 }

-- Both cores test the other's flag before either clears one.
both_seen :
    Reach 10 20 seen seen
      (set_flag 1 1 (set_flag 0 1 (set_data 1 20 (set_data 0 10 (core_rendezvous_init unused)))))
unfolding set_flag set_data core_rendezvous_init
both_seen =
    second
      (first (second (first (second (first (start unused) stores) stores) publishes) publishes)
        (sees refl))
      (sees refl)

both_met : (s : Shared) × Reach 10 20 (met 20) (met 10) s
unfolding set_flag set_data core_rendezvous_init
both_met = (
  _,
  second
      (second (first (first (second (first both_seen reads) reads) clears_own) clears_other)
        clears_own)
      clears_other,
)

Reach-MetWith_example :
    (MetWith (met 20) 20 × MetWith (met 10) 10)
    × (IsMet (met 20) → both_met.0.core_ready 0 ≡ 0)
    × (IsMet (met 10) → both_met.0.core_ready 1 ≡ 0)
Reach-MetWith_example = Reach-MetWith 10 20 (met 20) (met 10) both_met.0 both_met.1

abbrev alone : World
alone = record { pause = λ n s. s; ticks = λ n. n }

core_barrier_wait-core_barrier_release_example :
    (s' : Shared) × (core_barrier_wait 5 alone 0 1 (core_barrier_release unused) ≡ ret (true, s'))
core_barrier_wait-core_barrier_release_example =
    core_barrier_wait-core_barrier_release 4 alone 0 1 unused (omega arith) (λ n s. (refl, refl))
      refl

-- Core 1 has the mutex, and keeps it.
abbrev locked_mutex : SharedMutex
locked_mutex = record {
  owner_core = 1;
  owner_thread = 7;
  recursion_count = 1;
  waiting_cores = 0;
  lock = record { locked = 0; owner_core = 2 };
}

abbrev still : Around
still = record {
  inside = λ n. record { pause = λ k m. m; ticks = λ k. k };
  between = λ k m. m;
  clock = λ k. k;
  spins = 1;
}

cross_core_mutex_lock-hang_example : cross_core_mutex_lock 100 still 10 0 3 locked_mutex ≡ hang
cross_core_mutex_lock-hang_example =
    cross_core_mutex_lock-hang 100 0 still 10 0 3 locked_mutex ((λ n k m h. h), (λ k m h. h)) refl
      (record { other = refl; held = refl; free = refl })
