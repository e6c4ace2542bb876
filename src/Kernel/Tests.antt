-- ===== src/Kernel/Tests.antt =====
-- The kernel's theorems at two threads: 1, ready, with priority 5, and 2, asleep for two ticks, with
-- priority 3.
use micro_posix.Prelude.{
  ℕ, zero, suc, refl, Bool, true, false, Option, none, some, List, [], arith, ok, ◌+◌, ◌*◌, ◌≤◌,
  ◌≡◌, ◌≢◌, ◌∷◌, ◌==◌, if◌then◌else◌,
}
use micro_posix.Prelude.Chain.{IsChain, has, IsDistinct, walk}
use micro_posix.Kernel.Sched.{
  update, set_tcb, next, no_sleeper, calculate_sleep, reschedule, tick, Tcb, Sched, ready, blocked,
  sleeping, started,
}
use micro_posix.Kernel.Sched.Pick.{switch_to, reschedule-IsPick, IsPick}
use micro_posix.Kernel.Sched.Tick.{ticked_at, tick_lem}
use micro_posix.Kernel.Sched.Wake.{ticks, Slept}
use micro_posix.Kernel.Sched.Idle.{IsLeast, calculate_sleep-IsLeast}
use micro_posix.Kernel.Thread.{slot, find_free, place, create, sleep, Threads, Platform}
use micro_posix.Kernel.Thread.Create.{create-IsLinked, IsLinked}
use micro_posix.Kernel.Thread.Sleep.{sleep-Slept}
use micro_posix.Kernel.Thread.Leak.{calls, created, calls-created, creating, exiting}
use micro_posix.Kernel.Ipc.{mutex_unlock, sem_post, Mutex}
use micro_posix.Kernel.Ipc.Recursive.{
  locks, unlocks, held, counting_up, counting_down, unlocks-locks, unlock-wrapped,
}
use micro_posix.Kernel.Ipc.Blocked.{Reach-IsBlocked, Kernel, posts, here, next_step}
use micro_posix.Kernel.Sched.Blocked.{IsBlocked}

abbrev idle_tcb : Tcb
idle_tcb = record {
  stack_ptr = 0;
  stack_base = 0;
  stack_size = 0;
  id = 0;
  name = [];
  priority = 0;
  state = ready;
  sleep_ticks = 0;
  cpu_cycles = 0;
  context_switches = 0;
  stack_hwm = 0;
  heap_bytes = 0;
  link = none;
}

abbrev tcbs : ℕ → Tcb
tcbs (suc zero) = record idle_tcb { priority = 5; link = some 2 }
tcbs (suc (suc zero)) = record idle_tcb { priority = 3; state = sleeping; sleep_ticks = 2 }
tcbs _ = idle_tcb

abbrev two : Sched
two = record {
  tcb = tcbs;
  current_thread = some 1;
  next_thread = none;
  ready_list = some 1;
  sched_state = started;
  monotonic_ms = 7;
}

abbrev ids : List ℕ
ids = 1 ∷ 2 ∷ []

-- No stack holds the fill byte.
abbrev cleared : ℕ → ℕ
cleared a = 0

ids-IsDistinct : IsDistinct ids
ids-IsDistinct = (refl, (refl, record {}))

two-IsChain : IsChain (next two) two.ready_list ids
two-IsChain = (refl, (refl, refl))

reschedule-IsPick_example :
    (best : Option ℕ) × (reschedule 2 two ≡ some (switch_to two best)) × IsPick tcbs ids best
reschedule-IsPick_example = reschedule-IsPick 2 two ids (omega arith) ids-IsDistinct two-IsChain

tick_lem_example :
    (best : Option ℕ) × (tick 2 cleared two ≡ some (switch_to (ticked_at cleared ids two) best))
    × IsPick (ticked_at cleared ids two).tcb ids best
    × IsChain (next (ticked_at cleared ids two)) two.ready_list ids
tick_lem_example = tick_lem 2 cleared two ids (omega arith) ids-IsDistinct two-IsChain

calculate_sleep-IsLeast_example :
    (m : ℕ) × (calculate_sleep 2 two ≡ some (if m == no_sleeper then 0 else m)) × IsLeast tcbs ids m
calculate_sleep-IsLeast_example =
    calculate_sleep-IsLeast 2 two ids (omega arith) ids-IsDistinct two-IsChain

-- Slots 0 and 1 of three are in use.
abbrev used : ℕ → Bool
used zero = true
used (suc zero) = true
used _ = false

abbrev threads : Threads
threads = record { sched = two; used = used; next_thread_id = 3 }

abbrev platform : Platform
platform = record {
  print_name = λ id. id ∷ [];
  stack_address = λ i. 4096 * (i + 1);
  max_threads = 3;
}

threads-IsLinked : IsLinked threads ids
threads-IsLinked = record { chain = two-IsChain; distinct = ids-IsDistinct; slots = slots }
  where
    slots : (i : ℕ) → has (slot i) ids ≡ true → used i ≡ true
    slots zero e = refl
    slots (suc zero) e = refl
    slots (suc (suc i)) e = ground arith

create-IsLinked_example :
    (t' : Threads) × (create 3 platform none threads ≡ some (3, t'))
    × IsLinked t' (3 ∷ ids)
    × (t'.used ≡ update used 2 true)
    × ((t'.sched.tcb 3).state ≡ ready)
    × ((t'.sched.tcb 3).priority ≡ 1)
    × ((a : ℕ) → a ≢ 3 → t'.sched.tcb a ≡ tcbs a)
    × ((best : Option ℕ) × IsPick t'.sched.tcb (3 ∷ ids) best
        × (t'.sched ≡ switch_to (place platform 2 none threads).sched best))
unfolding find_free
create-IsLinked_example =
    create-IsLinked 3 2 platform none threads ids (omega arith) found threads-IsLinked
  where
    found : find_free used 3 0 ≡ some 2
    found = refl

sleep-Slept_example :
    (t' : Threads) × (sleep 2 4 threads ≡ some t')
    × IsLinked t' ids
    × ((s : Sched) × (ticks 2 (cleared ∷ []) t'.sched ≡ some s) × Slept 4 1 (s.tcb 1))
sleep-Slept_example =
    sleep-Slept 2 4 1 threads ids (cleared ∷ []) (omega arith) threads-IsLinked refl refl

-- One slot is free, so of two creations one fails, although a thread exits between them.
calls-created_example :
    (ids' : List ℕ) × (t' : Threads) × (ys : List ℕ) × (calls 3 platform
        (creating none ∷ exiting ∷ creating none ∷ [])
        threads
      ≡ some (ids', t'))
    × IsLinked t' ys
    × (created ids' ≤ 1)
calls-created_example =
    calls-created 3 platform (creating none ∷ exiting ∷ creating none ∷ []) threads ids
      threads-IsLinked (omega arith)

abbrev mutex : Mutex
mutex = record { owner = none; waiting_list = none; count = 0; priority_inheritance = true }

unlocks-locks_example :
    (locks 2 3 mutex two ≡ some (counting_up mutex 1 0 3, held mutex 1 3, two))
    × (unlocks 2 3 (held mutex 1 3) two ≡ some (counting_down mutex 1 2, mutex, two))
unfolding reschedule walk
unlocks-locks_example = unlocks-locks 2 1 2 mutex two two refl refl (omega arith) chosen
  where
    chosen : reschedule 2 two ≡ some two
    chosen = refl

unlock-wrapped_example :
    (locks 2 256 mutex two ≡ some (counting_up mutex 1 0 256, held mutex 1 0, two))
    × (mutex_unlock 2 (held mutex 1 0) two ≡ some (ok, held mutex 1 255, two))
unlock-wrapped_example = unlock-wrapped 2 1 mutex two refl refl

-- Thread 2 is blocked on the semaphore, and thread 1 posts.
abbrev waiting : Kernel
waiting = record {
  sched = set_tcb two 2 (record idle_tcb { state = blocked });
  mutex = mutex;
  sem = record { count = 0; waiting_list = none };
}

abbrev posted : Kernel
posted = record waiting { sem = record { count = 1; waiting_list = none } }

Reach-IsBlocked_example : IsBlocked 2 posted.sched
unfolding sem_post reschedule walk
Reach-IsBlocked_example =
    Reach-IsBlocked 2 2 {k = waiting} {k' = posted}
      (next_step here (posts posted.sem posted.sched refl refl)) refl
