-- ===== src/Kernel/Ipc.antt =====
-- src/kernel/ipc.c: mutexes and semaphores, with the types of include/microposix/kernel/ipc.h. A
-- function returns 0 or -1 beside the new states; `none` means that it does not return: the fuel of the
-- ready list's walk ran out, or a null current thread is dereferenced.
pub mod Recursive
pub mod Blocked
use micro_posix.Prelude.{
  ℕ, Bool, true, false, not, Option, none, some, ltb, size_mod, Status, ok, failed, ◌+◌, ◌-◌, ◌%◌,
  ◌==◌, if◌then◌else◌,
}
use micro_posix.Kernel.Sched.{set_tcb, ptr_eq, reschedule, Sched, blocked}
use mathlib.Core.Option

-- `mp_mutex_t`; `count` is a uint8_t.
pub record Mutex : Type 0 where
  pub owner : Option ℕ
  pub waiting_list : Option ℕ
  pub count : ℕ
  pub priority_inheritance : Bool

-- `mp_sem_t`; `count` is a uint32_t.
pub record Sem : Type 0 where
  pub count : ℕ
  pub waiting_list : Option ℕ

-- `allocated` says whether `malloc` gave memory for the mutex.
pub mutex_init : (allocated : Bool) → Status × Option Mutex
mutex_init true = (
  ok,
  some (record { owner = none; waiting_list = none; count = 0; priority_inheritance = true }),
)
mutex_init false = (failed, none)

-- `current->state = MP_THREAD_BLOCKED; mp_sched_reschedule();` A null `current` is a fault.
unfoldable pub block_current : (fuel : ℕ) → Option ℕ → Sched → Option Sched
block_current fuel none s = none
block_current fuel (some c) s = reschedule fuel (set_tcb s c (record (s.tcb c) { state = blocked }))

unfoldable pub mutex_lock : (fuel : ℕ) → Mutex → Sched → Option (Status × Mutex × Sched)
mutex_lock fuel m s =
    if ptr_eq m.owner none
    then some (ok, record m { owner = s.current_thread; count = 1 }, s)
    else if ptr_eq m.owner s.current_thread
    then some (ok, record m { count = (m.count + 1) % 256 }, s)
    else Option.map (λ s'. (ok, m, s')) (block_current fuel s.current_thread s)

-- `m->count--` in a uint8_t.
abbrev pub count_down : ℕ → ℕ
count_down n = (n + 255) % 256

unfoldable pub mutex_unlock : (fuel : ℕ) → Mutex → Sched → Option (Status × Mutex × Sched)
mutex_unlock fuel m s =
    if not (ptr_eq m.owner s.current_thread)
    then some (failed, m, s)
    else if count_down m.count == 0
    then Option.map (λ s'. (ok, record m { count = 0; owner = none }, s')) (reschedule fuel s)
    else some (ok, record m { count = count_down m.count }, s)

pub sem_init : ℕ → Sem
sem_init value = record { count = value; waiting_list = none }

unfoldable pub sem_wait : (fuel : ℕ) → Sem → Sched → Option (Sem × Sched)
sem_wait fuel sem s =
    if ltb 0 sem.count
    then some (record sem { count = sem.count - 1 }, s)
    else Option.map (λ s'. (sem, s')) (block_current fuel s.current_thread s)

unfoldable pub sem_post : (fuel : ℕ) → Sem → Sched → Option (Sem × Sched)
sem_post fuel sem s =
    Option.map (λ s'. (record sem { count = (sem.count + 1) % size_mod }, s')) (reschedule fuel s)
