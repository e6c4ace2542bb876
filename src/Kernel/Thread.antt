-- ===== src/Kernel/Thread.antt =====
-- src/kernel/thread.c: the pool of thread control blocks, and the calls that the current thread
-- makes. The control block in slot `i` of `tcb_pool` is named `i + 1`; 0 names the idle thread of
-- scheduler.c. `fuel` bounds the walks of the ready list.
pub mod Create
pub mod Leak
pub mod Sleep
use micro_posix.Prelude.{
  ℕ, zero, suc, Bool, true, Option, none, some, List, size_mod, take, drop, replicate, ◌+◌, ◌%◌,
  ◌++◌, if◌then◌else◌,
}
use micro_posix.Kernel.Sched.{
  update, set_tcb, reschedule, add_thread, Tcb, Sched, ready, sleeping, terminated,
}
use mathlib.Core.Option

-- `mp_thread_attr_t`; the name is null or a string without its final 0.
pub record Attr : Type 0 where
  pub stack_size : ℕ
  pub priority : ℕ
  pub name : Option (List ℕ)

-- The static variables of thread.c beside those of scheduler.c.
pub record Threads : Type 0 where
  pub sched : Sched
  pub used : ℕ → Bool
  pub next_thread_id : ℕ

-- What the C library, the linker and the build give: the text that `snprintf` writes for
-- `thread_%d`, the address of each `thread_stacks[i]`, and MAX_THREADS.
pub record Platform : Type 0 where
  pub print_name : ℕ → List ℕ
  pub stack_address : ℕ → ℕ
  pub max_threads : ℕ

abbrev pub default_stack_size : ℕ
default_stack_size = 1024

abbrev pub slot : ℕ → ℕ
slot i = suc i

-- The search for a free control block, from slot `i` on with `n` slots to go.
unfoldable pub find_free : (ℕ → Bool) → (n i : ℕ) → Option ℕ
find_free used zero i = none
find_free used (suc n) i = if used i then find_free used n (i + 1) else some i

-- `strncpy` of at most 15 characters, which pads with zeros, into the 16 bytes of `name`.
copy_name : (old src : List ℕ) → List ℕ
copy_name old src = take 15 (src ++ replicate 15 0) ++ drop 15 old

abbrev pub attr_name : Option Attr → Option (List ℕ)
attr_name none = none
attr_name (some a) = a.name

abbrev pub attr_priority : Option Attr → ℕ
attr_priority none = 1
attr_priority (some a) = a.priority

abbrev pub attr_stack_size : Option Attr → ℕ
attr_stack_size none = default_stack_size
attr_stack_size (some a) = a.stack_size

tcb_name : Platform → (old : List ℕ) → Option (List ℕ) → (id : ℕ) → List ℕ
unfolding copy_name
tcb_name p old none id = p.print_name id
tcb_name p old (some src) id = copy_name old src

-- The control block that `mp_thread_create` fills in. The fields that it does not name keep what
-- they held.
pub new_tcb : Platform → (idx id : ℕ) → Option Attr → Tcb → Tcb
unfolding tcb_name
new_tcb p idx id attr old = record old {
  id = id;
  name = tcb_name p old.name (attr_name attr) id;
  priority = attr_priority attr;
  state = ready;
  stack_size = attr_stack_size attr;
  stack_base = p.stack_address idx;
  stack_ptr = p.stack_address idx + 4092;
}

-- What `mp_thread_create` does up to the call of `mp_sched_reschedule`.
pub place : Platform → ℕ → Option Attr → Threads → Threads
unfolding new_tcb
place p idx attr t = record {
  sched =
      add_thread
        (set_tcb t.sched (slot idx) (new_tcb p idx t.next_thread_id attr (t.sched.tcb (slot idx))))
        (slot idx);
  used = update t.used idx true;
  next_thread_id = (t.next_thread_id + 1) % size_mod;
}

-- The result is the thread's identifier, or 0 where no control block is free.
unfoldable pub create : (fuel : ℕ) → Platform → Option Attr → Threads → Option (ℕ × Threads)
unfolding place
create fuel p attr t = elim (find_free t.used p.max_threads 0) [
  | none ↦ some (0, t)
  | some idx ↦
      let t' = place p idx attr t in
      Option.map (λ s. (t.next_thread_id, record t' { sched = s })) (reschedule fuel t'.sched)
]

unfoldable pub yield : (fuel : ℕ) → Threads → Option Threads
yield fuel t = Option.map (λ s. record t { sched = s }) (reschedule fuel t.sched)

-- A write to the current thread, where there is one, and a call of `mp_sched_reschedule`.
pub on_current : (fuel : ℕ) → (Tcb → Tcb) → Option ℕ → Threads → Option Threads
on_current fuel f none t = some t
on_current fuel f (some c) t =
    Option.map (λ s. record t { sched = s })
      (reschedule fuel (set_tcb t.sched c (f (t.sched.tcb c))))

unfoldable pub sleep : (fuel ticks : ℕ) → Threads → Option Threads
unfolding on_current
sleep fuel ticks t =
    on_current fuel (λ b. record b { state = sleeping; sleep_ticks = ticks }) t.sched.current_thread
      t

unfoldable pub exit : (fuel : ℕ) → Threads → Option Threads
unfolding on_current
exit fuel t = on_current fuel (λ b. record b { state = terminated }) t.sched.current_thread t
