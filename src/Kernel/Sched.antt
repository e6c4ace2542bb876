-- ===== src/Kernel/Sched.antt =====
-- src/kernel/scheduler.c, with the types of include/microposix/kernel/thread.h and scheduler.h.
-- A thread control block is named by a number and `none` is the null pointer. `memory` reads a byte
-- at an address. A loop over the ready list takes fuel, one unit for each node; `none` as a result
-- means that the fuel ran out, which a cycle in the list would bring about.
pub mod Blocked
pub mod Pick
pub mod Queue
pub mod Tick
pub mod Wake
pub mod Idle
use micro_posix.Prelude.{
  ℕ, zero, suc, refl, Bool, true, false, Option, none, some, List, arith, ltb, leb, u64_mod, drop,
  ◌+◌, ◌-◌, ◌*◌, ◌%◌, ◌≡◌, ◌&&◌, ◌∷◌, ◌==◌, if◌then◌else◌,
}
use micro_posix.Prelude.Chain.Remove.{remove, ListOps}
use micro_posix.Prelude.Chain.{walk, Round, go}
use mathlib.Core.Option

pub data ThreadState : Type 0 where
  ready running blocked sleeping terminated : ThreadState

-- `started` is MP_SCHED_RUNNING.
pub data SchedState : Type 0 where
  initializing started suspended : SchedState

-- `mp_tcb_t`, with the fields of profile 1.
pub record Tcb : Type 0 where
  pub stack_ptr : ℕ
  pub stack_base : ℕ
  pub stack_size : ℕ
  pub id : ℕ
  pub name : List ℕ
  pub priority : ℕ
  pub state : ThreadState
  pub sleep_ticks : ℕ
  pub cpu_cycles : ℕ
  pub context_switches : ℕ
  pub stack_hwm : ℕ
  pub heap_bytes : ℕ
  pub link : Option ℕ

-- The static variables of scheduler.c, and every thread control block.
pub record Sched : Type 0 where
  pub tcb : ℕ → Tcb
  pub current_thread : Option ℕ
  pub next_thread : Option ℕ
  pub ready_list : Option ℕ
  pub sched_state : SchedState
  pub monotonic_ms : ℕ

-- A write through a pointer to a thread control block.
abbrev pub update {ℓ} : {A : Type ℓ} → (ℕ → A) → ℕ → A → ℕ → A
update f a v b = if b == a then v else f b

abbrev pub set_tcb : Sched → ℕ → Tcb → Sched
set_tcb s a t = record s { tcb = update s.tcb a t }

abbrev pub next : Sched → ℕ → Option ℕ
next s a = (s.tcb a).link

pub next-set_tcb :
    (s : Sched) (c : ℕ) (t : Tcb) (a : ℕ)
    → next (set_tcb s c t) a ≡ (if a == c then t.link else next s a)
next-set_tcb s c t a = ground arith

-- Equality of two pointers.
abbrev pub ptr_eq : Option ℕ → Option ℕ → Bool
ptr_eq none none = true
ptr_eq none (some b) = false
ptr_eq (some a) none = false
ptr_eq (some a) (some b) = a == b

pub clock_get_monotonic_ms : Sched → ℕ
clock_get_monotonic_ms s = s.monotonic_ms

pub clock_get_monotonic_us : Sched → ℕ
clock_get_monotonic_us s = s.monotonic_ms * 1000 % u64_mod

abbrev pub is_sleeping : ThreadState → Bool
is_sleeping sleeping = true
is_sleeping _ = false

abbrev pub is_runnable : ThreadState → Bool
is_runnable ready = true
is_runnable running = true
is_runnable _ = false

abbrev pub no_sleeper : ℕ
no_sleeper = 0xFFFFFFFF

-- One round of `mp_sched_calculate_sleep`; the loop's variable is `sleep_ticks`.
sleep_round : Sched → ℕ → ℕ → Round ℕ
sleep_round s acc c =
    let t = s.tcb c in
    go (if is_sleeping t.state && ltb t.sleep_ticks acc then t.sleep_ticks else acc)

unfoldable pub calculate_sleep : (fuel : ℕ) → Sched → Option ℕ
unfolding sleep_round
calculate_sleep fuel s =
    Option.map (λ ticks. if ticks == no_sleeper then 0 else ticks)
      (walk fuel (λ acc. next s) (sleep_round s) s.ready_list no_sleeper)

-- `mp_sched_init` writes these fields of the idle thread and links no other; `idle` names it and
-- `idle_stack` is the address of its 1024 bytes.
init : (idle idle_stack : ℕ) → Sched → Sched
init idle idle_stack s = record (set_tcb s idle t) {
  ready_list = some idle;
  current_thread = some idle;
  sched_state = started;
}
  where
    t : Tcb
    t = record (s.tcb idle) {
      id = 0;
      name = b'i' ∷ b'd' ∷ b'l' ∷ b'e' ∷ 0 ∷ drop 5 (s.tcb idle).name;
      priority = 0;
      state = ready;
      stack_base = idle_stack;
      stack_size = 1024;
      stack_ptr = idle_stack + 1020;
    }

start : Sched → Sched
start s = record s { sched_state = started }

-- The loop's variables `best_thread` and `highest_priority`.
abbrev pub Best : Type 0
Best = Option ℕ × ℕ

pick_round : Sched → Best → ℕ → Round Best
pick_round s (best, highest) c =
    let t = s.tcb c in
    go (
      if is_runnable t.state && leb highest t.priority
      then (some c, t.priority)
      else (best, highest))

unfoldable pub reschedule : (fuel : ℕ) → Sched → Option Sched
unfolding pick_round
reschedule fuel s =
    Option.map
      (λ (best, highest).
        if ptr_eq best s.current_thread then s else record s { next_thread = best })
      (walk fuel (λ acc. next s) (pick_round s) s.ready_list (none, 0))

-- `unused`: how many of the `n` bytes from `addr` on still hold the fill byte.
pub unused_stack : (memory : ℕ → ℕ) (addr n : ℕ) → ℕ
unused_stack memory addr zero = 0
unused_stack memory addr (suc n) =
    if memory addr == 0xAA then suc (unused_stack memory (addr + 1) n) else 0

wake : Tcb → Tcb
wake t = if t.sleep_ticks == 0 then record t { state = ready } else t

-- The two parts of a round of `mp_sched_tick`.
tick_sleep : Tcb → Tcb
unfolding wake
tick_sleep t =
    if is_sleeping t.state
    then wake (if ltb 0 t.sleep_ticks then record t { sleep_ticks = t.sleep_ticks - 1 } else t)
    else t

tick_hwm : (memory : ℕ → ℕ) → Tcb → Tcb
unfolding unused_stack
tick_hwm memory t =
    if t.stack_base == 0
    then t
    else record t { stack_hwm = t.stack_size - unused_stack memory t.stack_base t.stack_size }

pub tick_tcb : (memory : ℕ → ℕ) → Tcb → Tcb
unfolding tick_sleep tick_hwm
tick_tcb memory t = tick_hwm memory (tick_sleep t)

tick_round : (memory : ℕ → ℕ) → Sched → ℕ → Round Sched
unfolding tick_tcb
tick_round memory s c = go (set_tcb s c (tick_tcb memory (s.tcb c)))

unfoldable pub tick : (fuel : ℕ) (memory : ℕ → ℕ) → Sched → Option Sched
unfolding tick_round
tick fuel memory s =
    Option.bind
      (walk fuel next (tick_round memory) s.ready_list
        (record s { monotonic_ms = (s.monotonic_ms + 1) % u64_mod }))
      (reschedule fuel)

pub get_current_thread : Sched → Option ℕ
get_current_thread s = s.current_thread

pub get_next_thread : Sched → Option ℕ
get_next_thread s = s.next_thread

unfoldable pub add_thread : Sched → ℕ → Sched
add_thread s c = record (set_tcb s c (record (s.tcb c) { link = s.ready_list })) {
  ready_list = some c;
}

pub set_link : Sched → ℕ → Option ℕ → Sched
set_link s p q = set_tcb s p (record (s.tcb p) { link = q })

pub next-set_link :
    (s : Sched) (p : ℕ) (q : Option ℕ) (a : ℕ)
    → next (set_link s p q) a ≡ (if a == p then q else next s a)
unfolding set_link
next-set_link s p q a = ground arith

pub ready_list-set_link :
    (s : Sched) (p : ℕ) (q : Option ℕ) → (set_link s p q).ready_list ≡ s.ready_list
unfolding set_link
ready_list-set_link s p q = refl

-- The ready list as a linked list of the scheduler's store.
abbrev pub ready_ops : ListOps Sched
ready_ops = record {
  next = next;
  head = λ s. s.ready_list;
  set_next = set_link;
  set_head = λ s q. record s { ready_list = q };
  next-set_next = next-set_link;
  head-set_next = ready_list-set_link;
  next-set_head = λ s q a. refl;
  head-set_head = λ s q. refl;
}

unfoldable pub remove_thread : (fuel : ℕ) → Sched → ℕ → Option Sched
remove_thread = remove ready_ops
