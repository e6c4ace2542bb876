-- ===== src/Kernel/Timer.antt =====
-- src/kernel/timer.c: the list of software timers. A timer is named by a number; the callbacks are
-- code outside these functions, given by what they do to the state.
pub mod Active
mod Tests
use micro_posix.Prelude.{
  ℕ, zero, suc, refl, Bool, true, false, Option, none, some, arith, leb, u64_mod, ◌+◌, ◌%◌, ◌≡◌,
  ◌==◌, if◌then◌else◌,
}
use micro_posix.Prelude.Chain.{walk, Round, go, stop}
use micro_posix.Prelude.Chain.Remove.{remove, ListOps}
use mathlib.Core.Option

-- `mp_timer_t`; a null callback is none.
pub record Timer : Type 0 where
  pub expiry_ms : ℕ
  pub period_ms : ℕ
  pub periodic : Bool
  pub callback : Option ℕ
  pub arg : ℕ
  pub link : Option ℕ

-- The static variable of timer.c, and every timer.
pub record Timers : Type 0 where
  pub timer : ℕ → Timer
  pub timer_list : Option ℕ

-- `now` is `mp_clock_get_monotonic_ms()`.
abbrev pub set_timer : Timers → ℕ → Timer → Timers
set_timer s a t = record s { timer = λ b. if b == a then t else s.timer b }

abbrev pub next : Timers → ℕ → Option ℕ
next s a = (s.timer a).link

unfoldable pub init : Timers → Timers
init s = record s { timer_list = none }

unfoldable pub create :
    (now : ℕ)
    → Timers
    → (timer delay_ms period_ms : ℕ) (periodic : Bool) (callback : Option ℕ) (arg : ℕ) → Timers
create now s timer delay_ms period_ms periodic callback arg = set_timer s timer (record {
  expiry_ms = (now + delay_ms) % u64_mod;
  period_ms = period_ms;
  periodic = periodic;
  callback = callback;
  arg = arg;
  link = none;
})

-- The search of `mp_timer_start`; the loop's variable says whether the timer was found.
unfoldable pub listed_round : ℕ → Bool → ℕ → Round Bool
listed_round timer found curr = if curr == timer then stop true else go found

unfoldable pub start : (fuel : ℕ) → Timers → ℕ → Option Timers
start fuel s timer =
    Option.map
      (λ found.
        if found
        then s
        else record (set_timer s timer (record (s.timer timer) { link = s.timer_list })) {
          timer_list = some timer;
        })
      (walk fuel (λ acc. next s) (listed_round timer) s.timer_list false)

unfoldable pub set_link : Timers → ℕ → Option ℕ → Timers
set_link s p q = set_timer s p (record (s.timer p) { link = q })

pub next-set_link :
    (s : Timers) (p : ℕ) (q : Option ℕ) (a : ℕ)
    → next (set_link s p q) a ≡ (if a == p then q else next s a)
unfolding set_link
next-set_link s p q a = ground arith

pub timer_list-set_link :
    (s : Timers) (p : ℕ) (q : Option ℕ) → (set_link s p q).timer_list ≡ s.timer_list
unfolding set_link
timer_list-set_link s p q = refl

-- The timers as a linked list of their store.
abbrev pub timer_ops : ListOps Timers
timer_ops = record {
  next = next;
  head = λ s. s.timer_list;
  set_next = set_link;
  set_head = λ s q. record s { timer_list = q };
  next-set_next = next-set_link;
  head-set_next = timer_list-set_link;
  next-set_head = λ s q a. refl;
  head-set_head = λ s q. refl;
}

unfoldable pub stop_timer : (fuel : ℕ) → Timers → ℕ → Option Timers
stop_timer = remove timer_ops

-- The callback of a timer with its argument, if it has one.
abbrev pub fire : (run : ℕ → ℕ → Timers → Timers) → Option ℕ → ℕ → Timers → Timers
fire run none arg s = s
fire run (some f) arg s = run f arg s

-- What a round of `mp_timer_tick` does to a timer that has expired; `fuel` bounds the walk of
-- `mp_timer_stop`, and where it runs out the list is left as it is.
unfoldable pub expire :
    (fuel : ℕ) (run : ℕ → ℕ → Timers → Timers) (now : ℕ) → Timers → ℕ → Option Timers
expire fuel run now s curr =
    let s1 = fire run (s.timer curr).callback (s.timer curr).arg s in
    let t = s1.timer curr in
    if t.periodic
    then some (set_timer s1 curr (record t { expiry_ms = (now + t.period_ms) % u64_mod }))
    else stop_timer fuel s1 curr

-- `mp_timer_tick` from the timer `curr` on.
unfoldable pub tick_from :
    (fuel : ℕ) (run : ℕ → ℕ → Timers → Timers) (now : ℕ) → Option ℕ → Timers → Option Timers
tick_from fuel run now none s = some s
tick_from zero run now (some c) s = none
tick_from (suc fuel) run now (some c) s =
    if leb (s.timer c).expiry_ms now
    then elim (expire (suc fuel) run now s c) [
      | none ↦ none
      | some s' ↦ tick_from fuel run now (next s' c) s'
    ]
    else tick_from fuel run now (next s c) s

unfoldable pub tick : (fuel : ℕ) (run : ℕ → ℕ → Timers → Timers) (now : ℕ) → Timers → Option Timers
tick fuel run now s = tick_from fuel run now s.timer_list s
