-- ===== src/Kernel/Sched/Wake.antt =====
-- How long a sleeping thread sleeps: `mp_thread_sleep` writes the number of ticks, and every timer
-- tick counts it down.
use micro_posix.Prelude.{
  ℕ, suc, refl, subst, true, Option, none, some, List, [], arith, length, ◌+◌, ◌-◌, ◌≤◌, ◌<◌, ◌≡◌,
  ◌∷◌,
}
use micro_posix.Prelude.Chain.{IsChain, has, IsDistinct}
use micro_posix.Kernel.Sched.{next, tick_tcb, tick, Tcb, Sched, ready, sleeping}
use micro_posix.Kernel.Sched.Pick.{switch_to, switch_to-keeps}
use micro_posix.Kernel.Sched.Tick.{ticked_at, tick_lem}
use native.Mathlib.Nat.{zero-add}

-- One call of `mp_sched_tick` for each element of the list, which is what the memory holds then.
pub ticks : (fuel : ℕ) → List (ℕ → ℕ) → Sched → Option Sched
ticks fuel [] s = some s
ticks fuel (memory ∷ later) s = elim (tick fuel memory s) [
  | none ↦ none
  | some s' ↦ ticks fuel later s'
]

-- A thread that fell asleep for `n` ticks, when `k` of them have passed. With `n` 0 the next tick
-- wakes it, as with 1.
abbrev pub Slept : ℕ → ℕ → Tcb → Type 0
Slept n k t =
    ((k < n) → (t.state ≡ sleeping) × (t.sleep_ticks ≡ n - k))
    × ((n ≤ k) → (0 < k) → t.state ≡ ready)

Slept-tick_tcb :
    (n k : ℕ) (memory : ℕ → ℕ) (t : Tcb)
    → (k ≡ 0 → (t.state ≡ sleeping) × (t.sleep_ticks ≡ n))
    → Slept n k t
    → Slept n (suc k) (tick_tcb memory t)
unfolding tick_tcb
Slept-tick_tcb n k memory t first h = (λ p. ground arith, λ p q. ground arith)

Slept-ticks :
    (fuel n c : ℕ) (xs : List ℕ)
    → length xs ≤ fuel
    → IsDistinct xs
    → has c xs ≡ true
    → (memories : List (ℕ → ℕ)) (k : ℕ) (s : Sched) → IsChain (next s) s.ready_list xs
    → (k ≡ 0 → ((s.tcb c).state ≡ sleeping) × ((s.tcb c).sleep_ticks ≡ n))
    → Slept n k (s.tcb c)
    → (s' : Sched) × (ticks fuel memories s ≡ some s') × Slept n (k + length memories) (s'.tcb c)
unfolding ticks
Slept-ticks fuel n c xs l d i [] k s h first slept =
    (s, refl, subst (λ j. Slept n j (s.tcb c)) (omega arith) slept)
Slept-ticks fuel n c xs l d i (memory ∷ later) k s h first slept =
    let (best, e, pick, chain) = tick_lem fuel memory s xs l d h in
    let s1 : Sched = switch_to (ticked_at memory xs s) best in
    let now : Slept n (suc k) (s1.tcb c) =
      let t : Slept n (suc k) ((ticked_at memory xs s).tcb c) =
        rw i (Slept-tick_tcb n k memory (s.tcb c) first slept) in
      switch_to-keeps (λ z. Slept n (suc k) (z.tcb c)) (ticked_at memory xs s) best t t in
    let (s', e', slept') =
      Slept-ticks fuel n c xs l d i later (suc k) s1
        (switch_to-keeps (λ z. IsChain (next z) z.ready_list xs) (ticked_at memory xs s) best chain
          chain)
        (λ z. absurd (omega arith)) now in
    (s', rw (e, ticks) e', subst (λ j. Slept n j (s'.tcb c)) (omega arith) slept')

-- A thread of a ready list of distinct threads, with fuel for each, that is sleeping with `n` ticks left: after any number `k` of calls of
-- `mp_sched_tick` from 1 on, each of which returns, it is still sleeping with `n - k` ticks left if
-- `k` is less than `n`, and ready otherwise, whatever the stacks hold meanwhile.
pub sleeps_exactly :
    (fuel c : ℕ) (xs : List ℕ) (s : Sched) (memories : List (ℕ → ℕ))
    → length xs ≤ fuel
    → IsDistinct xs
    → has c xs ≡ true
    → IsChain (next s) s.ready_list xs
    → (s.tcb c).state ≡ sleeping
    → (s' : Sched) × (ticks fuel memories s ≡ some s')
      × Slept (s.tcb c).sleep_ticks (length memories) (s'.tcb c)
sleeps_exactly fuel c xs s memories l d i h asleep =
    let (s', e, slept) =
      Slept-ticks fuel (s.tcb c).sleep_ticks c xs l d i memories 0 s h (λ z. (asleep, refl))
        (λ p. (asleep, omega arith), λ p q. absurd (omega arith)) in
    (s', e, rw zero-add at slept)
