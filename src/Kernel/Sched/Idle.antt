-- ===== src/Kernel/Sched/Idle.antt =====
-- The sleep that `mp_sched_calculate_sleep` allows the idle thread.
use micro_posix.Prelude.{
  ℕ, refl, subst, inl, inr, true, some, List, [], arith, ltb, Bool-cases, length, ◌≤◌, ◌<◌, ◌≡◌,
  ◌≢◌, ◌⊎◌, ◌&&◌, ◌∷◌, ◌++◌, ◌==◌, if◌then◌else◌,
}
use micro_posix.Prelude.Chain.{
  IsChain, has, IsDistinct, has-append, has-middle, visit, walk-visit, visit_inv, go, stop,
}
use micro_posix.Kernel.Sched.{
  sleep_round, next, is_sleeping, no_sleeper, calculate_sleep, Tcb, Sched,
}

abbrev pub IsSleeping : (ℕ → Tcb) → ℕ → Type 0
IsSleeping tcb c = is_sleeping (tcb c).state ≡ true

-- `m` is the least of `no_sleeper` and the ticks left to the sleeping threads of `xs`.
abbrev pub IsLeast : (ℕ → Tcb) → List ℕ → ℕ → Type 0
IsLeast tcb xs m =
    ((d : ℕ) → has d xs ≡ true → IsSleeping tcb d → m ≤ (tcb d).sleep_ticks)
    × ((m ≡ no_sleeper)
        ⊎ ((c : ℕ) × (has c xs ≡ true)
            × IsSleeping tcb c
            × ((tcb c).sleep_ticks ≡ m)
            × (m < no_sleeper)))

IsLeast-round :
    (s : Sched) (xs : List ℕ) (m m' c : ℕ)
    → sleep_round s m c ≡ go m'
    → IsLeast s.tcb xs m
    → IsLeast s.tcb (xs ++ (c ∷ [])) m'
unfolding sleep_round
IsLeast-round s xs m m' c e (low, found) = (
  λ d i asleep. elim (has-middle d c xs [] i) [
    | inl old ↦ ground (arith, low d old asleep)
    | inr (inl q) ↦ let awake = subst (IsSleeping s.tcb) q asleep in rw q (ground arith)
    | inr (inr out) ↦ cc
  ],
  least,
)
  where
    new : ℕ → Type 0
    new n =
        (n ≡ no_sleeper)
        ⊎ ((x : ℕ) × (has x (xs ++ (c ∷ [])) ≡ true)
            × IsSleeping s.tcb x
            × ((s.tcb x).sleep_ticks ≡ n)
            × (n < no_sleeper))

    kept : new m
    kept = elim found [
      | inl top ↦ inl top
      | inr (x, i, r, t, lt) ↦ inr (x, rw (has-append x xs (c ∷ []), i), r, t, lt)
    ]

    taken :
        is_sleeping (s.tcb c).state ≡ true → (s.tcb c).sleep_ticks < m → new (s.tcb c).sleep_ticks
    taken a lt = inr (c, rw has-append (ground arith), a, refl, ground arith)

    least : new m'
    least = elim (Bool-cases (is_sleeping (s.tcb c).state && ltb (s.tcb c).sleep_ticks m)) [
      | inl yes' ↦ subst new (ground arith) (taken (ground arith) (ground arith))
      | inr no' ↦ subst new {x = m} (ground arith) kept
    ]

sleep_round-ne-stop : (s : Sched) (m m' : ℕ) (c : ℕ) → sleep_round s m c ≢ stop m'
unfolding sleep_round
sleep_round-ne-stop s m m' c e = cc

-- On a ready list of distinct threads, with fuel for each, `mp_sched_calculate_sleep` returns. The
-- result is the least number of ticks that a sleeping thread of the list has left, if one has less
-- than 0xFFFFFFFF, and 0 if none has.
pub calculate_sleep-IsLeast :
    (fuel : ℕ) (s : Sched) (xs : List ℕ)
    → length xs ≤ fuel
    → IsDistinct xs
    → IsChain (next s) s.ready_list xs
    → (m : ℕ) × (calculate_sleep fuel s ≡ some (if m == no_sleeper then 0 else m))
      × IsLeast s.tcb xs m
unfolding calculate_sleep
calculate_sleep-IsLeast fuel s xs l d h =
    let m = visit (sleep_round s) xs no_sleeper in
    (
      m,
      rw (
          walk-visit (λ acc. next s) (sleep_round s) (λ acc acc' c rest out e k. k) fuel xs
            s.ready_list no_sleeper l d h),
      visit_inv (sleep_round s) (IsLeast s.tcb) (sleep_round-ne-stop s)
          (λ seen m m' c. IsLeast-round s seen m m' c) [] xs no_sleeper ((λ d i. cc), inl refl),
    )
