-- ===== src/Nrf54l15/Ipc/Ready.antt =====
-- How platform/nrf54l15/shared/ipc.c waits for the other core.
pub mod Calls
pub mod Flags
use micro_posix.Prelude.{
  ℕ, zero, suc, refl, subst, inl, inr, Bool, true, false, arith, ltb, leb, Bool-cases, size_mod,
  ◌+◌, ◌-◌, ◌%◌, ◌<◌, ◌≡◌, ◌⊎◌, ◌&&◌,
}
use micro_posix.Run.{ret, hang}
use micro_posix.Nrf54l15.Ipc.{Pauses, get_other_core_id, wait_ready, wait_for_other_core_ready, Ipc}
use micro_posix.Nrf54l15.Ipc.Ready.Calls.{Runs}
use micro_posix.Nrf54l15.Ipc.Ready.Flags.{KeepFlag, Runs-flag}

-- The test of the timeout in round `k`.
abbrev pub late : (ticks : ℕ → ℕ) (timeout_ms k : ℕ) → Bool
late ticks timeout_ms k =
    ltb 0 timeout_ms && leb timeout_ms ((ticks (suc k) + size_mod - ticks 0) % size_mod)

module _ (id : ℕ) (pauses : Pauses) (ticks : ℕ → ℕ) (keep : KeepFlag id pauses) where
  -- The loop goes on until a round in which the timeout is over.
  wait_ready-late :
      (fuel timeout_ms k n : ℕ) (s : Ipc)
      → s.core_ready (get_other_core_id id) ≡ false
      → n < fuel
      → late ticks timeout_ms (k + n) ≡ true
      → (s' : Ipc) × (wait_ready fuel id pauses ticks timeout_ms k s ≡ ret (false, s'))
  unfolding wait_ready
  wait_ready-late zero timeout_ms k n s e lt over = absurd (omega arith)
  wait_ready-late (suc fuel) timeout_ms k zero s e lt over =
      let here : late ticks timeout_ms k ≡ true =
        subst (λ j. late ticks timeout_ms j ≡ true) (omega arith) over in
      (s, rw (e, here) refl)
  wait_ready-late (suc fuel) timeout_ms k (suc n) s e lt over =
      elim (Bool-cases (late ticks timeout_ms k)) [
        | inl now ↦ (s, rw (e, now) refl)
        | inr more ↦
            rw (e, more)
              (wait_ready-late fuel timeout_ms (suc k) n (pauses k s) (keep k s e) (omega arith)
                (subst (λ j. late ticks timeout_ms j ≡ true) (omega arith) over))
      ]

  wait_ready-false :
      (fuel timeout_ms k : ℕ) (s : Ipc)
      → s.core_ready (get_other_core_id id) ≡ false
      → (wait_ready fuel id pauses ticks timeout_ms k s ≡ hang)
        ⊎ ((0 < timeout_ms)
            × ((s' : Ipc) × (wait_ready fuel id pauses ticks timeout_ms k s ≡ ret (false, s'))))
  unfolding wait_ready
  wait_ready-false zero timeout_ms k s e = inl refl
  wait_ready-false (suc fuel) timeout_ms k s e = elim (Bool-cases (late ticks timeout_ms k)) [
    | inl over ↦ inr (ground arith, (s, rw (e, over) refl))
    | inr more ↦ rw (e, more) (wait_ready-false fuel timeout_ms (suc k) (pauses k s) (keep k s e))
  ]

-- From an array of flags that are all false, as an image starts with, after any calls of the functions
-- of ipc.c on this core, with whatever the hardware and the other core do to the registers, and with
-- such calls and changes in each pause of the wait, `mp_hal_nrf54l15_wait_for_other_core_ready` never
-- returns true: without a timeout it does not end, for any fuel; with one it does not end or returns
-- false, and it does return false where, in a round within the fuel, the timeout is over.
pub wait_for_other_core_ready-false :
    (fuel id : ℕ) (pauses : Pauses) (ticks : ℕ → ℕ) (timeout_ms : ℕ) (s0 s : Ipc)
    → ((core : ℕ) → s0.core_ready core ≡ false)
    → Runs id s0 s
    → ((n : ℕ) (t : Ipc) → Runs id t (pauses n t))
    → (wait_for_other_core_ready fuel id pauses ticks 0 s ≡ hang)
      × ((wait_for_other_core_ready fuel id pauses ticks timeout_ms s ≡ hang)
          ⊎ ((s' : Ipc) × (wait_for_other_core_ready fuel id pauses ticks timeout_ms s
                ≡ ret (false, s'))))
      × ((n : ℕ)
          → n < fuel
          → late ticks timeout_ms n ≡ true
          → (s' : Ipc) × (wait_for_other_core_ready fuel id pauses ticks timeout_ms s
              ≡ ret (false, s')))
unfolding wait_for_other_core_ready
wait_for_other_core_ready-false fuel id pauses ticks timeout_ms s0 s unset runs between =
    let keep : KeepFlag id pauses = λ n t. Runs-flag (between n t) in
    let e = Runs-flag runs (unset (get_other_core_id id)) in
    (
      elim (wait_ready-false id pauses ticks keep fuel 0 0 s e) [
        | inl h ↦ h
        | inr (pos, rest) ↦ absurd (omega arith)
      ],
      elim (wait_ready-false id pauses ticks keep fuel timeout_ms 0 s e) [
        | inl h ↦ inl h
        | inr (pos, rest) ↦ inr rest
      ],
      λ n lt over.
          wait_ready-late id pauses ticks keep fuel timeout_ms 0 n s e lt
            (subst (λ j. late ticks timeout_ms j ≡ true) (omega arith) over),
    )
