-- ===== src/Kernel/Sched/Pick.antt =====
-- Which thread `mp_sched_reschedule` chooses.
use micro_posix.Prelude.{
  ℕ, refl, subst, inl, inr, true, false, Option, none, some, List, [], append_assoc, arith, leb,
  Bool-cases, length, ◌≤◌, ◌<◌, ◌≡◌, ◌≢◌, ◌&&◌, ◌∷◌, ◌++◌, if◌then◌else◌,
}
use micro_posix.Prelude.Chain.{
  IsChain, has, IsDistinct, has-middle, visit, Keeps, walk-visit, visit_inv, go, stop,
}
use micro_posix.Kernel.Sched.{pick_round, next, ptr_eq, is_runnable, Best, reschedule, Tcb, Sched}

abbrev pub IsRunnable : (ℕ → Tcb) → ℕ → Type 0
IsRunnable tcb c = is_runnable (tcb c).state ≡ true

-- The choice among the threads of a list: none, if no thread is runnable; else the last one of
-- those that have the highest priority.
pub data IsPick (tcb : ℕ → Tcb) (xs : List ℕ) : Option ℕ → Type 0 where
  nobody : ((d : ℕ) → has d xs ≡ true → is_runnable (tcb d).state ≡ false) → IsPick tcb xs none
  winner :
      (before after : List ℕ) (c : ℕ)
      → xs ≡ before ++ (c ∷ after)
      → IsRunnable tcb c
      → ((d : ℕ) → has d before ≡ true → IsRunnable tcb d → (tcb d).priority ≤ (tcb c).priority)
      → ((d : ℕ) → has d after ≡ true → IsRunnable tcb d → (tcb d).priority < (tcb c).priority)
      → IsPick tcb xs (some c)

-- What the loop's variables say of the threads seen so far.
abbrev Seen : (ℕ → Tcb) → List ℕ → Best → Type 0
Seen tcb xs (none, h) = IsPick tcb xs none × (h ≡ 0)
Seen tcb xs (some c, h) = IsPick tcb xs (some c) × (h ≡ (tcb c).priority)

Seen-skip :
    (tcb : ℕ → Tcb) (xs : List ℕ) (best : Best) (c : ℕ)
    → ((is_runnable (tcb c).state && leb best.1 (tcb c).priority) ≡ false)
    → Seen tcb xs best
    → Seen tcb (xs ++ (c ∷ [])) best
Seen-skip tcb xs (none, h) c skip (nobody out, e) = (
  nobody (λ d i. elim (has-middle d c xs [] i) [
    | inl m ↦ out d m
    | inr (inl q) ↦ rw q (ground arith)
    | inr (inr m) ↦ cc
  ]),
  e,
)
Seen-skip tcb xs (some b, h) c skip (winner before after b' split r hb ha, e) = (
  winner before (after ++ (c ∷ [])) b (rw split (append_assoc before (b ∷ after) (c ∷ []))) r hb
      (λ d i rd. elim (has-middle d c after [] i) [
        | inl m ↦ ha d m rd
        | inr (inl q) ↦ let rc = subst (IsRunnable tcb) q rd in rw q (ground arith)
        | inr (inr m) ↦ cc
      ]),
  e,
)

Seen-take :
    (tcb : ℕ → Tcb) (xs : List ℕ) (best : Best) (c : ℕ)
    → ((is_runnable (tcb c).state && leb best.1 (tcb c).priority) ≡ true)
    → Seen tcb xs best
    → Seen tcb (xs ++ (c ∷ [])) (some c, (tcb c).priority)
Seen-take tcb xs (none, h) c good (nobody out, e) =
    (winner xs [] c refl (ground arith) (λ d i rd. cc (out d i)) (λ d i. cc), refl)
Seen-take tcb xs (some b, h) c good (winner before after b' split r hb ha, e) = (
  winner xs [] c refl (ground arith)
      (λ d i rd. elim (has-middle d b before after (rw split at i)) [
        | inl m ↦ ground (arith, hb d m rd)
        | inr (inl q) ↦ rw q (ground arith)
        | inr (inr m) ↦ ground (arith, ha d m rd)
      ])
      (λ d i. cc),
  refl,
)

Seen-round :
    (s : Sched) (xs : List ℕ) (best best' : Best) (c : ℕ)
    → pick_round s best c ≡ go best'
    → Seen s.tcb xs best
    → Seen s.tcb (xs ++ (c ∷ [])) best'
unfolding pick_round
Seen-round s xs best best' c e seen =
    elim (Bool-cases (is_runnable (s.tcb c).state && leb best.1 (s.tcb c).priority)) [
      | inl good ↦
          subst (Seen s.tcb (xs ++ (c ∷ []))) {x = (some c, (s.tcb c).priority)} (ground arith)
            (Seen-take s.tcb xs best c good seen)
      | inr skip ↦
          subst (Seen s.tcb (xs ++ (c ∷ []))) {x = best} (ground arith)
            (Seen-skip s.tcb xs best c skip seen)
    ]

pick_round-ne-stop : (s : Sched) (best best' : Best) (c : ℕ) → pick_round s best c ≢ stop best'
unfolding pick_round
pick_round-ne-stop s best best' c e = cc

pick-Keeps : (s : Sched) → Keeps (λ best. next s) (pick_round s)
pick-Keeps s best best' c rest out r h = h

IsPick-Seen : (tcb : ℕ → Tcb) (xs : List ℕ) (best : Best) → Seen tcb xs best → IsPick tcb xs best.0
IsPick-Seen tcb xs (none, h) (p, e) = p
IsPick-Seen tcb xs (some c, h) (p, e) = p

-- What `mp_sched_reschedule` writes: `next_thread`, and only if the choice is another thread than
-- the current one.
abbrev pub switch_to : Sched → Option ℕ → Sched
switch_to s best = if ptr_eq best s.current_thread then s else record s { next_thread = best }

-- What `mp_sched_reschedule` does keeps whatever does not depend on `next_thread`.
pub switch_to-keeps {κ} :
    (P : Sched → Type κ) (s : Sched) (best : Option ℕ)
    → P s
    → P (record s { next_thread = best })
    → P (switch_to s best)
switch_to-keeps P s best h k =
    elim (ptr_eq best s.current_thread)
      as (λ b. P (if b then s else record s { next_thread = best })) [ true ↦ h | false ↦ k ]

-- On a ready list of distinct threads, with fuel for each, `mp_sched_reschedule` returns. It chooses
-- the last thread of the highest priority among those that are ready or running, and stores the
-- choice in `next_thread` unless it is the current thread; if no thread is runnable the choice is
-- the null pointer.
pub reschedule-IsPick :
    (fuel : ℕ) (s : Sched) (xs : List ℕ)
    → length xs ≤ fuel
    → IsDistinct xs
    → IsChain (next s) s.ready_list xs
    → (best : Option ℕ) × (reschedule fuel s ≡ some (switch_to s best)) × IsPick s.tcb xs best
unfolding reschedule
reschedule-IsPick fuel s xs l d h =
    let r = visit (pick_round s) xs (none, 0) in
    (
      r.0,
      rw (
          walk-visit (λ best. next s) (pick_round s) (pick-Keeps s) fuel xs s.ready_list (none, 0) l
            d h),
      IsPick-Seen s.tcb xs r (
          visit_inv (pick_round s) (Seen s.tcb) (pick_round-ne-stop s)
            (λ xs best best' c. Seen-round s xs best best' c) [] xs (none, 0)
            (nobody (λ d i. cc), refl)),
    )
