-- ===== src/Kernel/Sched/Tick.antt =====
-- What a timer tick does to the threads of the ready list.
use micro_posix.Prelude.{
  ℕ, refl, ap, subst, inl, inr, Option, some, List, [], arith, ==_iff, ==-refl, Bool-cases, u64_mod,
  length, ◌+◌, ◌%◌, ◌≤◌, ◌≡◌, ◌∙◌, ◌∷◌, ◌==◌, if◌then◌else◌,
}
use micro_posix.Prelude.Chain.{IsChain, has, IsDistinct, IsChain-frame, visit, Keeps, walk-visit}
use micro_posix.Kernel.Sched.Pick.{switch_to, reschedule-IsPick, IsPick}
use micro_posix.Kernel.Sched.{tick_round, set_tcb, next, next-set_tcb, tick_tcb, tick, Tcb, Sched}
use mathlib.Core.Option
use mathlib.Core.Path.{fun_ext}

link-tick_tcb : (memory : ℕ → ℕ) (t : Tcb) → (tick_tcb memory t).link ≡ t.link
unfolding tick_tcb
link-tick_tcb memory t = ground arith

-- Every thread of `xs` ticked once, and the clock left alone.
abbrev pub ticked : (memory : ℕ → ℕ) → List ℕ → Sched → Sched
ticked memory xs s = record s { tcb = λ d. if has d xs then tick_tcb memory (s.tcb d) else s.tcb d }

visit-ticked :
    (memory : ℕ → ℕ) (xs : List ℕ) (s : Sched)
    → IsDistinct xs
    → visit (tick_round memory) xs s ≡ ticked memory xs s
unfolding visit tick_round
visit-ticked memory [] s d = refl
visit-ticked memory (x ∷ xs) s (o, d) =
    visit-ticked memory xs (set_tcb s x (tick_tcb memory (s.tcb x))) d
    ∙ ap (λ f. record s { tcb = f })
        (fun_ext (λ c. elim (Bool-cases (c == x)) [
          | inl e ↦ let q : c ≡ x = (==_iff c x).0 e in rw (q, o, ==-refl x)
          | inr e ↦ rw e
        ]))

next-ticked :
    (memory : ℕ → ℕ) (xs : List ℕ) (s : Sched) (a : ℕ) → next (ticked memory xs s) a ≡ next s a
next-ticked memory xs s a = ground (arith, link-tick_tcb memory (s.tcb a))

Keeps-tick_round : (memory : ℕ → ℕ) → Keeps next (tick_round memory)
unfolding tick_round
Keeps-tick_round memory s s' c rest out e h =
    subst (λ t. IsChain (next t) (next t c) rest) q
      (rw (same c) (IsChain-frame (next s) (next after) (next s c) rest (λ a i. same a) h))
  where
    after : Sched
    after = set_tcb s c (tick_tcb memory (s.tcb c))

    q : after ≡ s'
    q = cc e

    same : (a : ℕ) → next after a ≡ next s a
    same a = elim (Bool-cases (a == c)) [
      | inl i ↦
          let q : a ≡ c = (==_iff a c).0 i in
          cc (next-set_tcb s c (tick_tcb memory (s.tcb c)) a, link-tick_tcb memory (s.tcb c), i, q)
      | inr i ↦ ground (arith, next-set_tcb s c (tick_tcb memory (s.tcb c)) a)
    ]

-- The scheduler after the clock has moved on and every thread of `xs` is ticked.
abbrev pub ticked_at : (memory : ℕ → ℕ) → List ℕ → Sched → Sched
ticked_at memory xs s =
    ticked memory xs (record s { monotonic_ms = (s.monotonic_ms + 1) % u64_mod })

-- On a ready list of distinct threads, with fuel for each, `mp_sched_tick` returns: the clock is one
-- millisecond on, every thread of the list has been ticked exactly once and no other thread is
-- touched, the list is the same, and a thread is then chosen as `mp_sched_reschedule` does.
pub tick_lem :
    (fuel : ℕ) (memory : ℕ → ℕ) (s : Sched) (xs : List ℕ)
    → length xs ≤ fuel
    → IsDistinct xs
    → IsChain (next s) s.ready_list xs
    → (best : Option ℕ) × (tick fuel memory s ≡ some (switch_to (ticked_at memory xs s) best))
      × IsPick (ticked_at memory xs s).tcb xs best
      × IsChain (next (ticked_at memory xs s)) s.ready_list xs
unfolding tick Option.bind
tick_lem fuel memory s xs l d h =
    let now : Sched = record s { monotonic_ms = (s.monotonic_ms + 1) % u64_mod } in
    let (best, e, pick) = reschedule-IsPick fuel (ticked memory xs now) xs l d chain in
    (
      best,
      rw
          (
            walk-visit next (tick_round memory) (Keeps-tick_round memory) fuel xs s.ready_list now l
                d h,
            visit-ticked memory xs now d,
          )
          e,
      pick,
      chain,
    )
  where
    chain : IsChain (next (ticked_at memory xs s)) s.ready_list xs
    chain =
        IsChain-frame (next s) (next (ticked_at memory xs s)) s.ready_list xs
          (λ a i. next-ticked memory xs s a) h
