-- ===== src/Kernel/Sched/Blocked.antt =====
-- What the scheduler does to a blocked thread.
use micro_posix.Prelude.{
  ℕ, sym, subst, inl, inr, none, some, arith, ==_iff, Bool-cases, u64_mod, map-eq-some,
  bind-eq-some, ◌+◌, ◌%◌, ◌≡◌, ◌≢◌, ◌==◌, if◌then◌else◌,
}
use micro_posix.Prelude.Chain.{walk, walk_inv, go, stop}
use micro_posix.Kernel.Sched.{
  pick_round, tick_round, set_tcb, next, ptr_eq, reschedule, tick_tcb, tick, Tcb, Sched, blocked,
}

-- The thread `c` is blocked.
abbrev pub IsBlocked : ℕ → Sched → Type 0
IsBlocked c s = (s.tcb c).state ≡ blocked

-- A successful reschedule writes no control block.
pub tcb-reschedule : (fuel : ℕ) (s s' : Sched) → reschedule fuel s ≡ some s' → s'.tcb ≡ s.tcb
unfolding reschedule
tcb-reschedule fuel s s' e =
    let (best, w, q) =
      map-eq-some
        (λ (best, highest).
          if ptr_eq best s.current_thread then s else record s { next_thread = best })
        (walk fuel (λ acc. next s) (pick_round s) s.ready_list (none, 0)) s' e in
    subst (λ r. r.tcb ≡ s.tcb) q (ground arith)

tick_tcb-blocked :
    (memory : ℕ → ℕ) (t : Tcb) → t.state ≡ blocked → (tick_tcb memory t).state ≡ blocked
unfolding tick_tcb
tick_tcb-blocked memory t h = ground arith

tick_round-IsBlocked :
    (c : ℕ) (memory : ℕ → ℕ) (s s' : Sched) (d : ℕ)
    → tick_round memory s d ≡ go s'
    → IsBlocked c s
    → IsBlocked c s'
unfolding tick_round
tick_round-IsBlocked c memory s s' d e h = subst (IsBlocked c) q after
  where
    q : set_tcb s d (tick_tcb memory (s.tcb d)) ≡ s'
    q = cc e

    after : IsBlocked c (set_tcb s d (tick_tcb memory (s.tcb d)))
    after = elim (Bool-cases (c == d)) [
      | inl i ↦
          let same : c ≡ d = (==_iff c d).0 i in
          rw i (tick_tcb-blocked memory (s.tcb d) (subst (λ k. (s.tcb k).state ≡ blocked) same h))
      | inr i ↦ rw i h
    ]

tick_round-ne-stop : (memory : ℕ → ℕ) (s s' : Sched) (d : ℕ) → tick_round memory s d ≢ stop s'
unfolding tick_round
tick_round-ne-stop memory s s' d e = cc

pub tick-IsBlocked :
    (fuel c : ℕ) (memory : ℕ → ℕ) (s s' : Sched)
    → tick fuel memory s ≡ some s'
    → IsBlocked c s
    → IsBlocked c s'
unfolding tick
tick-IsBlocked fuel c memory s s' e h =
    let (s1, w, r) =
      bind-eq-some (walk fuel next (tick_round memory) s.ready_list now) (reschedule fuel) s' e in
    let after : IsBlocked c s1 =
      walk_inv (IsBlocked c) next (tick_round memory) round (λ t t' d q k. absurd (ends t t' d q))
        fuel s.ready_list now s1 w h in
    subst (λ f. (f c).state ≡ blocked) (sym (tcb-reschedule fuel s1 s' r)) after
  where
    now : Sched
    now = record s { monotonic_ms = (s.monotonic_ms + 1) % u64_mod }

    round : (t t' : Sched) (d : ℕ) → tick_round memory t d ≡ go t' → IsBlocked c t → IsBlocked c t'
    round t t' d q k = tick_round-IsBlocked c memory t t' d q k

    ends : (t t' : Sched) (d : ℕ) → tick_round memory t d ≢ stop t'
    ends t t' d q = tick_round-ne-stop memory t t' d q
