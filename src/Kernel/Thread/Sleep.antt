-- ===== src/Kernel/Thread/Sleep.antt =====
-- The calls that change the current thread's control block.
use micro_posix.Prelude.{
  ℕ, refl, ap, subst, inl, inr, true, some, List, arith, ==_iff, ==-refl, Bool-cases, length, ◌≤◌,
  ◌≡◌, ◌∙◌, ◌==◌,
}
use micro_posix.Prelude.Chain.{IsChain, has, IsChain-frame}
use micro_posix.Kernel.Sched.{update, set_tcb, next, next-set_tcb, Tcb, Sched, sleeping}
use micro_posix.Kernel.Sched.Pick.{switch_to, switch_to-keeps, reschedule-IsPick}
use micro_posix.Kernel.Sched.Wake.{ticks, Slept, sleeps_exactly}
use micro_posix.Kernel.Thread.{on_current, sleep, Threads}
use micro_posix.Kernel.Thread.Create.{IsLinked}

update_self {ℓ} : {A : Type ℓ} (f : ℕ → A) (c : ℕ) (a : A) → update f c a c ≡ a
update_self f c a = rw (==-refl c)

-- A write to the current control block that keeps its link keeps the ready list.
pub on_current-IsLinked :
    (fuel : ℕ) (f : Tcb → Tcb) (c : ℕ) (t : Threads) (xs : List ℕ)
    → ((b : Tcb) → (f b).link ≡ b.link)
    → length xs ≤ fuel
    → IsLinked t xs
    → (t' : Threads) × (on_current fuel f (some c) t ≡ some t')
      × IsLinked t' xs
      × (t'.used ≡ t.used)
      × (t'.sched.tcb ≡ update t.sched.tcb c (f (t.sched.tcb c)))
unfolding on_current
on_current-IsLinked fuel f c t xs keep l v =
    let (best, r, pick) = reschedule-IsPick fuel s1 xs l v.distinct chain in
    (
      record t { sched = switch_to s1 best },
      rw r,
      record {
        chain = switch_to-keeps (λ s. IsChain (next s) s.ready_list xs) s1 best chain chain;
        distinct = v.distinct;
        slots = v.slots;
      },
      refl,
      switch_to-keeps (λ s. s.tcb ≡ s1.tcb) s1 best refl refl,
    )
  where
    s1 : Sched
    s1 = set_tcb t.sched c (f (t.sched.tcb c))

    same : (a : ℕ) → next s1 a ≡ next t.sched a
    same a = elim (Bool-cases (a == c)) [
      | inl i ↦
          let q : a ≡ c = (==_iff a c).0 i in
          cc (next-set_tcb t.sched c (f (t.sched.tcb c)) a, keep (t.sched.tcb c), i, q)
      | inr i ↦ ground (arith, next-set_tcb t.sched c (f (t.sched.tcb c)) a)
    ]

    chain : IsChain (next s1) s1.ready_list xs
    chain = IsChain-frame (next t.sched) (next s1) t.sched.ready_list xs (λ a i. same a) v.chain

-- In a well-formed state, with fuel for each linked thread, the current thread, if it is in the ready
-- list, sleeps for as long as it asked: `mp_thread_sleep` of `n` returns a well-formed state, and after
-- any `k` timer ticks from then on the thread is still sleeping, with `n - k` ticks left, if `k` is less
-- than `n`, and ready if `k` is at least `n` and not 0.
pub sleep-Slept :
    (fuel n c : ℕ) (t : Threads) (xs : List ℕ) (memories : List (ℕ → ℕ))
    → length xs ≤ fuel
    → IsLinked t xs
    → has c xs ≡ true
    → t.sched.current_thread ≡ some c
    → (t' : Threads) × (sleep fuel n t ≡ some t')
      × IsLinked t' xs
      × ((s : Sched) × (ticks fuel memories t'.sched ≡ some s)
          × Slept n (length memories) (s.tcb c))
unfolding sleep
sleep-Slept fuel n c t xs memories l v i cur =
    let f : Tcb → Tcb = λ b. record b { state = sleeping; sleep_ticks = n } in
    let (t', e, v', used, tcb) = on_current-IsLinked fuel f c t xs (λ b. refl) l v in
    let b : t'.sched.tcb c ≡ f (t.sched.tcb c) =
      ap (λ g. g c) tcb ∙ update_self t.sched.tcb c (f (t.sched.tcb c)) in
    let (s, e', slept) =
      sleeps_exactly fuel c xs t'.sched memories l v'.distinct i v'.chain (ap (λ z. z.state) b) in
    (
      t',
      ap (λ k. on_current fuel f k t) cur ∙ e,
      v',
      (s, e', subst (λ k. Slept k (length memories) (s.tcb c)) (ap (λ z. z.sleep_ticks) b) slept),
    )
