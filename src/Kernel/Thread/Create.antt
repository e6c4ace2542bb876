-- ===== src/Kernel/Thread/Create.antt =====
-- Creating a thread.
use micro_posix.Prelude.{
  ℕ, zero, suc, refl, inl, inr, Bool, true, false, Option, none, some, List, arith, ==_iff,
  Bool-cases, length, ◌+◌, ◌≤◌, ◌<◌, ◌≡◌, ◌≢◌, ◌∷◌, ◌==◌,
}
use micro_posix.Prelude.Chain.{IsChain, has, IsDistinct, has-ne, IsChain-frame}
use micro_posix.Kernel.Sched.{update, set_tcb, next, reschedule, add_thread, Sched, ready}
use micro_posix.Kernel.Sched.Pick.{switch_to, switch_to-keeps, reschedule-IsPick, IsPick}
use micro_posix.Kernel.Sched.Queue.{add_thread-IsChain}
use micro_posix.Kernel.Thread.{
  slot, find_free, attr_priority, new_tcb, place, create, Attr, Threads, Platform,
}

-- What `find_free` answers: the first free slot of those it looks at, or that there is none.
abbrev pub FirstFree : (ℕ → Bool) → (n i : ℕ) → Option ℕ → Type 0
FirstFree used n i none = (j : ℕ) → i ≤ j → j < i + n → used j ≡ true
FirstFree used n i (some k) =
    (i ≤ k) × (k < i + n) × (used k ≡ false) × ((j : ℕ) → i ≤ j → j < k → used j ≡ true)

FirstFree-skip :
    (used : ℕ → Bool) (n i : ℕ) (r : Option ℕ)
    → used i ≡ true
    → FirstFree used n (i + 1) r
    → FirstFree used (suc n) i r
FirstFree-skip used n i none u h = λ j p q. elim (Bool-cases (i == j)) [
  | inl e ↦ rw (← (==_iff i j).0 e) u
  | inr e ↦ h j (ground arith) (omega arith)
]
FirstFree-skip used n i (some k) u (lo, hi, free, h) = (
  omega arith,
  omega arith,
  free,
  λ j p q. elim (Bool-cases (i == j)) [
    | inl e ↦ rw (← (==_iff i j).0 e) u
    | inr e ↦ h j (ground arith) q
  ],
)

pub find_free-FirstFree : (used : ℕ → Bool) (n i : ℕ) → FirstFree used n i (find_free used n i)
unfolding find_free
find_free-FirstFree used zero i = λ j p q. absurd (omega arith)
find_free-FirstFree used (suc n) i = elim (Bool-cases (used i)) [
  | inl u ↦
      rw u
        (FirstFree-skip used n i (find_free used n (i + 1)) u (find_free-FirstFree used n (i + 1)))
  | inr u ↦ rw u (omega arith, omega arith, u, λ j p q. absurd (omega arith))
]

-- The ready list goes through distinct threads, and each is the idle thread or in a slot in use.
pub record IsLinked (t : Threads) (xs : List ℕ) : Type 0 where
  pub chain : IsChain (next t.sched) t.sched.ready_list xs
  pub distinct : IsDistinct xs
  pub slots : (i : ℕ) → has (slot i) xs ≡ true → t.used i ≡ true

-- A free slot is not in the ready list, so its control block becomes the first of the list.
place-IsLinked :
    (p : Platform) (idx : ℕ) (attr : Option Attr) (t : Threads) (xs : List ℕ)
    → t.used idx ≡ false
    → IsLinked t xs
    → IsLinked (place p idx attr t) (slot idx ∷ xs)
unfolding place
place-IsLinked p idx attr t xs free v = record {
  chain = add_thread-IsChain written (slot idx) xs out kept;
  distinct = (out, v.distinct);
  slots = λ i m. ground (arith, v.slots i);
}
  where
    out : has (slot idx) xs ≡ false
    out = elim (Bool-cases (has (slot idx) xs)) [ inl e ↦ cc (v.slots idx e) | inr e ↦ e ]

    written : Sched
    written =
        set_tcb t.sched (slot idx) (new_tcb p idx t.next_thread_id attr (t.sched.tcb (slot idx)))

    kept : IsChain (next written) t.sched.ready_list xs
    kept =
        IsChain-frame (next t.sched) (next written) t.sched.ready_list xs
          (λ a i. ground (arith, has-ne a (slot idx) xs out i)) v.chain

tcb-place :
    (p : Platform) (idx : ℕ) (attr : Option Attr) (t : Threads)
    → (((place p idx attr t).sched.tcb (slot idx)).state ≡ ready)
      × (((place p idx attr t).sched.tcb (slot idx)).priority ≡ attr_priority attr)
      × ((a : ℕ) → (a == slot idx) ≡ false → (place p idx attr t).sched.tcb a ≡ t.sched.tcb a)
unfolding place add_thread
tcb-place p idx attr t = (ground arith, ground arith, λ a ne. ground arith)

used-place :
    (p : Platform) (idx : ℕ) (attr : Option Attr) (t : Threads)
    → (place p idx attr t).used ≡ update t.used idx true
unfolding place
used-place p idx attr t = refl

-- With every slot in use `mp_thread_create` returns 0 and changes nothing.
pub create_full :
    (fuel : ℕ) (p : Platform) (attr : Option Attr) (t : Threads)
    → find_free t.used p.max_threads 0 ≡ none
    → create fuel p attr t ≡ some (0, t)
unfolding create
create_full fuel p attr t e = rw (e, create)

create-place :
    (fuel idx : ℕ) (p : Platform) (attr : Option Attr) (t : Threads) (s : Sched)
    → find_free t.used p.max_threads 0 ≡ some idx
    → reschedule fuel (place p idx attr t).sched ≡ some s
    → create fuel p attr t ≡ some (t.next_thread_id, record (place p idx attr t) { sched = s })
unfolding create
create-place fuel idx p attr t s e r = rw (e, create, r)

-- With a slot `idx` the first free one of MAX_THREADS, a well-formed state and fuel for one thread
-- more than are linked, `mp_thread_create` returns the next
-- identifier and takes that slot. The ready list gets the new thread in front and stays a list of
-- distinct threads in use; the thread is ready with the priority of the attributes, or 1 without
-- them; no other control block changes; and `next_thread` is chosen from the new list.
pub create-IsLinked :
    (fuel idx : ℕ) (p : Platform) (attr : Option Attr) (t : Threads) (xs : List ℕ)
    → length xs < fuel
    → find_free t.used p.max_threads 0 ≡ some idx
    → IsLinked t xs
    → (t' : Threads) × (create fuel p attr t ≡ some (t.next_thread_id, t'))
      × IsLinked t' (slot idx ∷ xs)
      × (t'.used ≡ update t.used idx true)
      × ((t'.sched.tcb (slot idx)).state ≡ ready)
      × ((t'.sched.tcb (slot idx)).priority ≡ attr_priority attr)
      × ((a : ℕ) → a ≢ slot idx → t'.sched.tcb a ≡ t.sched.tcb a)
      × ((best : Option ℕ) × IsPick t'.sched.tcb (slot idx ∷ xs) best
          × (t'.sched ≡ switch_to (place p idx attr t).sched best))
create-IsLinked fuel idx p attr t xs l e v =
    let t1 : Threads = place p idx attr t in
    let v1 : IsLinked t1 (slot idx ∷ xs) = place-IsLinked p idx attr t xs (first_free e) v in
    let (best, r, pick) = reschedule-IsPick fuel t1.sched (slot idx ∷ xs) l v1.distinct v1.chain in
    (
      record t1 { sched = switch_to t1.sched best },
      create-place fuel idx p attr t (switch_to t1.sched best) e r,
      record {
        chain =
            switch_to-keeps (λ s. IsChain (next s) s.ready_list (slot idx ∷ xs)) t1.sched best
              v1.chain v1.chain;
        distinct = v1.distinct;
        slots = v1.slots;
      },
      used-place p idx attr t,
      switch_to-keeps (λ s. (s.tcb (slot idx)).state ≡ ready) t1.sched best
          (tcb-place p idx attr t).0 (tcb-place p idx attr t).0,
      switch_to-keeps (λ s. (s.tcb (slot idx)).priority ≡ attr_priority attr) t1.sched best
          (tcb-place p idx attr t).1 (tcb-place p idx attr t).1,
      (λ a ne.
          let same : t1.sched.tcb a ≡ t.sched.tcb a = (tcb-place p idx attr t).2 a (ground arith) in
          switch_to-keeps (λ s. s.tcb a ≡ t.sched.tcb a) t1.sched best same same),
      (
        best,
        switch_to-keeps (λ s. IsPick s.tcb (slot idx ∷ xs) best) t1.sched best pick pick,
        refl,
      ),
    )
  where
    first_free : find_free t.used p.max_threads 0 ≡ some idx → t.used idx ≡ false
    first_free e = (rw e at (find_free-FirstFree t.used p.max_threads 0)).2

-- `mp_sched_reschedule` alone leaves all that is linked.
pub switch_to-IsLinked :
    (t : Threads) (best : Option ℕ) (xs : List ℕ)
    → IsLinked t xs
    → IsLinked (record t { sched = switch_to t.sched best }) xs
switch_to-IsLinked t best xs v = record {
  chain = switch_to-keeps (λ s. IsChain (next s) s.ready_list xs) t.sched best v.chain v.chain;
  distinct = v.distinct;
  slots = v.slots;
}
