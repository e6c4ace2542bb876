-- ===== src/Kernel/Thread/Leak.antt =====
-- How many threads can ever be created: no call gives a control block back.
use micro_posix.Prelude.{
  ℕ, zero, suc, refl, sym, ap, subst, inl, inr, Bool, true, false, Option, none, some, List, [],
  arith, ==_iff, Bool-cases, Option-cases, length, ◌+◌, ◌≤◌, ◌<◌, ◌≡◌, ◌∷◌, ◌++◌, ◌==◌,
  if◌then◌else◌,
}
use micro_posix.Kernel.Sched.Pick.{switch_to, reschedule-IsPick}
use micro_posix.Kernel.Sched.{update, Tcb, sleeping, terminated}
use micro_posix.Kernel.Thread.{
  slot, find_free, create, yield, on_current, sleep, exit, Attr, Threads, Platform,
}
use micro_posix.Kernel.Thread.Create.{
  find_free-FirstFree, create_full, create-IsLinked, switch_to-IsLinked, IsLinked,
}
use micro_posix.Kernel.Thread.Sleep.{on_current-IsLinked}
use mathlib.Core.Option

pub data Call : Type 0 where
  creating : Option Attr → Call
  sleeping_for : ℕ → Call
  exiting : Call
  yielding : Call

-- A call with what it returns: the identifier of a new thread, or none.
unfoldable pub call : (fuel : ℕ) → Platform → Call → Threads → Option (List ℕ × Threads)
call fuel p (creating attr) t = Option.map (λ (id, t'). (id ∷ [], t')) (create fuel p attr t)
call fuel p (sleeping_for n) t = Option.map (λ t'. ([], t')) (sleep fuel n t)
call fuel p exiting t = Option.map (λ t'. ([], t')) (exit fuel t)
call fuel p yielding t = Option.map (λ t'. ([], t')) (yield fuel t)

-- Calls in order, with the identifiers that the creations among them return.
unfoldable pub calls : (fuel : ℕ) → Platform → List Call → Threads → Option (List ℕ × Threads)
calls fuel p [] t = some ([], t)
calls fuel p (c ∷ cs) t =
    Option.bind (call fuel p c t)
      (λ (ids, t'). Option.map (λ (more, t''). (ids ++ more, t'')) (calls fuel p cs t'))

-- How many identifiers are those of threads: 0 says that there is none.
abbrev pub created : List ℕ → ℕ
created [] = 0
created (id ∷ ids) = (if id == 0 then 0 else 1) + created ids

-- How many of the `n` slots from `i` on are free.
abbrev pub free_slots : (ℕ → Bool) → (n i : ℕ) → ℕ
free_slots used zero i = 0
free_slots used (suc n) i = (if used i then 0 else 1) + free_slots used n (i + 1)

free_slots-update_before :
    (used : ℕ → Bool) (n i k : ℕ)
    → k < i
    → free_slots (update used k true) n i ≡ free_slots used n i
free_slots-update_before used zero i k h = refl
free_slots-update_before used (suc n) i k h =
    ground (arith, free_slots-update_before used n (i + 1) k)

-- Taking a free slot leaves one fewer.
free_slots-update :
    (used : ℕ → Bool) (n i k : ℕ)
    → i ≤ k
    → k < i + n
    → used k ≡ false
    → free_slots (update used k true) n i + 1 ≡ free_slots used n i
free_slots-update used zero i k h h' f = absurd (omega arith)
free_slots-update used (suc n) i k h h' f = elim (Bool-cases (i == k)) [
  | inl e ↦
      let q : i ≡ k = (==_iff i k).0 e in
      ground (arith, free_slots-update_before used n (i + 1) k, ap used q)
  | inr e ↦ ground (arith, free_slots-update used n (i + 1) k)
]

created-append : (xs ys : List ℕ) → created (xs ++ ys) ≡ created xs + created ys
created-append [] ys = omega arith
created-append (x ∷ xs) ys = omega (arith, created-append xs ys)

-- What a run of calls leaves: a well-formed state with at most `free` free slots, less those that
-- the creations took.
abbrev Leaves : (fuel free : ℕ) → Platform → Option (List ℕ × Threads) → Type 0
Leaves fuel free p r =
    (ids : List ℕ) × (t' : Threads) × (xs : List ℕ) × (r ≡ some (ids, t'))
    × IsLinked t' xs
    × (length xs + free_slots t'.used p.max_threads 0 ≤ fuel)
    × (created ids + free_slots t'.used p.max_threads 0 ≤ free)

module _ (fuel : ℕ) (p : Platform) (t : Threads) (xs : List ℕ) (v : IsLinked t xs) where
  module _ (room : length xs + free_slots t.used p.max_threads 0 ≤ fuel) where
    Leaves-create :
        (attr : Option Attr)
        → Leaves fuel (free_slots t.used p.max_threads 0) p (call fuel p (creating attr) t)
    unfolding call
    Leaves-create attr = elim (Option-cases (find_free t.used p.max_threads 0)) [
      | inl e ↦ (0 ∷ [], t, xs, rw (create_full fuel p attr t e), v, room, omega arith)
      | inr (idx, e) ↦
          let found = rw e at (find_free-FirstFree t.used p.max_threads 0) in
          let fewer = free_slots-update t.used p.max_threads 0 idx found.0 found.1 found.2 in
          let w = create-IsLinked fuel idx p attr t xs (omega (arith, fewer)) e v in
          let used : free_slots w.0.used p.max_threads 0 + 1 ≡ free_slots t.used p.max_threads 0 =
            subst (λ u. free_slots u p.max_threads 0 + 1 ≡ free_slots t.used p.max_threads 0)
              (sym w.3) fewer in
          (
            t.next_thread_id ∷ [],
            w.0,
            slot idx ∷ xs,
            rw w.1,
            w.2,
            omega (arith, used),
            ground (arith, used),
          )
    ]

    Leaves-current :
        (f : Tcb → Tcb)
        → ((b : Tcb) → (f b).link ≡ b.link)
        → (cur : Option ℕ)
        → Leaves fuel
            (free_slots t.used p.max_threads 0)
            p
            (Option.map (λ t'. ([], t')) (on_current fuel f cur t))
    unfolding on_current
    Leaves-current f keep none = ([], t, xs, refl, v, room, omega arith)
    Leaves-current f keep (some c) =
        let (t', r, v', used, tcb) = on_current-IsLinked fuel f c t xs keep (omega arith) v in
        ([], t', xs, rw r, v', rw used room, rw used (omega arith))

    Leaves-call : (c : Call) → Leaves fuel (free_slots t.used p.max_threads 0) p (call fuel p c t)
    unfolding call sleep exit yield
    Leaves-call (creating attr) = Leaves-create attr
    Leaves-call (sleeping_for n) =
        Leaves-current (λ b. record b { state = sleeping; sleep_ticks = n }) (λ b. refl)
          t.sched.current_thread
    Leaves-call exiting =
        Leaves-current (λ b. record b { state = terminated }) (λ b. refl) t.sched.current_thread
    Leaves-call yielding =
        let (best, r, pick) = reschedule-IsPick fuel t.sched xs (omega arith) v.distinct v.chain in
        (
          [],
          record t { sched = switch_to t.sched best },
          xs,
          rw r,
          switch_to-IsLinked t best xs v,
          room,
          omega arith,
        )

Leaves-calls :
    (fuel : ℕ) (p : Platform) (cs : List Call) (t : Threads) (xs : List ℕ)
    → IsLinked t xs
    → length xs + free_slots t.used p.max_threads 0 ≤ fuel
    → Leaves fuel (free_slots t.used p.max_threads 0) p (calls fuel p cs t)
unfolding calls Option.bind
Leaves-calls fuel p [] t xs v room = ([], t, xs, refl, v, room, omega arith)
Leaves-calls fuel p (c ∷ cs) t xs v room =
    let (ids, t', ys, r, v', room', fewer) = Leaves-call fuel p t xs v room c in
    let (more, t'', zs, r', v'', room'', fewer') = Leaves-calls fuel p cs t' ys v' room' in
    (ids ++ more, t'', zs, rw r (rw r'), v'', room'', omega (arith, created-append ids more))

-- From any well-formed state, with fuel for the threads that are linked and those that may be
-- created, every sequence of creations, sleeps, exits and yields returns, leaves a well-formed state,
-- and creates no more threads than there were free control blocks, however many threads exit.
pub calls-created :
    (fuel : ℕ) (p : Platform) (cs : List Call) (t : Threads) (xs : List ℕ)
    → IsLinked t xs
    → length xs + free_slots t.used p.max_threads 0 ≤ fuel
    → (ids : List ℕ) × (t' : Threads) × (ys : List ℕ) × (calls fuel p cs t ≡ some (ids, t'))
      × IsLinked t' ys
      × (created ids ≤ free_slots t.used p.max_threads 0)
calls-created fuel p cs t xs v room =
    let (ids, t', ys, r, v', room', fewer) = Leaves-calls fuel p cs t xs v room in
    (ids, t', ys, r, v', omega arith)
