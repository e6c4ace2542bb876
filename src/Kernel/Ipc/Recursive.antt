-- ===== src/Kernel/Ipc/Recursive.antt =====
-- Recursive locking, and who owns a mutex.
use micro_posix.Prelude.{
  ℕ, zero, suc, refl, ap, true, false, Option, none, some, List, [], arith, ==-refl, Status, ok,
  ◌+◌, ◌-◌, ◌%◌, ◌<◌, ◌≡◌, ◌∙◌, ◌∷◌, ◌==◌,
}
use micro_posix.Kernel.Sched.{ptr_eq, reschedule, Sched}
use micro_posix.Kernel.Ipc.{mutex_lock, count_down, mutex_unlock, Mutex}
use mathlib.Core.Option

ptr_eq_self : (p : Option ℕ) → ptr_eq p p ≡ true
ptr_eq_self none = refl
ptr_eq_self (some a) = ==-refl a

-- What a sequence of calls leaves: what each returned and left of the mutex, in order, and the state
-- behind the last.
abbrev pub Called : Type 0
Called = List (Status × Mutex) × Mutex × Sched

-- A call in front of others.
abbrev pub and_then : (Mutex → Sched → Option Called) → Status × Mutex × Sched → Option Called
and_then rest (status, m, s) =
    Option.map (λ (results, m', s'). ((status, m) ∷ results, m', s')) (rest m s)

-- `n` calls in a row by the current thread.
unfoldable pub locks : (fuel n : ℕ) → Mutex → Sched → Option Called
locks fuel zero m s = some ([], m, s)
locks fuel (suc n) m s = Option.bind (mutex_lock fuel m s) (and_then (locks fuel n))

unfoldable pub unlocks : (fuel n : ℕ) → Mutex → Sched → Option Called
unlocks fuel zero m s = some ([], m, s)
unlocks fuel (suc n) m s = Option.bind (mutex_unlock fuel m s) (and_then (unlocks fuel n))

-- A mutex that its owner, the current thread `c`, holds `k` times.
abbrev pub held : Mutex → ℕ → ℕ → Mutex
held m c k = record m { owner = some c; count = k }

-- `n` locks by the owner from the count `k` on: each returns 0 and adds one in eight bits.
unfoldable pub counting_up : Mutex → (c k n : ℕ) → List (Status × Mutex)
counting_up m c k zero = []
counting_up m c k (suc n) = (ok, held m c ((k + 1) % 256)) ∷ counting_up m c ((k + 1) % 256) n

-- `n + 1` unlocks by the owner from the count `n + 1` on: each returns 0, and only the last gives the
-- mutex up.
unfoldable pub counting_down : Mutex → (c n : ℕ) → List (Status × Mutex)
counting_down m c zero = (ok, record m { owner = none; count = 0 }) ∷ []
counting_down m c (suc n) = (ok, held m c (suc n)) ∷ counting_down m c n

lock-held :
    (fuel c k : ℕ) (m : Mutex) (s : Sched)
    → s.current_thread ≡ some c
    → mutex_lock fuel (held m c k) s ≡ some (ok, held m c ((k + 1) % 256), s)
unfolding mutex_lock
lock-held fuel c k m s cur = rw (cur, ==-refl c)

locks-held :
    (fuel c n k : ℕ) (m : Mutex) (s : Sched)
    → s.current_thread ≡ some c
    → k < 256
    → locks fuel n (held m c k) s ≡ some (counting_up m c k n, held m c ((k + n) % 256), s)
unfolding locks counting_up Option.bind
locks-held fuel c zero k m s cur lt = ap (λ j. some ([], held m c j, s)) (omega arith)
locks-held fuel c (suc n) k m s cur lt = rw (lock-held fuel c k m s cur) (
    ap (Option.map (λ (results, m', s'). ((ok, held m c ((k + 1) % 256)) ∷ results, m', s')))
      (locks-held fuel c n ((k + 1) % 256) m s cur (omega arith))
    ∙ ap
        (λ j.
          some ((ok, held m c ((k + 1) % 256)) ∷ counting_up m c ((k + 1) % 256) n, held m c j, s))
        (omega arith))

unlock-held :
    (fuel c k : ℕ) (m : Mutex) (s : Sched)
    → s.current_thread ≡ some c
    → 1 < k
    → k < 256
    → mutex_unlock fuel (held m c k) s ≡ some (ok, held m c (k - 1), s)
unfolding mutex_unlock
unlock-held fuel c k m s cur one lt = rw (cur, ==-refl c) (rw (more, down))
  where
    down : count_down k ≡ k - 1
    down = omega arith

    more : (count_down k == 0) ≡ false
    more = ground arith

-- The last unlock gives the mutex up and reschedules.
unlock-last :
    (fuel c : ℕ) (m : Mutex) (s s' : Sched)
    → s.current_thread ≡ some c
    → reschedule fuel s ≡ some s'
    → mutex_unlock fuel (held m c 1) s ≡ some (ok, record m { owner = none; count = 0 }, s')
unfolding mutex_unlock
unlock-last fuel c m s s' cur r =
    let hit : ptr_eq (some c) s.current_thread ≡ true = rw cur (==-refl c) in rw (hit, r)

unlocks-held :
    (fuel c n : ℕ) (m : Mutex) (s s' : Sched)
    → s.current_thread ≡ some c
    → n < 255
    → reschedule fuel s ≡ some s'
    → unlocks fuel (suc n) (held m c (suc n)) s
      ≡ some (counting_down m c n, record m { owner = none; count = 0 }, s')
unfolding unlocks counting_down Option.bind
unlocks-held fuel c zero m s s' cur lt r = rw (unlock-last fuel c m s s' cur r)
unlocks-held fuel c (suc n) m s s' cur lt r =
    rw (unlock-held fuel c (suc (suc n)) m s cur (omega arith) (omega arith), suc-sub-one)
      (ap (Option.map (λ (results, m', t). ((ok, held m c (suc n)) ∷ results, m', t)))
        (unlocks-held fuel c n m s s' cur (omega arith) r))
  where
    suc-sub-one : suc (suc n) - 1 ≡ suc n
    suc-sub-one = omega arith

lock-free :
    (fuel c : ℕ) (m : Mutex) (s : Sched)
    → s.current_thread ≡ some c
    → m.owner ≡ none
    → mutex_lock fuel m s ≡ some (ok, held m c 1, s)
unfolding mutex_lock
lock-free fuel c m s cur free =
    let hit : ptr_eq m.owner none ≡ true = rw free in
    rw hit (ap (λ p. some (ok, record m { owner = p; count = 1 }, s)) cur)

-- `n` calls of `pthread_mutex_lock` on a free mutex by the current thread all return 0 and leave it the
-- owner with the count `n` in eight bits; so the count is exact for at most 255 calls.
pub locks-free :
    (fuel c n : ℕ) (m : Mutex) (s : Sched)
    → s.current_thread ≡ some c
    → m.owner ≡ none
    → locks fuel (suc n) m s ≡ some (counting_up m c 0 (suc n), held m c (suc n % 256), s)
unfolding locks counting_up Option.bind
locks-free fuel c n m s cur free = rw (lock-free fuel c m s cur free) (
    ap (Option.map (λ (results, m', s'). ((ok, held m c 1) ∷ results, m', s')))
      (locks-held fuel c n 1 m s cur (omega arith))
    ∙ ap (λ j. some ((ok, held m c 1) ∷ counting_up m c 1 n, held m c j, s)) (omega arith))

-- From 1 to 255 locks of a free mutex by the current thread, then as many unlocks: every call returns
-- 0, the count goes up by one with each lock and down by one with each unlock, and the thread owns the
-- mutex up to the last unlock, which leaves it free with count 0 and everything else as one call of
-- `mp_sched_reschedule` leaves it.
pub unlocks-locks :
    (fuel c n : ℕ) (m : Mutex) (s s' : Sched)
    → s.current_thread ≡ some c
    → m.owner ≡ none
    → n < 255
    → reschedule fuel s ≡ some s'
    → (locks fuel (suc n) m s ≡ some (counting_up m c 0 (suc n), held m c (suc n), s))
      × (unlocks fuel (suc n) (held m c (suc n)) s
          ≡ some (counting_down m c n, record m { owner = none; count = 0 }, s'))
unlocks-locks fuel c n m s s' cur free lt r = (
  locks-free fuel c n m s cur free
      ∙ ap (λ k. some (counting_up m c 0 (suc n), held m c k, s)) (omega arith),
  unlocks-held fuel c n m s s' cur lt r,
)

-- The 256th lock of a free mutex by the current thread returns 0 and wraps the count to 0, with the
-- thread still the owner; the unlock that follows returns 0 and does not free the mutex, but sets the
-- count to 255.
pub unlock-wrapped :
    (fuel c : ℕ) (m : Mutex) (s : Sched)
    → s.current_thread ≡ some c
    → m.owner ≡ none
    → (locks fuel 256 m s ≡ some (counting_up m c 0 256, held m c 0, s))
      × (mutex_unlock fuel (held m c 0) s ≡ some (ok, held m c 255, s))
unfolding mutex_unlock
unlock-wrapped fuel c m s cur free = (locks-free fuel c 255 m s cur free, rw (cur, ==-refl c))
