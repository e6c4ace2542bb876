-- ===== src/Kernel/Ipc/Blocked.antt =====
-- What becomes of a thread that a mutex or a semaphore has blocked.
use micro_posix.Prelude.{
  ℕ, sym, ap, subst, inl, inr, Option, none, some, ltb, Bool-cases, size_mod, map-eq-some, Status,
  ok, failed, ◌+◌, ◌%◌, ◌≡◌, ◌==◌,
}
use micro_posix.Kernel.Sched.{set_tcb, ptr_eq, reschedule, tick, Sched, blocked}
use micro_posix.Kernel.Ipc.{
  block_current, mutex_lock, count_down, mutex_unlock, sem_wait, sem_post, Mutex, Sem,
}
use micro_posix.Kernel.Sched.Blocked.{IsBlocked, tcb-reschedule, tick-IsBlocked}
use mathlib.Core.Option

-- A thread, the mutex and the semaphore of a run; each step is a call by the current thread, the
-- timer's tick, or a context switch, which the architecture's code makes to any thread.
pub record Kernel : Type 0 where
  pub sched : Sched
  pub mutex : Mutex
  pub sem : Sem

pub data Step (fuel : ℕ) (k k' : Kernel) : Type 0 where
  ticks_on :
      (memory : ℕ → ℕ) (s : Sched)
      → tick fuel memory k.sched ≡ some s
      → k' ≡ record k { sched = s }
      → Step fuel k k'
  reschedules :
      (s : Sched) → reschedule fuel k.sched ≡ some s → k' ≡ record k { sched = s } → Step fuel k k'
  switches :
      (c : Option ℕ)
      → k' ≡ record k { sched = record k.sched { current_thread = c } }
      → Step fuel k k'
  locks_mutex :
      (r : Status) (m : Mutex) (s : Sched)
      → mutex_lock fuel k.mutex k.sched ≡ some (r, m, s)
      → k' ≡ record k { sched = s; mutex = m }
      → Step fuel k k'
  unlocks_mutex :
      (r : Status) (m : Mutex) (s : Sched)
      → mutex_unlock fuel k.mutex k.sched ≡ some (r, m, s)
      → k' ≡ record k { sched = s; mutex = m }
      → Step fuel k k'
  waits :
      (m : Sem) (s : Sched)
      → sem_wait fuel k.sem k.sched ≡ some (m, s)
      → k' ≡ record k { sched = s; sem = m }
      → Step fuel k k'
  posts :
      (m : Sem) (s : Sched)
      → sem_post fuel k.sem k.sched ≡ some (m, s)
      → k' ≡ record k { sched = s; sem = m }
      → Step fuel k k'

pub data Reach (fuel : ℕ) (k : Kernel) : Kernel → Type 0 where
  here : Reach fuel k k
  next_step : {k1 k2 : Kernel} → Reach fuel k k1 → Step fuel k1 k2 → Reach fuel k k2

block_current-IsBlocked :
    (fuel c : ℕ) (cur : Option ℕ) (s s' : Sched)
    → block_current fuel cur s ≡ some s'
    → IsBlocked c s
    → IsBlocked c s'
unfolding block_current
block_current-IsBlocked fuel c none s s' e h = absurd (cc e)
block_current-IsBlocked fuel c (some d) s s' e h =
    subst (λ f. (f c).state ≡ blocked) (sym (tcb-reschedule fuel t s' e)) after
  where
    t : Sched
    t = set_tcb s d (record (s.tcb d) { state = blocked })

    after : IsBlocked c t
    after = elim (Bool-cases (c == d)) [ inl i ↦ rw i | inr i ↦ rw i h ]

-- The scheduler that stands third in a result.
third :
    {A B : Type 0} (a a' : A) (b b' : B) (s s' : Sched)
    → ◌≡◌ {A = Option (A × B × Sched)} (some (a, b, s)) (some (a', b', s'))
    → s ≡ s'
third a a' b b' s s' e = ap (λ t. t.2) (Option.some-injective _ _ e)

lock-IsBlocked :
    (fuel c : ℕ) (m m' : Mutex) (s s' : Sched) (r : Status)
    → mutex_lock fuel m s ≡ some (r, m', s')
    → IsBlocked c s
    → IsBlocked c s'
unfolding mutex_lock
lock-IsBlocked fuel c m m' s s' r e h = elim (Bool-cases (ptr_eq m.owner none)) [
  | inl free ↦ subst (IsBlocked c) (third ok r _ m' s s' (rw free at e)) h
  | inr taken ↦ elim (Bool-cases (ptr_eq m.owner s.current_thread)) [
    | inl own ↦ subst (IsBlocked c) (third ok r _ m' s s' (rw (taken, own) at e)) h
    | inr other ↦
        let (t, b, q) =
          map-eq-some (λ t. (ok, m, t)) (block_current fuel s.current_thread s) (r, m', s')
            (rw (taken, other) at e) in
        subst (IsBlocked c) (third ok r m m' t s' (ap some q))
          (block_current-IsBlocked fuel c s.current_thread s t b h)
  ]
]

unlock-IsBlocked :
    (fuel c : ℕ) (m m' : Mutex) (s s' : Sched) (r : Status)
    → mutex_unlock fuel m s ≡ some (r, m', s')
    → IsBlocked c s
    → IsBlocked c s'
unfolding mutex_unlock
unlock-IsBlocked fuel c m m' s s' r e h = elim (Bool-cases (ptr_eq m.owner s.current_thread)) [
  | inr other ↦ subst (IsBlocked c) (third failed r m m' s s' (rw other at e)) h
  | inl own ↦ elim (Bool-cases (count_down m.count == 0)) [
    | inr more ↦ subst (IsBlocked c) (third ok r _ m' s s' (rw (own, more) at e)) h
    | inl last ↦
        let (t, b, q) =
          map-eq-some (λ t. (ok, record m { count = 0; owner = none }, t)) (reschedule fuel s)
            (r, m', s') (rw (own, last) at e) in
        subst (λ z. (z.tcb c).state ≡ blocked) (third ok r _ m' t s' (ap some q))
          (subst (λ f. (f c).state ≡ blocked) (sym (tcb-reschedule fuel s t b)) h)
  ]
]

second : {A : Type 0} (a a' : A) (s s' : Sched) → ◌≡◌ {A = A × Sched} (a, s) (a', s') → s ≡ s'
second a a' s s' e = ap (λ t. t.1) e

wait-IsBlocked :
    (fuel c : ℕ) (m m' : Sem) (s s' : Sched)
    → sem_wait fuel m s ≡ some (m', s')
    → IsBlocked c s
    → IsBlocked c s'
unfolding sem_wait
wait-IsBlocked fuel c m m' s s' e h = elim (Bool-cases (ltb 0 m.count)) [
  | inl free ↦ subst (IsBlocked c) (second _ m' s s' (Option.some-injective _ _ (rw free at e))) h
  | inr empty ↦
      let (t, b, q) =
        map-eq-some (λ t. (m, t)) (block_current fuel s.current_thread s) (m', s')
          (rw empty at e) in
      subst (IsBlocked c) (second m m' t s' q)
        (block_current-IsBlocked fuel c s.current_thread s t b h)
]

post-IsBlocked :
    (fuel c : ℕ) (m m' : Sem) (s s' : Sched)
    → sem_post fuel m s ≡ some (m', s')
    → IsBlocked c s
    → IsBlocked c s'
unfolding sem_post
post-IsBlocked fuel c m m' s s' e h =
    let (t, b, q) =
      map-eq-some (λ t. (record m { count = (m.count + 1) % size_mod }, t)) (reschedule fuel s)
        (m', s') e in
    subst (IsBlocked c) (second _ m' t s' q)
      (subst (λ f. (f c).state ≡ blocked) (sym (tcb-reschedule fuel s t b)) h)

Step-IsBlocked :
    (fuel c : ℕ) {k k' : Kernel} → Step fuel k k' → IsBlocked c k.sched → IsBlocked c k'.sched
Step-IsBlocked fuel c {k} (ticks_on memory s e q) h =
    rw q (tick-IsBlocked fuel c memory k.sched s e h)
Step-IsBlocked fuel c {k} (reschedules s e q) h =
    rw q (subst (λ f. (f c).state ≡ blocked) (sym (tcb-reschedule fuel k.sched s e)) h)
Step-IsBlocked fuel c (switches d q) h = rw q h
Step-IsBlocked fuel c {k} (locks_mutex r m s e q) h =
    rw q (lock-IsBlocked fuel c k.mutex m k.sched s r e h)
Step-IsBlocked fuel c {k} (unlocks_mutex r m s e q) h =
    rw q (unlock-IsBlocked fuel c k.mutex m k.sched s r e h)
Step-IsBlocked fuel c {k} (waits m s e q) h = rw q (wait-IsBlocked fuel c k.sem m k.sched s e h)
Step-IsBlocked fuel c {k} (posts m s e q) h = rw q (post-IsBlocked fuel c k.sem m k.sched s e h)

-- A thread that is blocked stays blocked, through any number of ticks,
-- reschedules, context switches, locks, unlocks, waits and posts.
pub Reach-IsBlocked :
    (fuel c : ℕ) {k k' : Kernel} → Reach fuel k k' → IsBlocked c k.sched → IsBlocked c k'.sched
Reach-IsBlocked fuel c here h = h
Reach-IsBlocked fuel c (next_step r s) h = Step-IsBlocked fuel c s (Reach-IsBlocked fuel c r h)
