-- ===== src/Nrf54l15/Ipc/Semaphores.antt =====
-- The semaphores of platform/nrf54l15/shared/ipc.c over a sequence of calls, each in one piece, by
-- either core.
use micro_posix.Prelude.{
  ℕ, suc, refl, ap, inl, inr, List, [], arith, lt→ltb, ==_iff, ==-refl, Bool-cases, ◌+◌, ◌≤◌, ◌<◌,
  ◌≡◌, ◌∙◌, ◌∷◌, ◌==◌, if◌then◌else◌,
}
use micro_posix.Nrf54l15.Ipc.{
  event_set, semaphore_count, semaphore_give, try_take, semaphore_try_take, Ipc,
}

pub data Call : Type 0 where
  give : Call
  attempt : Call

-- How many of the attempts take the semaphore.
abbrev pub count_taken : (pause : Ipc → Ipc) (sem_id : ℕ) → List Call → Ipc → ℕ
count_taken pause sem_id [] s = 0
count_taken pause sem_id (give ∷ calls) s =
    count_taken pause sem_id calls (semaphore_give pause sem_id s)
count_taken pause sem_id (attempt ∷ calls) s =
    let (taken, s1) = semaphore_try_take sem_id s in
    (if taken then 1 else 0) + count_taken pause sem_id calls s1

abbrev pub count_given : List Call → ℕ
count_given [] = 0
count_given (give ∷ calls) = suc (count_given calls)
count_given (attempt ∷ calls) = count_given calls

abbrev pub is_set : ℕ → ℕ
is_set value = if value == 0 then 0 else 1

given :
    (pause : Ipc → Ipc) (sem_id : ℕ) (s : Ipc)
    → sem_id < semaphore_count
    → ((t : Ipc) → (pause t).semaphore sem_id ≡ t.semaphore sem_id)
    → (semaphore_give pause sem_id s).semaphore sem_id ≡ 1
unfolding semaphore_give event_set
given pause sem_id s lt keep =
    let here : (if sem_id == sem_id then 1 else s.semaphore sem_id) ≡ 1 =
      rw (==-refl sem_id) refl in
    rw (lt→ltb sem_id semaphore_count lt) (keep _ ∙ here)

-- An attempt takes what is there.
attempted :
    (sem_id : ℕ) (s : Ipc)
    → sem_id < semaphore_count
    → (if (semaphore_try_take sem_id s).0 then 1 else 0)
        + is_set ((semaphore_try_take sem_id s).1.semaphore sem_id)
      ≡ is_set (s.semaphore sem_id)
unfolding semaphore_try_take try_take
attempted sem_id s lt = elim (Bool-cases (s.semaphore sem_id == 0)) [
  | inl e ↦
      rw (lt→ltb sem_id semaphore_count lt, e)
        (let z = ap is_set {y = 0} ((==_iff (s.semaphore sem_id) 0).0 e) in omega (arith, z))
  | inr e ↦ rw (lt→ltb sem_id semaphore_count lt, e, ==-refl sem_id) refl
]

-- Attempts take a semaphore at most as often as it was set before and has been given since, over any
-- sequence of calls for it that do not overlap, where the pauses leave it alone.
pub count_taken_le :
    (pause : Ipc → Ipc) (sem_id : ℕ) (calls : List Call) (s : Ipc)
    → sem_id < semaphore_count
    → ((t : Ipc) → (pause t).semaphore sem_id ≡ t.semaphore sem_id)
    → count_taken pause sem_id calls s ≤ count_given calls + is_set (s.semaphore sem_id)
count_taken_le pause sem_id [] s lt keep = omega arith
count_taken_le pause sem_id (give ∷ calls) s lt keep =
    let s1 = semaphore_give pause sem_id s in
    let set = ap is_set (given pause sem_id s lt keep) in
    omega (arith, set, count_taken_le pause sem_id calls s1 lt keep)
count_taken_le pause sem_id (attempt ∷ calls) s lt keep =
    let s1 = (semaphore_try_take sem_id s).1 in
    omega (arith, attempted sem_id s lt, count_taken_le pause sem_id calls s1 lt keep)
