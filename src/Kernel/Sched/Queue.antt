-- ===== src/Kernel/Sched/Queue.antt =====
-- The ready list under `mp_sched_add_thread` and `mp_sched_remove_thread`.
use micro_posix.Prelude.{
  ℕ, refl, sym, subst, true, false, some, List, arith, ==-refl, length, ◌≤◌, ◌<◌, ◌≡◌, ◌∷◌,
}
use micro_posix.Prelude.Chain.{IsChain, has, IsDistinct, has-ne, IsChain-frame}
use micro_posix.Prelude.Chain.Remove.{IsRemoved, remove-IsRemoved}
use micro_posix.Kernel.Sched.{next, add_thread, ready_ops, remove_thread, Sched}

-- A thread that is not in the ready list becomes its first one.
pub add_thread-IsChain :
    (s : Sched) (c : ℕ) (xs : List ℕ)
    → has c xs ≡ false
    → IsChain (next s) s.ready_list xs
    → IsChain (next (add_thread s c)) (add_thread s c).ready_list (c ∷ xs)
unfolding add_thread
add_thread-IsChain s c xs out h = (
  refl,
  subst (λ p. IsChain (next (add_thread s c)) p xs) (sym head)
      (IsChain-frame (next s) (next (add_thread s c)) s.ready_list xs other h),
)
  where
    head : next (add_thread s c) c ≡ s.ready_list
    head = ground arith

    other : (a : ℕ) → has a xs ≡ true → next (add_thread s c) a ≡ next s a
    other a i = ground (arith, has-ne a c xs out i)

-- `mp_sched_remove_thread` takes exactly the given thread out of the ready list.
pub remove_thread-IsRemoved :
    (fuel c : ℕ) (xs : List ℕ) (s : Sched)
    → length xs ≤ fuel
    → IsDistinct xs
    → IsChain (next s) s.ready_list xs
    → (s' : Sched) × (remove_thread fuel s c ≡ some s') × IsRemoved ready_ops c xs s s'
unfolding remove_thread
remove_thread-IsRemoved = remove-IsRemoved ready_ops

-- A thread that is added and then removed leaves the ready list as it was, for any list of distinct
-- threads that does not hold it and fuel for all nodes.
pub remove_thread-add_thread :
    (fuel c : ℕ) (xs : List ℕ) (s : Sched)
    → length xs < fuel
    → IsDistinct xs
    → has c xs ≡ false
    → IsChain (next s) s.ready_list xs
    → (s' : Sched) × (remove_thread fuel (add_thread s c) c ≡ some s')
      × IsChain (next s') s'.ready_list xs
remove_thread-add_thread fuel c xs s l d out h =
    let (s', e, removed) =
      remove_thread-IsRemoved fuel c (c ∷ xs) (add_thread s c) l (out, d)
        (add_thread-IsChain s c xs out h) in
    (s', e, rw (==-refl c) at removed.0)
