-- ===== src/Mm/Gc/Runs.antt =====
-- What the collections of src/mm/gc.c come to.
use micro_posix.Prelude.{ℕ, suc, refl, ap, Bool, true, false, none, some, ◌≡◌}
use micro_posix.Run.{ret, fault, ◌>>=◌}
use micro_posix.Mm.Gc.{
  header_size, plus32, free_object, total_size, finalize, set_head, Object, Gc, Generation,
  young_ones,
}
use micro_posix.Mm.Gc.Memory.{store-put_object}
use micro_posix.Mm.Gc.Collect.{
  mark_roots, process_mark_stack, mark_phase, sweep_object, sweep_list, sweep_phase, collect_full,
  collect_young, collect, Swept,
}

-- `collect` never collects anything: whatever the collector's state, it returns 0 and leaves the state
-- as it is, since the collection that it starts finds `gc_running` set and gives up.
pub collect-nothing : (fuel : ℕ) (g : Gc) → collect fuel g ≡ ret (0, g)
unfolding collect collect_full collect_young
collect-nothing fuel g = cases g.gc_enabled g.gc_running g.use_generational refl refl refl
  where
    cases :
        (e r u : Bool)
        → g.gc_enabled ≡ e
        → g.gc_running ≡ r
        → g.use_generational ≡ u
        → collect fuel g ≡ ret (0, g)
    cases false r u p q s = rw p refl
    cases true true u p q s = rw (p, q) refl
    cases true false true p q s = rw (p, q, s) refl
    cases true false false p q s = rw (p, q, s) refl

-- The size of an object that is freed cannot be read.
total_size-free_object : (a : ℕ) (g : Gc) → total_size a (free_object a g) ≡ fault
unfolding total_size
total_size-free_object a g =
    ap (λ p. elim p [ none ↦ fault | some o ↦ ret o ] >>= λ o. ret (plus32 o.size header_size))
      (store-put_object a none g)

sweep_object-fault :
    (which : Generation) (a : ℕ) (o : Object) (s : Swept) → sweep_object which none a o s ≡ fault
unfolding sweep_object
sweep_object-fault which a o s =
    rw (total_size-free_object a (set_head which o.next (finalize a o s.gc))) refl

-- A full collection with an object to free does not come to its end: where there is no root, and the
-- first object of the young list is allocated and not marked, it reads the size of that object after it
-- is freed.
pub collect_full-fault :
    (fuel : ℕ) (g : Gc) (a : ℕ) (o : Object)
    → g.gc_enabled ≡ true
    → g.gc_running ≡ false
    → g.root_list ≡ none
    → g.young_list ≡ some a
    → g.store a ≡ some o
    → o.marked ≡ false
    → collect_full (suc fuel) g ≡ fault
unfolding collect_full mark_phase mark_roots process_mark_stack sweep_phase sweep_list
collect_full-fault fuel g a o on idle no_root first there garbage =
    rw
      (
        on,
        idle,
        no_root,
        first,
        there,
        garbage,
        sweep_object-fault young_ones a (record o { marked = false }) _,
      )
      refl
