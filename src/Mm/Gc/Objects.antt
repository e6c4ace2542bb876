-- ===== src/Mm/Gc/Objects.antt =====
-- The functions of src/mm/gc.c on objects. The argument `a` is the object's address, whose data the
-- caller points to.
use micro_posix.Prelude.{
  ℕ, zero, suc, Bool, true, false, Option, none, some, leb, drop, ◌-◌, ◌&&◌, ◌==◌, if◌then◌else◌,
}
use micro_posix.Run.{Run, ret, hang, ◌>>=◌}
use micro_posix.Mm.Gc.{
  header_size, plus32, minus32, load, put_object, update, update_if, set_next, set_prev,
  free_object, when_owned, total_size, finalize, set_head, no_stats, next_malloc, Object, Gc,
  young_ones, old_ones,
}
use micro_posix.Mm.Gc.Collect.{collect_full, collect}

abbrev pub new_object : (size : ℕ) (has_finalizer : Bool) → Gc → Object
new_object size has_finalizer g = record {
  next = g.young_list;
  prev = none;
  owned = true;
  ref_count = 1;
  marked = false;
  root = false;
  young = true;
  old = false;
  pinned = false;
  size = size;
  generation = g.generation_counter;
  has_finalizer = has_finalizer;
}

abbrev pub count_new : (size : ℕ) → Gc → Gc
count_new size g =
    let s = g.stats in
    record g {
      num_objects = plus32 g.num_objects 1;
      stats = record s {
        total_objects = plus32 s.total_objects 1;
        live_objects = plus32 s.live_objects 1;
        bytes_allocated = plus32 s.bytes_allocated (plus32 header_size size);
      };
    }

-- The end of `mp_gc_alloc_with_finalizer`, with memory for the object.
unfoldable pub link_new : (size : ℕ) (has_finalizer : Bool) (a : ℕ) → Gc → Run (Option ℕ × Gc)
link_new size has_finalizer a g =
    update_if g.young_list (set_prev (some a))
      (put_object a (some (new_object size has_finalizer g)) g)
    >>= λ g1. ret (some a, count_new size (set_head young_ones (some a) g1))

abbrev pub take_malloc : Gc → Option ℕ × Gc
take_malloc g = (next_malloc g.mallocs, record g { mallocs = drop 1 g.mallocs })

-- After a `malloc` that has failed: a collection and one more, if the collector is enabled.
unfoldable pub retry_malloc : (fuel : ℕ) → Gc → Run (Option ℕ × Gc)
retry_malloc fuel g =
    let again = collect_full fuel g >>= λ (collected, g1). ret (take_malloc g1) in
    if g.gc_enabled then again else ret (none, g)

unfoldable pub linked : (size : ℕ) (has_finalizer : Bool) → Option ℕ × Gc → Run (Option ℕ × Gc)
linked size has_finalizer (none, g) = ret (none, g)
linked size has_finalizer (some a, g) = link_new size has_finalizer a g

unfoldable pub first_malloc : (fuel : ℕ) → Option ℕ × Gc → Run (Option ℕ × Gc)
first_malloc fuel (some a, g) = ret (some a, g)
first_malloc fuel (none, g) = retry_malloc fuel g

-- `mp_gc_alloc_with_finalizer`, and `mp_gc_alloc` without a finalizer.
unfoldable pub alloc_with_finalizer :
    (fuel size : ℕ) (has_finalizer : Bool) → Gc → Run (Option ℕ × Gc)
alloc_with_finalizer fuel size has_finalizer g =
    let full = g.gc_enabled && leb g.max_objects g.num_objects in
    let first = if full then collect fuel g else ret (0, g) in
    let run = first >>= λ (collected, g1).
    first_malloc fuel (take_malloc g1) >>= λ r. linked size has_finalizer r in
    if size == 0 then ret (none, g) else run

unfoldable pub gc_alloc : (fuel size : ℕ) → Gc → Run (Option ℕ × Gc)
gc_alloc fuel size g = alloc_with_finalizer fuel size false g

-- A list's pointers around an object that is taken out.
unfoldable pub unlink_object : (head' : Option ℕ → Gc → Gc) → Object → Gc → Run Gc
unlink_object head' o g =
    elim o.prev [ none ↦ ret (head' o.next g) | some p ↦ update p (set_next o.next) g ] >>= λ g1.
    update_if o.next (set_prev o.prev) g1

abbrev pub count_freed : (total : ℕ) → Gc → Gc
count_freed total g =
    let s = g.stats in
    record g {
      num_objects = minus32 g.num_objects 1;
      stats = record s {
        live_objects = minus32 s.live_objects 1;
        bytes_freed = plus32 s.bytes_freed total;
      };
    }

-- `mp_gc_free`
unfoldable pub gc_free : (a : ℕ) → Gc → Run Gc
gc_free a g =
    when_owned a (λ g1. ret g1)
      (λ o.
        unlink_object (set_head (if o.young then young_ones else old_ones)) o (finalize a o g)
        >>= λ g1. total_size a g1 >>= λ n. ret (free_object a (count_freed n g1)))
      g

unfoldable pub incref : (a : ℕ) → Gc → Run Gc
incref a g =
    when_owned a (λ g1. ret g1)
      (λ o. ret (put_object a (some (record o { ref_count = plus32 o.ref_count 1 })) g)) g

unfoldable pub decref : (a : ℕ) → Gc → Run Gc
decref a g =
    when_owned a (λ g1. ret g1)
      (λ o.
        let lower = put_object a (some (record o { ref_count = o.ref_count - 1 })) g in
        if o.ref_count == 0 then ret g else if o.ref_count == 1 then gc_free a lower else ret lower)
      g

unfoldable pub get_refcount : (a : ℕ) → Gc → Run ℕ
get_refcount a g = when_owned a (λ g1. ret 0) (λ o. ret o.ref_count) g

-- `mp_gc_add_root`, which links the object into the list of roots by the same fields as into its list;
-- the result is whether the code returns 0.
unfoldable pub add_root : (a : ℕ) → Gc → Run (Bool × Gc)
add_root a g =
    when_owned a (λ g1. ret (false, g1))
      (λ o.
        update_if g.root_list (set_prev (some a))
          (put_object a (some (record o { root = true; next = g.root_list })) g)
        >>= λ g1.
            update a (set_prev none) (record g1 { root_list = some a }) >>= λ g2. ret (true, g2))
      g

abbrev pub set_root_list : Option ℕ → Gc → Gc
set_root_list p g = record g { root_list = p }

-- `mp_gc_remove_root`
unfoldable pub remove_root : (a : ℕ) → Gc → Run Gc
remove_root a g =
    when_owned a (λ g1. ret g1)
      (λ o.
        unlink_object set_root_list (record o { root = false })
          (put_object a (some (record o { root = false })) g)
        >>= λ g1. update a (λ o1. record o1 { prev = none; next = none }) g1)
      g

unfoldable pub set_pinned : Bool → (a : ℕ) → Gc → Run Gc
set_pinned b a g =
    when_owned a (λ g1. ret g1) (λ o. ret (put_object a (some (record o { pinned = b })) g)) g

unfoldable pub is_pinned : (a : ℕ) → Gc → Run Bool
is_pinned a g = when_owned a (λ g1. ret false) (λ o. ret o.pinned) g

unfoldable pub is_gc_object : (a : ℕ) → Gc → Run Bool
is_gc_object a g = load a g >>= λ o. ret o.owned

unfoldable pub get_size : (a : ℕ) → Gc → Run ℕ
get_size a g = when_owned a (λ g1. ret 0) (λ o. ret o.size) g

unfoldable pub set_auto : Bool → Gc → Gc
set_auto b g = record g { gc_enabled = b }

unfoldable pub reset_stats : Gc → Gc
reset_stats g = record g { stats = no_stats }

-- The loops of `mp_gc_validate`.
unfoldable pub count_list : (fuel : ℕ) → Option ℕ → Gc → Run ℕ
count_list fuel none g = ret 0
count_list zero (some a) g = hang
count_list (suc fuel) (some a) g = load a g >>= λ o. count_list fuel o.next g >>= λ n. ret (suc n)

unfoldable pub validate : (fuel : ℕ) → Gc → Run Bool
validate fuel g =
    let counted = count_list fuel g.young_list g >>= λ n. count_list fuel g.old_list g >>= λ m.
    count_list fuel g.root_list g >>= λ k. ret (plus32 (plus32 n m) k == g.num_objects) in
    if g.gc_running then ret false else counted
