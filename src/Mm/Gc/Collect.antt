-- ===== src/Mm/Gc/Collect.antt =====
-- Marking, sweeping and promoting: `mark_object` to `promote_young` of src/mm/gc.c, and the functions
-- that collect. The loops over lists are given fuel; a list that is a ring makes them hang.
use micro_posix.Prelude.{
  ℕ, zero, suc, Bool, true, false, not, Option, none, some, [], ltb, length, ◌&&◌, ◌||◌, ◌∷◌,
  if◌then◌else◌,
}
use micro_posix.Run.{Run, ret, hang, ◌>>=◌}
use micro_posix.Mm.Gc.{
  plus32, minus32, load, put_object, update, update_if, set_next, set_prev, free_object, total_size,
  finalize, set_head, Object, Gc, Generation, young_ones, old_ones,
}

abbrev mark : Object → Object
mark o = record o { marked = true }

abbrev unmark : Object → Object
unmark o = record o { marked = false }

unfoldable pub mark_object : ℕ → Gc → Run Gc
mark_object a g = load a g >>= λ o.
    let g1 = put_object a (some (mark o)) g in
    let s = g.stats in
    let g2 = record g1 { stats = record s { objects_collected = minus32 s.objects_collected 1 } } in
    if o.marked
    then ret g
    else ret (
        if ltb (length g.mark_stack) g.mark_stack_size
        then record g2 { mark_stack = a ∷ g.mark_stack }
        else g2)

-- `while (root) { mark_object(gc, root); root = root->next; }`; with `only_young` a root is passed over
-- that is not young.
unfoldable pub mark_roots : (fuel : ℕ) (only_young : Bool) → Option ℕ → Gc → Run Gc
mark_roots fuel only_young none g = ret g
mark_roots zero only_young (some a) g = hang
mark_roots (suc fuel) only_young (some a) g = load a g >>= λ o.
    (if only_young && not o.young then ret g else mark_object a g) >>= λ g1.
    load a g1 >>= λ o1. mark_roots fuel only_young o1.next g1

-- The stack is only emptied.
unfoldable pub process_mark_stack : Gc → Gc
process_mark_stack g = record g { mark_stack = [] }

unfoldable pub mark_phase : (fuel : ℕ) → Gc → Run Gc
mark_phase fuel g = mark_roots fuel false g.root_list g >>= λ g1. ret (process_mark_stack g1)

-- What a sweep has freed so far.
pub record Swept : Type 0 where
  pub collected : ℕ
  pub bytes : ℕ
  pub gc : Gc

abbrev unlink : Generation → (prev next : Option ℕ) → Gc → Run Gc
unlink which none next g = ret (set_head which next g)
unlink which (some p) next g = update p (set_next next) g

-- The body of the loop for an object that is not marked. Its size is read after it is freed.
unfoldable pub sweep_object : Generation → (prev : Option ℕ) (a : ℕ) → Object → Swept → Run Swept
sweep_object which prev a o s = unlink which prev o.next (finalize a o s.gc) >>= λ g1.
    let g2 = free_object a g1 in
    total_size a g2 >>= λ n. ret (record {
      collected = plus32 s.collected 1;
      bytes = plus32 s.bytes n;
      gc = record g2 { num_objects = minus32 g2.num_objects 1 };
    })

unfoldable pub sweep_list : (fuel : ℕ) → Generation → (prev cur : Option ℕ) → Swept → Run Swept
sweep_list fuel which prev none s = ret s
sweep_list zero which prev (some a) s = hang
sweep_list (suc fuel) which prev (some a) s = load a s.gc >>= λ o.
    let swept = sweep_object which prev a o s >>= λ s'. sweep_list fuel which prev o.next s' in
    let kept =
      sweep_list fuel which (some a) o.next
        (record s { gc = put_object a (some (unmark o)) s.gc }) in
    if o.marked then kept else swept

abbrev add_swept : Swept → Gc
add_swept s =
    let g = s.gc in
    let t = g.stats in
    record g {
      stats = record t {
        objects_collected = s.collected;
        bytes_collected = s.bytes;
        bytes_freed = plus32 t.bytes_freed s.bytes;
      };
    }

unfoldable pub sweep_phase : (fuel : ℕ) → Gc → Run (ℕ × Gc)
sweep_phase fuel g =
    sweep_list fuel young_ones none g.young_list (record { collected = 0; bytes = 0; gc = g })
    >>= λ s.
        sweep_list fuel old_ones none s.gc.old_list s >>= λ s'. ret (s'.collected, add_swept s')

abbrev grow_old : ℕ → Object → Object
grow_old generation o = record o { young = false; old = true; generation = generation }

-- `prev` is NULL in each round of the loop: the young list loses its head each time.
unfoldable pub promote_young : (fuel : ℕ) → Option ℕ → Gc → Run Gc
promote_young fuel none g = ret g
promote_young zero (some a) g = hang
promote_young (suc fuel) (some a) g = load a g >>= λ o.
    update a (λ o1. set_next g.old_list (grow_old g.generation_counter o1))
      (set_head young_ones o.next g)
    >>= λ g1. update_if g1.old_list (set_prev (some a)) g1 >>= λ g2.
        update a (set_prev none) (set_head old_ones (some a) g2) >>= λ g3.
        promote_young fuel o.next g3

abbrev start_run : Gc → Gc
start_run g =
    let s = g.stats in
    record g { gc_running = true; stats = record s { gc_runs = plus32 s.gc_runs 1 } }

abbrev end_run : Gc → Gc
end_run g =
    let s = g.stats in
    record g { gc_running = false; stats = record s { live_objects = g.num_objects } }

-- `mp_gc_collect_full`
unfoldable pub collect_full : (fuel : ℕ) → Gc → Run (ℕ × Gc)
collect_full fuel g =
    let run = mark_phase fuel (start_run g) >>= λ g1. sweep_phase fuel g1 >>= λ (collected, g2).
    ret (collected, end_run (record g2 { generation_counter = plus32 g2.generation_counter 1 })) in
    if not g.gc_enabled || g.gc_running then ret (0, g) else run

-- `mp_gc_collect_young`
unfoldable pub collect_young : (fuel : ℕ) → Gc → Run (ℕ × Gc)
collect_young fuel g =
    let run = mark_roots fuel true g.root_list (start_run g) >>= λ g1.
    sweep_list fuel young_ones none g1.young_list
      (record { collected = 0; bytes = 0; gc = process_mark_stack g1 })
    >>= λ s. promote_young fuel s.gc.young_list s.gc >>= λ g2.
        ret (s.collected, end_run (add_swept (record s { gc = g2 }))) in
    if not g.gc_enabled || g.gc_running then ret (0, g) else run

-- `mp_gc_collect`
unfoldable pub collect : (fuel : ℕ) → Gc → Run (ℕ × Gc)
collect fuel g =
    let running = record g { gc_running = true } in
    let which =
      if g.use_generational then collect_young fuel running else collect_full fuel running in
    let run = which >>= λ (collected, g1). ret (collected, record g1 { gc_running = false }) in
    if not g.gc_enabled || g.gc_running then ret (0, g) else run

-- `mp_gc_destroy`: what is left of the collector once its memory is freed.
unfoldable pub destroy : (fuel : ℕ) → Gc → Run Gc
destroy fuel g =
    collect_full fuel g >>= λ (collected, g1). ret (record g1 { num_objects = 0; max_objects = 0 })
