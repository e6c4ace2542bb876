-- ===== src/Mm/Gc/Tests.antt =====
-- The theorems on the garbage collector at a collector with two young objects, at 64 and 128.
use micro_posix.Prelude.{
  ℕ, refl, subst, true, false, Option, none, some, [], arith, ◌≡◌, ◌∷◌, ◌==◌, if◌then◌else◌,
}
use micro_posix.Prelude.Chain.{IsChain}
use micro_posix.Run.{Returns, ret, fault}
use micro_posix.Mm.Gc.{Object, Gc}
use micro_posix.Mm.Gc.Collect.{collect_full, collect}
use micro_posix.Mm.Gc.Objects.{gc_alloc, gc_free, add_root}
use micro_posix.Mm.Gc.Runs.{collect-nothing, collect_full-fault}
use micro_posix.Mm.Gc.Roots.{next_of, add_root-young_list}
use micro_posix.Mm.Gc.Lifetime.{gc_free-gc_alloc, SameObjects}

abbrev object_with : (next prev : Option ℕ) → Object
object_with next prev = record {
  next = next;
  prev = prev;
  owned = true;
  ref_count = 1;
  marked = false;
  root = false;
  young = true;
  old = false;
  pinned = false;
  size = 16;
  generation = 0;
  has_finalizer = false;
}

abbrev two_objects : ℕ → Option Object
two_objects a =
    if a == 64
    then some (object_with (some 128) none)
    else if a == 128
    then some (object_with none (some 64))
    else none

abbrev gc : Gc
gc = record {
  store = two_objects;
  num_objects = 2;
  max_objects = 100;
  root_list = none;
  young_list = some 64;
  old_list = none;
  generation_counter = 0;
  use_generational = false;
  gc_running = false;
  gc_enabled = true;
  mark_stack = [];
  mark_stack_size = 100;
  stats = record {
    total_objects = 2;
    live_objects = 2;
    bytes_allocated = 112;
    bytes_freed = 0;
    gc_runs = 0;
    objects_collected = 0;
    bytes_collected = 0;
  };
  mallocs = some 256 ∷ [];
  finalized = [];
}

collect-nothing_example : collect 3 gc ≡ ret (0, gc)
collect-nothing_example = collect-nothing 3 gc

collect_full-fault_example : collect_full 3 gc ≡ fault
collect_full-fault_example =
    collect_full-fault 2 gc 64 (object_with (some 128) none) refl refl refl refl refl refl

add_root-young_list_example :
    Returns
      (λ (result, g).
        (result ≡ true)
        × IsChain (next_of g) g.root_list (64 ∷ [])
        × IsChain (next_of g) g.young_list (64 ∷ []))
      (add_root 64 gc)
add_root-young_list_example =
    add_root-young_list gc 64 (object_with (some 128) none) (128 ∷ []) [] refl refl
      (refl, (refl, refl)) refl refl (record {})

gc_free-gc_alloc_example :
    Returns (λ (p, g). (p ≡ some 256) × Returns (SameObjects gc) (gc_free 256 g)) (gc_alloc 3 8 gc)
gc_free-gc_alloc_example =
    gc_free-gc_alloc 3 8 256 [] gc (omega arith) refl refl (omega arith) (omega arith) first
  where
    first :
        (b : ℕ) → gc.young_list ≡ some b → (o : Object) × (gc.store b ≡ some o) × (o.prev ≡ none)
    first b e =
        let q : 64 ≡ b = cc in
        subst (λ c. (o : Object) × (gc.store c ≡ some o) × (o.prev ≡ none)) q
          (object_with (some 128) none, refl, refl)
