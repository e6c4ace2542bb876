-- ===== src/Mm/Gc.antt =====
-- The garbage collector of src/mm/gc.c and include/microposix/mm/gc.h: its state, and the objects in
-- memory. A fault is the use of memory that is freed or was never given.
pub mod Collect
pub mod Memory
pub mod Objects
pub mod Runs
pub mod Roots
pub mod Lifetime
mod Tests
use micro_posix.Prelude.{
  ℕ, Bool, true, false, Option, none, some, List, [], ltb, size_mod, drop, ◌+◌, ◌-◌, ◌/◌, ◌%◌, ◌∷◌,
  ◌++◌, ◌==◌, if◌then◌else◌,
}
use micro_posix.Run.{Run, ret, fault, ◌>>=◌}

-- `mp_gc_object_t`. `owned` says that its field `gc` is the collector; the bits of `flags` are fields
-- of their own. Only whether there is a finalizer is kept.
pub record Object : Type 0 where
  pub next : Option ℕ
  pub prev : Option ℕ
  pub owned : Bool
  pub ref_count : ℕ
  pub marked : Bool
  pub root : Bool
  pub young : Bool
  pub old : Bool
  pub pinned : Bool
  pub size : ℕ
  pub generation : ℕ
  pub has_finalizer : Bool

-- `mp_gc_stats_t`, without the fields that no code writes.
pub record GcStats : Type 0 where
  pub total_objects : ℕ
  pub live_objects : ℕ
  pub bytes_allocated : ℕ
  pub bytes_freed : ℕ
  pub gc_runs : ℕ
  pub objects_collected : ℕ
  pub bytes_collected : ℕ

-- `mp_gc_t`. An object is named by the address of its header; `store` has those that are allocated.
-- `mark_stack` holds the first `mark_stack_pos` entries, the last first. `mallocs` are the results of
-- the calls of `malloc` to come, NULL beyond the list, and `finalized` the objects whose finalizer has
-- been called, which does not touch the collector. The array `objects` is only written to.
pub record Gc : Type 0 where
  pub store : ℕ → Option Object
  pub num_objects : ℕ
  pub max_objects : ℕ
  pub root_list : Option ℕ
  pub young_list : Option ℕ
  pub old_list : Option ℕ
  pub generation_counter : ℕ
  pub use_generational : Bool
  pub gc_running : Bool
  pub gc_enabled : Bool
  pub mark_stack : List ℕ
  pub mark_stack_size : ℕ
  pub stats : GcStats
  pub mallocs : List (Option ℕ)
  pub finalized : List ℕ

-- `sizeof(mp_gc_object_t)` where pointers have 4 bytes.
abbrev pub header_size : ℕ
header_size = 40

abbrev pub plus32 : ℕ → ℕ → ℕ
plus32 a b = (a + b) % size_mod

abbrev pub minus32 : ℕ → ℕ → ℕ
minus32 a b = (a + (size_mod - b)) % size_mod

abbrev pub load : ℕ → Gc → Run Object
load a g = elim (g.store a) [ none ↦ fault | some o ↦ ret o ]

abbrev pub put_object : ℕ → Option Object → Gc → Gc
put_object a o g = record g { store = λ b. if b == a then o else g.store b }

-- A write to fields of an object.
abbrev pub update : ℕ → (Object → Object) → Gc → Run Gc
update a f g = load a g >>= λ o. ret (put_object a (some (f o)) g)

-- The same where the pointer is not NULL.
abbrev pub update_if : Option ℕ → (Object → Object) → Gc → Run Gc
update_if none f g = ret g
update_if (some a) f g = update a f g

abbrev pub set_next : Option ℕ → Object → Object
set_next p o = record o { next = p }

abbrev pub set_prev : Option ℕ → Object → Object
set_prev p o = record o { prev = p }

abbrev pub free_object : ℕ → Gc → Gc
free_object a g = put_object a none g

-- What a call on an object of this collector does, and what it gives on one of another.
abbrev pub when_owned : {A : Type 0} → ℕ → (Gc → Run A) → (Object → Run A) → Gc → Run A
when_owned a other f g = load a g >>= λ o. let mine = f o in if o.owned then mine else other g

-- `get_gc_total_size`
unfoldable pub total_size : ℕ → Gc → Run ℕ
total_size a g = load a g >>= λ o. ret (plus32 o.size header_size)

unfoldable pub finalize : ℕ → Object → Gc → Gc
finalize a o g = if o.has_finalizer then record g { finalized = g.finalized ++ a ∷ [] } else g

-- The two lists of objects.
pub data Generation : Type 0 where
  young_ones old_ones : Generation

abbrev pub head : Generation → Gc → Option ℕ
head young_ones g = g.young_list
head old_ones g = g.old_list

abbrev pub set_head : Generation → Option ℕ → Gc → Gc
set_head young_ones p g = record g { young_list = p }
set_head old_ones p g = record g { old_list = p }

unfoldable pub no_stats : GcStats
no_stats = record {
  total_objects = 0;
  live_objects = 0;
  bytes_allocated = 0;
  bytes_freed = 0;
  gc_runs = 0;
  objects_collected = 0;
  bytes_collected = 0;
}

abbrev pub next_malloc : List (Option ℕ) → Option ℕ
next_malloc [] = none
next_malloc (p ∷ ps) = p

-- `mp_gc_init`, with what is in memory and what `malloc` will give: none where it returns -1.
unfoldable pub gc_init :
    (max_objects : ℕ) (use_generational : Bool) (store : ℕ → Option Object)
    (mallocs : List (Option ℕ))
    → Option Gc
gc_init max_objects use_generational store mallocs =
    let array = next_malloc mallocs in
    let later = if ltb 0 max_objects then drop 1 mallocs else mallocs in
    let ready : Gc = record {
      store = store;
      num_objects = 0;
      max_objects = max_objects;
      root_list = none;
      young_list = none;
      old_list = none;
      generation_counter = 0;
      use_generational = use_generational;
      gc_running = false;
      gc_enabled = true;
      mark_stack = [];
      mark_stack_size = if ltb 100 max_objects then max_objects / 10 else 100;
      stats = no_stats;
      mallocs = drop 1 later;
      finalized = [];
    } in
    let stack : Option Gc = elim (next_malloc later) [ none ↦ none | some a ↦ some ready ] in
    if ltb 0 max_objects then elim array [ none ↦ none | some a ↦ stack ] else stack
