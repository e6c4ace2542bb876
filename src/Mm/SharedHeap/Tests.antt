-- ===== src/Mm/SharedHeap/Tests.antt =====
-- The theorems on the shared heap at a new heap of 256 bytes after an allocation of 64 bytes.
use micro_posix.Prelude.{
  ℕ, refl, sym, subst, Bool, true, false, Option, none, some, [], arith, ==_iff, size_mod, ◌+◌, ◌≤◌,
  ◌<◌, ◌≡◌, ◌∷◌,
}
use micro_posix.Prelude.Chain.{has}
use micro_posix.Run.{Run, Returns, ret, fault, hang}
use micro_posix.Mm.SharedHeap.{
  heap_magic, split_block, add_to_free_list, remove_from_free_list, better, find_from,
  find_free_block, Block, Heap,
}
use micro_posix.Mm.SharedHeap.Calls.{heap_init, take_block, aligned_alloc, heap_alloc, heap_free}
use micro_posix.Mm.SharedHeap.Ring.{power_of_two, heap_free-hang}
use micro_posix.Mm.SharedHeap.BestFit.{padding, Best, find_free_block-Best}

abbrev block_with : (size : ℕ) (is_free : Bool) → Block
block_with size is_free = record {
  size = size;
  next = none;
  prev = none;
  magic = heap_magic;
  is_free = is_free;
  file = 0;
  line = 0;
}

abbrev blank : Heap
blank = record {
  store = λ a. block_with 0 false;
  buffer = 0;
  size = 0;
  used = 0;
  peak_used = 0;
  alignment = 8;
  stats = record {
    used_size = 0;
    free_size = 0;
    num_allocations = 0;
    num_frees = 0;
    num_reallocs = 0;
  };
  tracking = false;
  max_allocations = 0;
  allocations = [];
  free_list = none;
}

-- What an allocation of 64 bytes leaves of a new heap of 256 bytes at 4096.
abbrev first_alloc : Run (Option ℕ × Heap) → Heap → Heap
first_alloc (ret (p, h)) other = h
first_alloc fault other = other
first_alloc hang other = other

abbrev start : Option Heap → Heap
start (some h) = h
start none = blank

heap : Heap
unfolding heap_init heap_alloc
heap =
    first_alloc (heap_alloc 1 64 (start (heap_init (λ a. block_with 0 false) (some 4096) 256 8)))
      blank

heap_free-hang_example :
    Returns
      (λ h.
        (fuel size alignment : ℕ)
        → 1 ≤ size
        → power_of_two alignment ≡ true
        → aligned_alloc fuel size alignment h ≡ hang)
      (heap_free 2 4128 heap)
unfolding heap heap_init heap_alloc aligned_alloc take_block split_block find_free_block find_from
    better remove_from_free_list add_to_free_list
heap_free-hang_example =
    heap_free-hang 0 4192 4128 heap refl refl refl (omega arith) refl
      (λ e. absurd (omega (arith, e)))

find_free_block-Best_example :
    Returns (Best 16 8 heap (λ x. has x (4192 ∷ []))) (find_free_block 1 16 8 heap)
unfolding heap heap_init heap_alloc aligned_alloc take_block split_block find_free_block find_from
    padding better remove_from_free_list add_to_free_list
find_free_block-Best_example =
    find_free_block-Best 1 16 8 heap (4192 ∷ []) (refl, refl) (omega arith) small
  where
    room : 16 + padding 8 4192 < size_mod
    room = omega arith

    small : (x : ℕ) → has x (4192 ∷ []) ≡ true → 16 + padding 8 x < size_mod
    small x e =
        let q : x ≡ 4192 = (==_iff x 4192).0 (ground (arith, e)) in
        subst (λ y. 16 + padding 8 y < size_mod) (sym q) room
