-- ===== src/Mm/SharedHeap/Calls.antt =====
-- The functions of src/mm/shared_heap.c that are called from outside. A pointer that may be NULL is an
-- Option; a `ptr` is the address behind a header and not NULL.
use micro_posix.Prelude.{
  ℕ, zero, suc, bit_and, Bool, true, false, not, Option, none, some, List, [], ltb, leb, length,
  ◌&&◌, ◌||◌, ◌∷◌, ◌++◌, ◌==◌, if◌then◌else◌,
}
use micro_posix.Run.{Run, ret, hang, ◌>>=◌}
use micro_posix.Mm.SharedHeap.{
  header_bytes, heap_magic, add32, sub32, align_to, put_block, set_prev_if, block_end, new_block,
  split_block, merge_free_blocks, add_to_free_list, remove_from_free_list, find_free_block, Block,
  HeapStats, AllocationInfo, Heap,
}

abbrev pub no_heap_stats : (size : ℕ) → HeapStats
no_heap_stats size = record {
  used_size = 0;
  free_size = size;
  num_allocations = 0;
  num_frees = 0;
  num_reallocs = 0;
}

-- `mp_shared_heap_init`, with what the memory holds; none where it returns -1.
unfoldable pub heap_init :
    (store : ℕ → Block) (buffer : Option ℕ) (size alignment : ℕ) → Option Heap
heap_init store none size alignment = none
heap_init store (some buffer) size alignment =
    let ready : Heap = record {
      store = store;
      buffer = buffer;
      size = size;
      used = 0;
      peak_used = 0;
      alignment = if ltb 0 alignment then alignment else 8;
      stats = no_heap_stats size;
      tracking = false;
      max_allocations = 0;
      allocations = [];
      free_list = some buffer;
    } in
    if size == 0
    then none
    else some (put_block buffer (new_block (sub32 size header_bytes) true) ready)

abbrev pub count_alloc : (total : ℕ) → Heap → Heap
count_alloc total h =
    let used = add32 h.used (add32 header_bytes total) in
    let s = h.stats in
    record h {
      used = used;
      peak_used = if ltb h.peak_used used then used else h.peak_used;
      stats = record s {
        used_size = used;
        free_size = sub32 h.size used;
        num_allocations = add32 s.num_allocations 1;
      };
    }

-- `mp_shared_heap_aligned_alloc` once a block is found.
unfoldable pub take_block : (fuel a size alignment : ℕ) → Heap → Run (Option ℕ × Heap)
take_block fuel a size alignment h =
    let addr = add32 a header_bytes in
    let aligned = align_to addr alignment in
    let total = add32 size (sub32 aligned addr) in
    let (behind, h1) = split_block a total h in
    let h2 = count_alloc total (remove_from_free_list a h1) in
    elim behind [ none ↦ ret h2 | some c ↦ add_to_free_list fuel c h2 ] >>= λ h3.
    let b = h3.store a in
    ret (
      some aligned,
      put_block a
          (record b { size = total; magic = heap_magic; is_free = false; file = 0; line = 0 }) h3,
    )

unfoldable pub aligned_alloc : (fuel size alignment : ℕ) → Heap → Run (Option ℕ × Heap)
aligned_alloc fuel size alignment h =
    let run = find_free_block fuel size alignment h >>= λ found. elim found [
      | none ↦ ret (none, h)
      | some a ↦ take_block fuel a size alignment h
    ] in
    if size == 0 || not (bit_and alignment (sub32 alignment 1) == 0) then ret (none, h) else run

unfoldable pub heap_alloc : (fuel size : ℕ) → Heap → Run (Option ℕ × Heap)
heap_alloc fuel size h = aligned_alloc fuel size h.alignment h

abbrev pub count_free : (size : ℕ) → Heap → Heap
count_free size h =
    let used = sub32 h.used (add32 header_bytes size) in
    let s = h.stats in
    record h {
      used = used;
      stats = record s {
        used_size = used;
        free_size = sub32 h.size used;
        num_frees = add32 s.num_frees 1;
      };
    }

-- Whether a header is that of a block in use.
abbrev pub in_use : Block → Bool
in_use b = b.magic == heap_magic && not b.is_free

-- `mp_shared_heap_free`
unfoldable pub heap_free : (fuel ptr : ℕ) → Heap → Run Heap
heap_free fuel ptr h =
    let a = sub32 ptr header_bytes in
    let b = h.store a in
    let run = add_to_free_list fuel a (count_free b.size h) >>= λ h1. merge_free_blocks fuel a h1 in
    if in_use b then run else ret h

abbrev count_realloc : Heap → Heap
count_realloc h =
    let s = h.stats in record h { stats = record s { num_reallocs = add32 s.num_reallocs 1 } }

-- `mp_shared_heap_realloc`; `memcpy` between data does not touch a header.
unfoldable pub heap_realloc : (fuel : ℕ) → Option ℕ → (new_size : ℕ) → Heap → Run (Option ℕ × Heap)
heap_realloc fuel none new_size h = heap_alloc fuel new_size h
heap_realloc fuel (some ptr) new_size h =
    let b = h.store (sub32 ptr header_bytes) in
    let run = heap_alloc fuel new_size h >>= λ (new_ptr, h1). elim new_ptr [
      | none ↦ ret (none, h1)
      | some q ↦ heap_free fuel ptr h1 >>= λ h2. ret (some q, count_realloc h2)
    ] in
    if not (in_use b)
    then ret (none, h)
    else if leb new_size b.size
    then ret (some ptr, count_realloc h)
    else run

abbrev track : (ptr size file line : ℕ) → Heap → Heap
track ptr size file line h =
    let info : AllocationInfo = record {
      ptr = ptr;
      size = size;
      alignment = h.alignment;
      file = file;
      line = line;
    } in
    if h.tracking && ltb (length h.allocations) h.max_allocations
    then record h { allocations = h.allocations ++ info ∷ [] }
    else h

unfoldable pub alloc_tracked : (fuel size file line : ℕ) → Heap → Run (Option ℕ × Heap)
alloc_tracked fuel size file line h =
    let run = aligned_alloc fuel size h.alignment h >>= λ (p, h1). elim p [
      | none ↦ ret (none, h1)
      | some q ↦
          let a = sub32 q header_bytes in
          let b = h1.store a in
          ret (
            some q,
            track q size file line (put_block a (record b { file = file; line = line }) h1),
          )
    ] in
    if size == 0 then ret (none, h) else run

unfoldable pub heap_reset : Heap → Heap
heap_reset h = put_block h.buffer (new_block (sub32 h.size header_bytes) true) (record h {
  used = 0;
  peak_used = 0;
  stats = no_heap_stats h.size;
  allocations = [];
  free_list = some h.buffer;
})

unfoldable pub heap_contains : (ptr : ℕ) → Heap → Bool
heap_contains ptr h = leb h.buffer ptr && ltb ptr (add32 h.buffer h.size)

unfoldable pub get_block_size : (ptr : ℕ) → Heap → ℕ
get_block_size ptr h = let b = h.store (sub32 ptr header_bytes) in if in_use b then b.size else 0

-- The result is whether the code returns 0; `given` says whether `malloc` gives memory.
unfoldable pub enable_tracking : (given : Bool) (max_allocations : ℕ) → Heap → Bool × Heap
enable_tracking given max_allocations h =
    if max_allocations == 0
    then (false, h)
    else if given
    then (true, record h { tracking = true; max_allocations = max_allocations; allocations = [] })
    else (false, record h { tracking = false })

unfoldable pub disable_tracking : Heap → Heap
disable_tracking h = record h { tracking = false; max_allocations = 0; allocations = [] }

unfoldable pub validate_from : (fuel a : ℕ) → Heap → Run Bool
validate_from zero a h = hang
validate_from (suc fuel) a h =
    let b = h.store a in
    let rest = validate_from fuel (block_end a h) h in
    if not (ltb a (add32 h.buffer h.size))
    then ret true
    else if not (b.magic == heap_magic) || b.size == 0
    then ret false
    else rest

unfoldable pub heap_validate : (fuel : ℕ) → Heap → Run Bool
heap_validate fuel h = validate_from fuel h.buffer h

-- The block behind `a` becomes a part of it.
abbrev join_next : (a c : ℕ) → Heap → Heap
join_next a c h =
    let b = h.store a in
    let d = h.store c in
    set_prev_if d.next (some a)
      (put_block a (record b { size = add32 b.size (add32 header_bytes d.size); next = d.next }) h)

unfoldable pub defrag_from : (fuel : ℕ) → Option ℕ → (coalesced : ℕ) → Heap → Run (ℕ × Heap)
defrag_from fuel none coalesced h = ret (coalesced, h)
defrag_from zero (some a) coalesced h = hang
defrag_from (suc fuel) (some a) coalesced h = elim (h.store a).next [
  | none ↦ ret (coalesced, h)
  | some c ↦
      let joined = defrag_from fuel (some a) (add32 coalesced 1) (join_next a c h) in
      let rest = defrag_from fuel (some c) coalesced h in
      if block_end a h == c then joined else rest
]

unfoldable pub heap_defrag : (fuel : ℕ) → Heap → Run (ℕ × Heap)
heap_defrag fuel h = defrag_from fuel h.free_list 0 h

-- `mp_shared_heap_destroy`: the array of tracked allocations is freed and nothing else is changed.
unfoldable pub heap_destroy : Heap → Heap
heap_destroy h = record h { tracking = false }

abbrev nth_info : ℕ → List AllocationInfo → Option AllocationInfo
nth_info index [] = none
nth_info zero (i ∷ infos) = some i
nth_info (suc index) (i ∷ infos) = nth_info index infos

unfoldable pub get_allocation_info : (index : ℕ) → Heap → Option AllocationInfo
get_allocation_info index h = nth_info index h.allocations
