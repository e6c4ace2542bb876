-- ===== src/Mm/SharedHeap.antt =====
-- The heap of src/mm/shared_heap.c: its blocks, and the list of those that are free. A loop over the list
-- runs on fuel. Locks do nothing, as in the code; no thread is stored, since the code stores NULL.
pub mod Calls
pub mod Global
pub mod Ring
pub mod BestFit
mod Tests
use micro_posix.Prelude.{
  ℕ, zero, suc, bit_and, Bool, true, false, Option, none, some, List, ltb, leb, size_mod, ◌+◌, ◌-◌,
  ◌%◌, ◌&&◌, ◌==◌, if◌then◌else◌,
}
use micro_posix.Run.{Run, ret, hang}

-- `block_header_t`; `file` is a pointer, 0 for NULL.
pub record Block : Type 0 where
  pub size : ℕ
  pub next : Option ℕ
  pub prev : Option ℕ
  pub magic : ℕ
  pub is_free : Bool
  pub file : ℕ
  pub line : ℕ

-- `mp_shared_heap_stats_t`, without the fields that only mp_shared_heap_init writes.
pub record HeapStats : Type 0 where
  pub used_size : ℕ
  pub free_size : ℕ
  pub num_allocations : ℕ
  pub num_frees : ℕ
  pub num_reallocs : ℕ

-- `mp_allocation_info_t`, without the fields that are always 0 or NULL.
pub record AllocationInfo : Type 0 where
  pub ptr : ℕ
  pub size : ℕ
  pub alignment : ℕ
  pub file : ℕ
  pub line : ℕ

-- `mp_shared_heap_t`. `store` gives the header that memory holds at an address; headers do not overlap.
-- `allocations` are the tracked ones, with as many as `max_allocations` if tracking is on.
pub record Heap : Type 0 where
  pub store : ℕ → Block
  pub buffer : ℕ
  pub size : ℕ
  pub used : ℕ
  pub peak_used : ℕ
  pub alignment : ℕ
  pub stats : HeapStats
  pub tracking : Bool
  pub max_allocations : ℕ
  pub allocations : List AllocationInfo
  pub free_list : Option ℕ

-- `sizeof(block_header_t)` where pointers have 4 bytes, and MP_SHARED_HEAP_MAGIC.
abbrev pub header_bytes : ℕ
header_bytes = 32

abbrev pub heap_magic : ℕ
heap_magic = 0x48454150

abbrev pub add32 : ℕ → ℕ → ℕ
add32 a b = (a + b) % size_mod

abbrev pub sub32 : ℕ → ℕ → ℕ
sub32 a b = (a + (size_mod - b)) % size_mod

-- `align_up`, with the mask as the code has it.
abbrev pub align_to : ℕ → (alignment : ℕ) → ℕ
align_to p alignment = bit_and (sub32 (add32 p alignment) 1) (size_mod - 1 - sub32 alignment 1)

abbrev pub put_block : ℕ → Block → Heap → Heap
put_block a b h = record h { store = λ c. if c == a then b else h.store c }

abbrev pub set_next : ℕ → Option ℕ → Heap → Heap
set_next a p h = let b = h.store a in put_block a (record b { next = p }) h

abbrev pub set_prev : ℕ → Option ℕ → Heap → Heap
set_prev a p h = let b = h.store a in put_block a (record b { prev = p }) h

abbrev pub set_prev_if : Option ℕ → Option ℕ → Heap → Heap
set_prev_if none p h = h
set_prev_if (some a) p h = set_prev a p h

-- `if (prev) prev->next = next; else heap->free_list = next;`
abbrev pub link_after : (prev next : Option ℕ) → Heap → Heap
link_after none next h = record h { free_list = next }
link_after (some a) next h = set_next a next h

-- The address behind a block.
abbrev pub block_end : ℕ → Heap → ℕ
block_end a h = let b = h.store a in add32 (add32 a header_bytes) b.size

abbrev pub new_block : (size : ℕ) (is_free : Bool) → Block
new_block size is_free = record {
  size = size;
  next = none;
  prev = none;
  magic = heap_magic;
  is_free = is_free;
  file = 0;
  line = 0;
}

-- `split_block`: the block behind, if there is one.
unfoldable pub split_block : (a requested : ℕ) → Heap → Option ℕ × Heap
split_block a requested h =
    let b = h.store a in
    let remaining = sub32 (sub32 b.size requested) header_bytes in
    let behind = add32 (add32 a header_bytes) requested in
    let h1 = put_block behind (new_block remaining true) h in
    let b1 = h1.store a in
    if leb (header_bytes + 8) remaining
    then (some behind, put_block a (record b1 { size = requested }) h1)
    else (none, h)

-- The first case of the loop of `merge_free_blocks`: `cur` ends where the block starts.
unfoldable pub absorb : (cur a : ℕ) → Heap → Heap
absorb cur a h =
    let b = h.store a in
    let c = h.store cur in
    let end = block_end a h in
    let h1 = put_block cur (record c { size = add32 c.size (add32 header_bytes b.size) }) h in
    let c1 = h1.store cur in
    elim c.next [
      | none ↦ h1
      | some d ↦
          let e = h1.store d in
          let h2 =
            put_block cur
              (record c1 { size = add32 c1.size (add32 header_bytes e.size); next = e.next }) h1 in
          if d == end then set_prev_if e.next (some cur) h2 else h1
    ]

-- The second case: the block ends where `cur` starts. The list is changed step by step.
unfoldable pub absorb_next : (cur a : ℕ) → Heap → Heap
absorb_next cur a h =
    let b = h.store a in
    let c = h.store cur in
    let h1 =
      put_block a (record b { size = add32 b.size (add32 header_bytes c.size); next = c.next }) h in
    let h2 = set_prev_if (h1.store cur).next (some a) h1 in
    let h3 = link_after (h2.store cur).prev (h2.store cur).next h2 in
    let h4 = set_prev a (h3.store cur).prev h3 in link_after (h4.store cur).prev (some a) h4

unfoldable pub merge_from : (fuel : ℕ) → Option ℕ → (a : ℕ) → Heap → Run Heap
merge_from fuel none a h = ret h
merge_from zero (some cur) a h = hang
merge_from (suc fuel) (some cur) a h =
    let rest = merge_from fuel (h.store cur).next a h in
    if block_end cur h == a
    then ret (absorb cur a h)
    else if block_end a h == cur
    then ret (absorb_next cur a h)
    else rest

unfoldable pub merge_free_blocks : (fuel a : ℕ) → Heap → Run Heap
merge_free_blocks fuel a h = merge_from fuel h.free_list a h

-- The end of `add_to_free_list`, once the place of the block is found.
unfoldable pub insert_between : (prev cur : Option ℕ) (a : ℕ) → Heap → Heap
insert_between none cur a h =
    let h1 = set_next a cur (record h { free_list = some a }) in set_prev_if cur (some a) h1
insert_between (some p) cur a h =
    let h1 = set_next a cur (set_prev a (some p) (set_next p (some a) h)) in
    set_prev_if cur (some a) h1

unfoldable pub insert_from : (fuel : ℕ) (prev cur : Option ℕ) (a : ℕ) → Heap → Run Heap
insert_from fuel prev none a h = ret (insert_between prev none a h)
insert_from zero prev (some c) a h = hang
insert_from (suc fuel) prev (some c) a h =
    let rest = insert_from fuel (some c) (h.store c).next a h in
    if ltb c a then rest else ret (insert_between prev (some c) a h)

unfoldable pub add_to_free_list : (fuel a : ℕ) → Heap → Run Heap
add_to_free_list fuel a h =
    let b = h.store a in
    let h1 = put_block a (record b { is_free = true; next = none; prev = none }) h in
    elim h.free_list [
      | none ↦ ret (record h1 { free_list = some a })
      | some c ↦ insert_from fuel none (some c) a h1
    ]

unfoldable pub remove_from_free_list : ℕ → Heap → Heap
remove_from_free_list a h =
    let b = h.store a in
    let h1 = link_after b.prev b.next h in
    let h2 = set_prev_if (h1.store a).next (h1.store a).prev h1 in
    let b2 = h2.store a in put_block a (record b2 { is_free = false; next = none; prev = none }) h2

-- The smaller of the best block so far and one that is large enough.
unfoldable pub better : (best : Option ℕ) (cur size alignment : ℕ) → Heap → Option ℕ
better best cur size alignment h =
    let c = h.store cur in
    let addr = add32 cur header_bytes in
    let padding = sub32 (align_to addr alignment) addr in
    let smaller : Bool = elim best [
      | none ↦ true
      | some a ↦ let b = h.store a in ltb c.size b.size
    ] in
    if leb (add32 size padding) c.size && smaller then some cur else best

unfoldable pub find_from :
    (fuel : ℕ) (cur best : Option ℕ) (size alignment : ℕ) → Heap → Run (Option ℕ)
find_from fuel none best size alignment h = ret best
find_from zero (some cur) best size alignment h = hang
find_from (suc fuel) (some cur) best size alignment h =
    find_from fuel (h.store cur).next (better best cur size alignment h) size alignment h

unfoldable pub find_free_block : (fuel size alignment : ℕ) → Heap → Run (Option ℕ)
find_free_block fuel size alignment h = find_from fuel h.free_list none size alignment h
