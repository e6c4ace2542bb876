-- ===== src/Mm/SharedHeap/Ring.antt =====
-- What the free list of src/mm/shared_heap.c becomes when a block is freed in front of another.
use micro_posix.Prelude.{
  ℕ, zero, suc, bit_and, refl, sym, ap, subst, Bool, true, false, not, Option, none, some, arith,
  ltb, ==_iff, ==-refl, ◌≤◌, ◌<◌, ◌≡◌, ◌∙◌, ◌≢◌, ◌||◌, ◌==◌, if◌then◌else◌,
}
use micro_posix.Run.{Returns-map, Returns, ret, hang, returns, ◌>>=◌}
use micro_posix.Mm.SharedHeap.{
  header_bytes, add32, sub32, put_block, set_next, set_prev, set_prev_if, link_after, block_end,
  absorb_next, merge_from, merge_free_blocks, insert_between, insert_from, add_to_free_list, better,
  find_from, find_free_block, Block, Heap,
}
use micro_posix.Mm.SharedHeap.Calls.{aligned_alloc, count_free, in_use, heap_free}

module _ (a : ℕ) (b : Block) (h : Heap) where
  store-put_block : (put_block a b h).store a ≡ b
  store-put_block = pick (a == a) (==-refl a)
    where
      pick : (t : Bool) → t ≡ true → (if t then b else h.store a) ≡ b
      pick true e = refl
      pick false e = cc

  store-put_block_ne : (c : ℕ) → c ≢ a → (put_block a b h).store c ≡ h.store c
  store-put_block_ne c ne = pick (c == a) refl
    where
      pick : (t : Bool) → (c == a) ≡ t → (if t then b else h.store c) ≡ h.store c
      pick true e = absurd (ne ((==_iff c a).0 e))
      pick false e = refl

-- A block that is its own successor, and the first of the free list.
abbrev pub IsRing : ℕ → Heap → Type 0
IsRing a h = (h.free_list ≡ some a) × ((h.store a).next ≡ some a)

find_from-hang :
    (fuel a size alignment : ℕ) (best : Option ℕ) (h : Heap)
    → (h.store a).next ≡ some a
    → find_from fuel (some a) best size alignment h ≡ hang
unfolding find_from
find_from-hang zero a size alignment best h e = refl
find_from-hang (suc fuel) a size alignment best h e =
    rw e (find_from-hang fuel a size alignment (better best a size alignment h) h e)

pub power_of_two : ℕ → Bool
power_of_two alignment = bit_and alignment (sub32 alignment 1) == 0

-- On such a list no search ends.
aligned_alloc-hang :
    (fuel size alignment a : ℕ) (h : Heap)
    → 1 ≤ size
    → power_of_two alignment ≡ true
    → IsRing a h
    → aligned_alloc fuel size alignment h ≡ hang
unfolding aligned_alloc find_free_block power_of_two
aligned_alloc-hang fuel size alignment a h pos pow (first, ring) =
    let go : (size == 0 || not (bit_and alignment (sub32 alignment 1) == 0)) ≡ false =
      ground arith in
    let e : find_from fuel h.free_list none size alignment h ≡ hang =
      ap (λ p. find_from fuel p none size alignment h) first
      ∙ find_from-hang fuel a size alignment none h ring in
    rw (go, e) refl

-- The block `a` in front of `c`, which comes next in the list and is the last there: after the second
-- case of the merge the block is its own successor.
module _ (a c : ℕ) (h : Heap) (apart : c ≢ a) (first : h.free_list ≡ some a)
    (back : (h.store c).prev ≡ some a) (last : (h.store c).next ≡ none) where
  -- The block `c` and the head of the list are still as in `h`.
  Near : Heap → Type 0
  Near k = (k.store c ≡ h.store c) × (k.free_list ≡ h.free_list)

  put_block-Near : (b : Block) (k : Heap) → Near k → Near (put_block a b k)
  unfolding Near
  put_block-Near b k (s, f) = (store-put_block_ne a b k c apart ∙ s, f)

  set_prev_if-Near : (k : Heap) → Near k → set_prev_if (k.store c).next (some a) k ≡ k
  unfolding Near
  set_prev_if-Near k (s, f) =
      ap (λ p. set_prev_if p (some a) k) (ap (λ (d : Block). d.next) s ∙ last)

  link_after-Near :
      (q : Option ℕ) (k : Heap) → Near k → link_after (k.store c).prev q k ≡ set_next a q k
  unfolding Near
  link_after-Near q k (s, f) = ap (λ p. link_after p q k) (ap (λ (d : Block). d.prev) s ∙ back)

  absorb_next-IsRing : IsRing a (absorb_next c a h)
  unfolding absorb_next Near
  absorb_next-IsRing =
      let h1 =
        put_block a
          (record (h.store a) {
            size = add32 (h.store a).size (add32 header_bytes (h.store c).size);
            next = (h.store c).next;
          })
          h in
      let n1 : Near h1 = put_block-Near _ h (refl, refl) in
      let h2 = set_prev_if (h1.store c).next (some a) h1 in
      let n2 : Near h2 = subst Near (sym (set_prev_if-Near h1 n1)) n1 in
      let h3 = link_after (h2.store c).prev (h2.store c).next h2 in
      let n3 : Near h3 =
        subst Near (sym (link_after-Near (h2.store c).next h2 n2)) (put_block-Near _ h2 n2) in
      let h4 = set_prev a (h3.store c).prev h3 in
      let n4 : Near h4 = put_block-Near _ h3 n3 in
      subst (IsRing a) (sym (link_after-Near (some a) h4 n4))
        (n4.1 ∙ first, ap (λ (d : Block). d.next) (store-put_block a _ h4))

if-true : {A : Type 0} {b : Bool} (x y : A) → b ≡ true → (if b then x else y) ≡ x
if-true x y e = ap (λ b. if b then x else y) e

if-false : {A : Type 0} {b : Bool} (x y : A) → b ≡ false → (if b then x else y) ≡ y
if-false x y e = ap (λ b. if b then x else y) e

differ : (m n : ℕ) → m ≢ n → (m == n) ≡ false
differ m n h = pick (m == n) refl
  where
    pick : (t : Bool) → (m == n) ≡ t → t ≡ false
    pick true e = absurd (h ((==_iff m n).0 e))
    pick false e = refl

-- The block `a` is freed in front of `c`, which is the only free block.
module _ (a c : ℕ) (apart : c ≢ a) where
  merge_from-absorb_next :
      (fuel : ℕ) (k : Heap)
      → (k.store a).next ≡ some c
      → block_end a k ≡ c
      → block_end c k ≢ a
      → merge_from (suc (suc fuel)) (some a) a k ≡ ret (absorb_next c a k)
  unfolding merge_from
  merge_from-absorb_next fuel k next end away =
      let self : (block_end a k == a) ≡ false =
        differ (block_end a k) a (λ e. apart (sym end ∙ e)) in
      if-false _ _ self
      ∙ if-false _ _ self
      ∙ ap (λ p. merge_from (suc fuel) p a k) next
      ∙ if-false _ _ (differ (block_end c k) a away)
      ∙ if-true _ _ ((==_iff (block_end a k) c).1 end)

  module _ (h : Heap) (only : h.free_list ≡ some c) (last : (h.store c).next ≡ none) (after : a ≤ c)
      (touch : block_end a h ≡ c) (away : block_end c h ≢ a) where
    -- The heap once the block is in the list.
    listed : Heap
    listed =
        let b = h.store a in
        insert_between none (some c) a
          (put_block a (record b { is_free = true; next = none; prev = none }) h)

    add_to_free_list-listed : (fuel : ℕ) → add_to_free_list (suc fuel) a h ≡ ret listed
    unfolding add_to_free_list insert_from listed
    add_to_free_list-listed fuel =
        let b = h.store a in
        let h1 = put_block a (record b { is_free = true; next = none; prev = none }) h in
        ap
          (λ p. elim p [
            | none ↦ ret (record h1 { free_list = some a })
            | some d ↦ insert_from (suc fuel) none (some d) a h1
          ])
          only
        ∙ if-false {b = ltb c a} _ _ (ground arith)

    freed : Block
    freed = let b = h.store a in record b { is_free = true; next = none; prev = none }

    at_front : Heap
    at_front = let h1 = put_block a freed h in record h1 { free_list = some a }

    listed-a : listed.store a ≡ record freed { next = some c }
    unfolding listed insert_between at_front freed
    listed-a =
        store-put_block_ne c _ (set_next a (some c) at_front) a (λ e. apart (sym e))
        ∙ store-put_block a _ at_front
        ∙ ap (λ (b : Block). record b { next = some c }) (store-put_block a freed h)

    listed-c : listed.store c ≡ (let d = h.store c in record d { prev = some a })
    unfolding listed insert_between at_front freed
    listed-c =
        store-put_block c _ (set_next a (some c) at_front)
        ∙ ap (λ (b : Block). record b { prev = some a })
            (store-put_block_ne a _ at_front c apart ∙ store-put_block_ne a freed h c apart)

    merged : (fuel : ℕ) → Returns (IsRing a) (merge_free_blocks (suc (suc fuel)) a listed)
    unfolding merge_free_blocks listed insert_between freed
    merged fuel =
        let size_a = ap (λ (b : Block). add32 (add32 a header_bytes) b.size) listed-a in
        let size_c = ap (λ (b : Block). add32 (add32 c header_bytes) b.size) listed-c in
        let e =
          merge_from-absorb_next fuel listed (ap (λ (b : Block). b.next) listed-a) (size_a ∙ touch)
            (λ q. away (sym size_c ∙ q)) in
        subst (Returns (IsRing a)) (sym e) (
          returns (
            absorb_next-IsRing a c listed apart refl (ap (λ (b : Block). b.prev) listed-c)
              (ap (λ (b : Block). b.next) listed-c ∙ last)))

-- `get_block_header`
abbrev pub block_of : ℕ → ℕ
block_of ptr = sub32 ptr header_bytes

-- After a free no allocation ends: if the block of `ptr` is in use, and right behind it is the only block
-- of the free list, then freeing it ends with a heap on which each request of a byte or more, with an
-- alignment of a power of two, goes around in the free list for ever, whatever the fuel.
pub heap_free-hang :
    (fuel c ptr : ℕ) (h : Heap)
    → in_use (h.store (block_of ptr)) ≡ true
    → h.free_list ≡ some c
    → (h.store c).next ≡ none
    → block_of ptr < c
    → block_end (block_of ptr) h ≡ c
    → block_end c h ≢ block_of ptr
    → Returns
        (λ h'.
          (fuel' size alignment : ℕ)
          → 1 ≤ size
          → power_of_two alignment ≡ true
          → aligned_alloc fuel' size alignment h' ≡ hang)
        (heap_free (suc (suc fuel)) ptr h)
unfolding heap_free
heap_free-hang fuel c ptr h used only last less touch away =
    let a = block_of ptr in
    let apart : c ≢ a = λ e. absurd (omega (arith, less, e)) in
    let h0 = count_free (h.store a).size h in
    subst (Returns _)
      (sym (
        if-true _ _ used
        ∙ ap (λ m. m >>= λ h1. merge_free_blocks (suc (suc fuel)) a h1)
            (add_to_free_list-listed a c apart h0 only last (omega (arith, less)) touch away
              (suc fuel))))
      (Returns-map
        (λ h' ring f size alignment pos pow. aligned_alloc-hang f size alignment a h' pos pow ring)
        (merged a c apart h0 only last (omega (arith, less)) touch away fuel))
