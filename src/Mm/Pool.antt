-- ===== src/Mm/Pool.antt =====
-- src/mm/pool.c: blocks of one size, the free ones in a list through their first words. The memory
-- gives the word at an address; 0 is the null pointer.
pub mod Free
use micro_posix.Prelude.{
  ℕ, zero, suc, Option, none, some, size_mod, Status, ok, failed, ◌+◌, ◌-◌, ◌%◌, ◌==◌,
  if◌then◌else◌,
}
use micro_posix.Mm.View.{minus}

-- `mp_pool_t`; `bitmap` holds the first free block.
pub record Pool : Type 0 where
  pub buffer : ℕ
  pub block_size : ℕ
  pub num_blocks : ℕ
  pub free_blocks : ℕ
  pub bitmap : ℕ

abbrev pub store : (ℕ → ℕ) → ℕ → ℕ → ℕ → ℕ
store memory a v x = if x == a then v else memory x

-- The loop of `mp_pool_init` with `n` rounds to go, and the 0 behind it.
unfoldable pub link_blocks : (block_size n ptr : ℕ) → (ℕ → ℕ) → ℕ → ℕ
link_blocks block_size zero ptr memory = store memory ptr 0
link_blocks block_size (suc n) ptr memory =
    let after = (ptr + block_size) % size_mod in
    link_blocks block_size n after (store memory ptr after)

-- With 0 blocks `num_blocks - 1` is the largest number of 32 bits.
unfoldable pub init :
    Option Pool → (buffer block_size num_blocks : ℕ) → (ℕ → ℕ) → Status × Option Pool × (ℕ → ℕ)
init none buffer block_size num_blocks memory = (failed, none, memory)
init (some old) buffer block_size num_blocks memory =
    if buffer == 0 then (failed, some old, memory) else (
      ok,
      some (record {
        buffer = buffer;
        block_size = block_size;
        num_blocks = num_blocks;
        free_blocks = num_blocks;
        bitmap = buffer;
      }),
      link_blocks block_size (minus num_blocks 1) buffer memory,
    )

-- The result is the block, or 0.
unfoldable pub alloc : Pool → (ℕ → ℕ) → ℕ × Pool
alloc p memory =
    if p.free_blocks == 0
    then (0, p)
    else (p.bitmap, record p { bitmap = memory p.bitmap; free_blocks = p.free_blocks - 1 })

unfoldable pub free : Option Pool → (ptr : ℕ) → (ℕ → ℕ) → Option Pool × (ℕ → ℕ)
free none ptr memory = (none, memory)
free (some p) ptr memory = if ptr == 0 then (some p, memory) else (
  some (record p { bitmap = ptr; free_blocks = (p.free_blocks + 1) % size_mod }),
  store memory ptr p.bitmap,
)
