-- ===== src/Mm/Tlsf.antt =====
-- src/mm/tlsf.c: the first-fit allocator. The headers are by the address they stand at; that the
-- bytes of two headers could overlap is not modelled. A null `next` is none.
pub mod Again
use micro_posix.Prelude.{
  ℕ, Option, none, some, ltb, leb, size_mod, Status, ok, failed, ◌+◌, ◌-◌, ◌%◌, ◌==◌, if◌then◌else◌,
}
use micro_posix.Prelude.Chain.{walk, Round, go, stop}
use micro_posix.Mm.View.{minus}
use mathlib.Core.Option

-- `block_header_t`, without the two fields that no function sets.
pub record Header : Type 0 where
  pub size : ℕ
  pub link : Option ℕ
  pub magic : ℕ

-- `mp_tlsf_t` and the memory it manages.
pub record Tlsf : Type 0 where
  pub pool : ℕ
  pub size : ℕ
  pub header : ℕ → Header

-- `sizeof(block_header_t)`, with five words of four bytes.
abbrev pub header_size : ℕ
header_size = 20

abbrev pub magic_number : ℕ
magic_number = 0xDEAD1234

abbrev pub set_header : Tlsf → ℕ → Header → Tlsf
set_header t a h = record t { header = λ b. if b == a then h else t.header b }

abbrev pub next : Tlsf → ℕ → Option ℕ
next t a = (t.header a).link

-- `none` for the pool is a null pointer.
unfoldable pub init : Option Tlsf → (pool : Option ℕ) (size : ℕ) → Status × Option Tlsf
init none pool size = (failed, none)
init (some t) none size = (failed, some t)
init (some t) (some pool) size = if ltb size header_size then (failed, some t) else (
  ok,
  some (
      set_header (record t { pool = pool; size = size }) pool
        (record { size = size - header_size; link = none; magic = magic_number })),
)

-- The address of what follows a header and `size` bytes behind it.
abbrev pub behind : (at size : ℕ) → ℕ
behind at size = ((at + header_size) % size_mod + size) % size_mod

-- The split of the block at `at`; the new header is written first.
unfoldable pub split : Tlsf → (at size : ℕ) → Tlsf
split t at size =
    let new_block = behind at size in
    let rest : Header = record {
      size = minus (minus (t.header at).size size) header_size;
      link = (t.header at).link;
      magic = magic_number;
    } in
    let t1 = set_header t new_block rest in
    set_header t1 at (record (t1.header at) { size = size; link = some new_block })

-- The variables of the loop of `mp_tlsf_alloc`: the result, if it is found, and the store.
unfoldable pub fit_round : (size : ℕ) → Option ℕ × Tlsf → ℕ → Round (Option ℕ × Tlsf)
fit_round size (found, t) at =
    if leb ((size + header_size) % size_mod) (t.header at).size
    then stop (some ((at + header_size) % size_mod), split t at size)
    else go (found, t)

unfoldable pub alloc : (fuel : ℕ) → Tlsf → (size : ℕ) → Option (Option ℕ × Tlsf)
alloc fuel t size = walk fuel (λ (found, t'). next t') (fit_round size) (some t.pool) (none, t)

-- `mp_tlsf_free` looks at the header and changes nothing.
unfoldable pub free : Tlsf → (ptr : ℕ) → Tlsf
free t ptr = t
