-- ===== src/Mm/Arena.antt =====
-- The arenas of src/mm/memory_view.c. Addresses are as in the views: 0 is the null pointer.
pub mod Alloc
use micro_posix.Prelude.{
  ℕ, bit_and, Bool, false, not, Option, none, some, ltb, leb, size_mod, Status, ok, failed, ◌+◌,
  ◌-◌, ◌%◌, ◌&&◌, ◌||◌, ◌==◌, if◌then◌else◌,
}
use micro_posix.Mm.View.{empty_view, minus, view_init, View}

-- `mp_memory_arena_t`
pub record Arena : Type 0 where
  pub buffer : ℕ
  pub size : ℕ
  pub used : ℕ
  pub alignment : ℕ

-- `align_up`, in the 32 bits of `uintptr_t`: `~x` is `size_mod - 1 - x`.
unfoldable pub align_up : (ptr alignment : ℕ) → ℕ
align_up ptr alignment =
    bit_and (minus ((ptr + alignment) % size_mod) 1) (size_mod - 1 - minus alignment 1)

-- `(alignment & (alignment - 1)) == 0`
abbrev pub one_bit : ℕ → Bool
one_bit alignment = bit_and alignment (minus alignment 1) == 0

unfoldable pub arena_init : Option Arena → (buffer size alignment : ℕ) → Status × Option Arena
arena_init none buffer size alignment = (failed, none)
arena_init (some old) buffer size alignment =
    if buffer == 0 || size == 0
    then (failed, some old)
    else if alignment == 0 || not (one_bit alignment)
    then (failed, some old)
    else (ok, some (record { buffer = buffer; size = size; used = 0; alignment = alignment }))

-- `mp_memory_arena_alloc` from the test of the space on; `current` is `buffer + used`.
unfoldable pub arena_take : Arena → (current aligned size : ℕ) → ℕ × Arena
arena_take a current aligned size =
    let total_needed = (minus aligned current + size) % size_mod in
    if ltb a.size ((a.used + total_needed) % size_mod)
    then (0, a)
    else (aligned, record a { used = (a.used + total_needed) % size_mod })

abbrev pub chosen_alignment : Arena → ℕ → ℕ
chosen_alignment a alignment = if alignment == 0 then a.alignment else alignment

unfoldable pub arena_alloc_in : Arena → (size alignment : ℕ) → ℕ × Arena
arena_alloc_in a size alignment =
    let current = (a.buffer + a.used) % size_mod in
    if size == 0
    then (0, a)
    else if not (one_bit (chosen_alignment a alignment))
    then (0, a)
    else arena_take a current (align_up current (chosen_alignment a alignment)) size

-- The result is the address, or 0.
unfoldable pub arena_alloc : Option Arena → (size alignment : ℕ) → ℕ × Option Arena
arena_alloc none size alignment = (0, none)
arena_alloc (some a) size alignment = let (p, a') = arena_alloc_in a size alignment in (p, some a')

-- The memory after `memset` of the allocated bytes.
unfoldable pub arena_zalloc :
    (memory : ℕ → ℕ) → Option Arena → (size alignment : ℕ) → ℕ × Option Arena × (ℕ → ℕ)
arena_zalloc memory a size alignment =
    let (p, a') = arena_alloc a size alignment in
    (p, a', if p == 0 then memory else λ x. if leb p x && ltb x (p + size) then 0 else memory x)

unfoldable pub arena_reset : Option Arena → Option Arena
arena_reset none = none
arena_reset (some a) = some (record a { used = 0 })

unfoldable pub arena_remaining : Option Arena → ℕ
arena_remaining none = 0
arena_remaining (some a) = minus a.size a.used

unfoldable pub arena_used : Option Arena → ℕ
arena_used none = 0
arena_used (some a) = a.used

unfoldable pub arena_contains : Option Arena → (ptr : ℕ) → Bool
arena_contains none ptr = false
arena_contains (some a) ptr =
    not (ptr == 0) && leb a.buffer ptr && ltb ptr ((a.buffer + a.size) % size_mod)

-- The view of an allocation; `old` is what the local variable holds before it is set.
unfoldable pub arena_alloc_view :
    (old : View) → Option Arena → (size alignment : ℕ) → Option View × Option Arena
arena_alloc_view old none size alignment = (some empty_view, none)
arena_alloc_view old (some a) size alignment =
    let (p, a') = arena_alloc_in a size alignment in
    (
      if p == 0
          then some empty_view
          else (view_init (some old) p size size (minus p a'.buffer) false 0).1,
      some a',
    )
