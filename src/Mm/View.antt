-- ===== src/Mm/View.antt =====
-- The views and slices of src/mm/memory_view.c. An address is a number of 32 bits, and 0 is the null
-- pointer; a view or a slice that may be null is an option.
pub mod Parts
use micro_posix.Prelude.{
  ℕ, zero, suc, Bool, true, false, not, Option, none, some, ltb, leb, size_mod, Status, ok, failed,
  ◌+◌, ◌-◌, ◌*◌, ◌/◌, ◌%◌, ◌&&◌, ◌||◌, ◌==◌, if◌then◌else◌,
}

-- `mp_memory_view_t`; `free_fn` is the address of a function.
pub record View : Type 0 where
  pub data_at : ℕ
  pub length_of : ℕ
  pub capacity : ℕ
  pub offset : ℕ
  pub owns_data : Bool
  pub free_fn : ℕ

-- `mp_memory_slice_t`
pub record Slice : Type 0 where
  pub data_at : ℕ
  pub element_size : ℕ
  pub element_count : ℕ
  pub capacity : ℕ
  pub owns_data : Bool
  pub free_fn : ℕ

abbrev pub empty_view : View
empty_view = record {
  data_at = 0;
  length_of = 0;
  capacity = 0;
  offset = 0;
  owns_data = false;
  free_fn = 0;
}

abbrev pub empty_slice : Slice
empty_slice = record {
  data_at = 0;
  element_size = 0;
  element_count = 0;
  capacity = 0;
  owns_data = false;
  free_fn = 0;
}

-- A difference of two `size_t`.
abbrev pub minus : ℕ → ℕ → ℕ
minus a b = (a + size_mod - b) % size_mod

-- What stands in `*view` before is all of it replaced.
unfoldable pub view_init :
    Option View
    → (data_at length_of capacity offset : ℕ) (owns_data : Bool) (free_fn : ℕ)
    → Status × Option View
view_init none data_at length_of capacity offset owns_data free_fn = (failed, none)
view_init (some old) data_at length_of capacity offset owns_data free_fn =
    if data_at == 0 && ltb 0 length_of then (failed, some old) else (
      ok,
      some (record {
        data_at = data_at;
        length_of = length_of;
        capacity = capacity;
        offset = offset;
        owns_data = owns_data;
        free_fn = free_fn;
      }),
    )

-- `old` is what the local variable holds before it is set.
unfoldable pub view_from_buffer : (old : View) (data_at length_of : ℕ) → Option View
view_from_buffer old data_at length_of =
    (view_init (some old) data_at length_of length_of 0 false 0).1

unfoldable pub view_owning : (old : View) (data_at length_of free_fn : ℕ) → Option View
view_owning old data_at length_of free_fn =
    (view_init (some old) data_at length_of length_of 0 true free_fn).1

-- The first part of the result is the address that `free_fn` is called with, if it is called.
unfoldable pub view_free : Option View → Option ℕ × Option View
view_free none = (none, none)
view_free (some v) =
    if v.owns_data && not (v.data_at == 0) && not (v.free_fn == 0)
    then (
      some v.data_at,
      some (record v { data_at = 0; length_of = 0; capacity = 0; owns_data = false }),
    )
    else (none, some v)

-- The length that a part from `start` on gets, of a whole of length `whole`.
abbrev pub clamp : (whole start n : ℕ) → ℕ
clamp whole start n = if ltb whole ((start + n) % size_mod) then minus whole start else n

unfoldable pub view_slice : Option View → (start n : ℕ) → View
view_slice none start n = empty_view
view_slice (some v) start n = if leb v.length_of start then empty_view else record {
  data_at = (v.data_at + start) % size_mod;
  length_of = clamp v.length_of start n;
  capacity = minus v.capacity start;
  offset = (v.offset + start) % size_mod;
  owns_data = false;
  free_fn = 0;
}

unfoldable pub view_as_slice : Option View → (element_size element_count : ℕ) → Slice
view_as_slice none element_size element_count = empty_slice
view_as_slice (some v) element_size element_count =
    let max_elements = v.length_of / element_size in
    if element_size == 0 then empty_slice else record {
      data_at = v.data_at;
      element_size = element_size;
      element_count = if ltb max_elements element_count then max_elements else element_count;
      capacity = max_elements;
      owns_data = false;
      free_fn = 0;
    }

unfoldable pub slice_init :
    Option Slice
    → (data_at element_size element_count capacity : ℕ) (owns_data : Bool) (free_fn : ℕ)
    → Option Slice
slice_init none data_at element_size element_count capacity owns_data free_fn = none
slice_init (some old) data_at element_size element_count capacity owns_data free_fn = some (record {
  data_at = data_at;
  element_size = element_size;
  element_count = element_count;
  capacity = capacity;
  owns_data = owns_data;
  free_fn = free_fn;
})

unfoldable pub slice_free : Option Slice → Option ℕ × Option Slice
slice_free none = (none, none)
slice_free (some s) =
    if s.owns_data && not (s.data_at == 0) && not (s.free_fn == 0)
    then (
      some s.data_at,
      some (record s { data_at = 0; element_count = 0; capacity = 0; owns_data = false }),
    )
    else (none, some s)

-- The address of an element, or 0.
unfoldable pub slice_get : Option Slice → (index : ℕ) → ℕ
slice_get none index = 0
slice_get (some s) index =
    if leb s.element_count index
    then 0
    else (s.data_at + index * s.element_size % size_mod) % size_mod

unfoldable pub slice_subslice : Option Slice → (start count : ℕ) → Slice
slice_subslice none start count = empty_slice
slice_subslice (some s) start count =
    if s.element_size == 0 || leb s.element_count start then empty_slice else record {
      data_at = (s.data_at + start * s.element_size % size_mod) % size_mod;
      element_size = s.element_size;
      element_count = clamp s.element_count start count;
      capacity = minus s.capacity start;
      owns_data = false;
      free_fn = 0;
    }

unfoldable pub slice_as_view : Option Slice → View
slice_as_view none = empty_view
slice_as_view (some s) = record {
  data_at = s.data_at;
  length_of = s.element_count * s.element_size % size_mod;
  capacity = s.capacity * s.element_size % size_mod;
  offset = 0;
  owns_data = false;
  free_fn = 0;
}

unfoldable pub view_overlaps : Option View → Option View → Bool
view_overlaps none b = false
view_overlaps (some a) none = false
view_overlaps (some a) (some b) =
    not (a.data_at == 0)
    && not (b.data_at == 0)
    && ltb a.data_at ((b.data_at + b.length_of) % size_mod)
    && ltb b.data_at ((a.data_at + a.length_of) % size_mod)

-- The loop of `mp_memory_view_find_byte` from index `i` on, with `n` bytes to go; `none` is -1.
find_from : (memory : ℕ → ℕ) (base byte n i : ℕ) → Option ℕ
find_from memory base byte zero i = none
find_from memory base byte (suc n) i =
    if memory (base + i) == byte then some i else find_from memory base byte n (i + 1)

unfoldable pub view_find_byte : (memory : ℕ → ℕ) → Option View → (byte : ℕ) → Option ℕ
unfolding find_from
view_find_byte memory none byte = none
view_find_byte memory (some v) byte =
    if v.data_at == 0 then none else find_from memory v.data_at byte v.length_of 0

-- `memcmp` of `n` bytes gives 0.
same_bytes : (memory : ℕ → ℕ) (a b n : ℕ) → Bool
same_bytes memory a b zero = true
same_bytes memory a b (suc n) = (memory a == memory b) && same_bytes memory (a + 1) (b + 1) n

match_from : (memory : ℕ → ℕ) (base pattern_at pattern_len n i : ℕ) → Option ℕ
unfolding same_bytes
match_from memory base pattern_at pattern_len zero i = none
match_from memory base pattern_at pattern_len (suc n) i =
    if same_bytes memory (base + i) pattern_at pattern_len
    then some i
    else match_from memory base pattern_at pattern_len n (i + 1)

-- The pattern is at an address too.
unfoldable pub view_find_pattern :
    (memory : ℕ → ℕ) → Option View → (pattern_at pattern_len : ℕ) → Option ℕ
unfolding match_from
view_find_pattern memory none pattern_at pattern_len = none
view_find_pattern memory (some v) pattern_at pattern_len =
    if v.data_at == 0 || pattern_at == 0 || pattern_len == 0 || ltb v.length_of pattern_len
    then none
    else match_from memory v.data_at pattern_at pattern_len (v.length_of - pattern_len + 1) 0
