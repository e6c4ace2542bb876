-- ===== src/Serialization/Protobuf/Size.antt =====
-- The sizes of src/serialization/protobuf.c, and the ends of a writer's and a reader's life.
use micro_posix.Prelude.{
  ℕ, zero, suc, sym, ap, Bool, true, false, Option, none, some, List, arith, leb, le→leb, leb-false,
  size_mod, u64_mod, length, ◌+◌, ◌/◌, ◌%◌, ◌^◌, ◌≤◌, ◌<◌, ◌≡◌, ◌∙◌, if◌then◌else◌,
}
use micro_posix.Serialization.Protobuf.Writer.{Realloc, field_tag, Writer}
use micro_posix.Serialization.Protobuf.Writer.Put.{varint, varint_last, varint_more}
use micro_posix.Serialization.Protobuf.Writer.Send.{varint64}
use micro_posix.Serialization.Protobuf.Reader.{wire_type}
use native.Mathlib.Nat.{pow-suc, add_assoc, zero-add}
use native.Mathlib.Decide.{dec_lt}

-- The loop of `mp_protobuf_varint_size`; a uint64_t has 10 groups at most, and then the fuel is not
-- used up.
unfoldable pub count_groups : (fuel value size : ℕ) → ℕ
count_groups zero value size = size
count_groups (suc fuel) value size =
    let rest = count_groups fuel (value / 2 ^ 7) (size + 1) in if leb 0x80 value then rest else size

unfoldable pub varint_size : ℕ → ℕ
varint_size value = count_groups 10 value 1

unfoldable pub field_header_size : (field_number wire_type : ℕ) → ℕ
field_header_size field_number wire_type = varint_size (field_tag field_number wire_type)

unfoldable pub length_delimited_size : (field_number size : ℕ) → ℕ
length_delimited_size field_number size =
    (field_header_size field_number 2 + varint_size size + size) % size_mod

-- The first part is the call of `realloc_fn` with size 0, if it is made, by the memory it frees.
unfoldable pub writer_destroy : Writer → Option (List ℕ) × Writer
writer_destroy w = (
  freed w.owns_buffer w.realloc_fn,
  record w { buffer = none; position = 0; capacity = 0; owns_buffer = false },
)
  where
    freed : Bool → Option Realloc → Option (List ℕ)
    freed true (some f) = w.buffer
    freed _ _ = none

count_last : (fuel value size : ℕ) → value < 128 → count_groups (suc fuel) value size ≡ size
unfolding count_groups
count_last fuel value size h = rw (leb-false 0x80 value h)

count_more :
    (fuel value size : ℕ)
    → 128 ≤ value
    → count_groups (suc fuel) value size ≡ count_groups fuel (value / 128) (size + 1)
unfolding count_groups
count_more fuel value size h = rw (le→leb 0x80 value h)

count_groups-varint :
    (k fuel value size : ℕ)
    → k < fuel
    → value < 128 ^ suc k
    → count_groups fuel value (size + 1) ≡ size + length (varint k value)
count_groups-varint k zero value size lt small = absurd (omega arith)
count_groups-varint zero (suc fuel) value size lt small =
    let tiny : value < 128 = omega arith in
    count_last fuel value (size + 1) tiny
    ∙ ap (λ l. size + length l) (sym (varint_last 0 value tiny))
count_groups-varint (suc k) (suc fuel) value size lt small = elim (dec_lt value 128) [
  | yes tiny ↦
      count_last fuel value (size + 1) tiny
      ∙ ap (λ l. size + length l) (sym (varint_last (suc k) value tiny))
  | no large ↦
      count_more fuel value (size + 1) (omega arith)
      ∙ count_groups-varint k fuel (value / 128) (size + 1) (omega arith)
          (omega (arith, pow-suc 128 (suc k)))
      ∙ add_assoc size 1 (length (varint k (value / 128)))
      ∙ ap (λ n. size + n) (omega arith)
      ∙ ap (λ l. size + length l) (sym (varint_more k value (omega arith)))
]

-- `mp_protobuf_varint_size` is the number of bytes that `mp_protobuf_write_varint` writes.
pub varint_size-varint64 :
    (value : ℕ) → value < u64_mod → varint_size value ≡ length (varint64 value)
unfolding varint_size
varint_size-varint64 value lt =
    count_groups-varint 9 10 value 0 (omega arith) (omega arith)
    ∙ zero-add (length (varint64 value))
