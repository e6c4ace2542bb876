-- ===== src/Serialization/Edf/Writer.antt =====
-- The write functions of src/serialization/edf.c.
use micro_posix.Prelude.{
  ℕ, zero, suc, bit_and, bit_or, Bool, List, leb, Status, ok, failed, length, ◌+◌, ◌/◌, ◌%◌, ◌^◌,
  if◌then◌else◌,
}
use micro_posix.Run.{Run, ret, hang, ◌>>=◌}
use micro_posix.Serialization.Protobuf.Writer.{
  put_byte, copy_checked, Writer, ensure_capacity as make_room,
}
use micro_posix.Serialization.Edf.Types.{code, EdfType, edf_null, edf_array, edf_object}

-- A call that writes.
abbrev pub Action : Type 0
Action = Writer → Run (Status × Writer)

-- `if (first != 0) return -1; return next;`
abbrev pub then_write : Action → Action → Action
then_write first next w =
    first w >>= λ (status, w1). elim status [ failed ↦ ret (failed, w1) | ok ↦ next w1 ]

-- The text of the function of this name in protobuf.c.
abbrev pub ensure_capacity : Writer → (needed : ℕ) → Run Writer
ensure_capacity = make_room

-- `ensure_capacity(writer, 1); writer->buffer[writer->position++] = b;`
unfoldable pub append_byte : ℕ → Writer → Run Writer
append_byte b w = ensure_capacity w 1 >>= λ w1. put_byte w1 b

abbrev pub write_byte : ℕ → Action
write_byte b w = append_byte b w >>= λ w1. ret (ok, w1)

unfoldable pub write_type : EdfType → Action
write_type type w = write_byte (code type % 256) w

-- The loop that writes a varint of a uint32_t or a size_t, which has 5 rounds at most, and the byte
-- behind it.
unfoldable pub append_groups : (fuel value : ℕ) → Writer → Run Writer
append_groups zero value w = hang
append_groups (suc fuel) value w =
    let more = append_byte (bit_or value 0x80 % 256) w >>= append_groups fuel (value / 2 ^ 7) in
    if leb 0x80 value then more else append_byte (value % 256) w

unfoldable pub write_length : ℕ → Action
write_length size w = append_groups 5 size w >>= λ w1. ret (ok, w1)

unfoldable pub write_field_header : (field_id : ℕ) → EdfType → Action
write_field_header field_id type w = append_groups 5 field_id w >>= write_type type

unfoldable pub write_bool : Bool → Action
write_bool value = write_byte (if value then 1 else 0)

unfoldable pub write_int8 : ℕ → Action
write_int8 value = write_byte (value % 256)

unfoldable pub write_uint8 : ℕ → Action
write_uint8 value = write_byte value

-- `n` lines `writer->buffer[writer->position++] = (uint8_t)((value >> shift) & 0xFF);`, the shift
-- growing by 8.
unfoldable pub put_le : (n shift value : ℕ) → Writer → Run Writer
put_le zero shift value w = ret w
put_le (suc n) shift value w =
    put_byte w (bit_and (value / 2 ^ shift) 0xFF) >>= put_le n (shift + 8) value

unfoldable pub write_le : (n value : ℕ) → Action
write_le n value w = do w1 ← ensure_capacity w n; w2 ← put_le n 0 value w1; ret (ok, w2)

unfoldable pub write_int16 : ℕ → Action
write_int16 value = write_le 2 value

unfoldable pub write_int32 : ℕ → Action
write_int32 value = write_le 4 value

unfoldable pub write_int64 : ℕ → Action
write_int64 value = write_le 8 value

unfoldable pub write_uint16 : ℕ → Action
write_uint16 value = write_le 2 value

unfoldable pub write_uint32 : ℕ → Action
write_uint32 value = write_le 4 value

unfoldable pub write_uint64 : ℕ → Action
write_uint64 value = write_le 8 value

unfoldable pub write_float : (bits : ℕ) → Action
write_float bits = write_uint32 bits

unfoldable pub write_double : (bits : ℕ) → Action
write_double bits = write_uint64 bits

-- The list holds `length` bytes, which the pointer leads to; the copy is tested as in protobuf.c.
unfoldable pub write_string_with_length : List ℕ → Action
write_string_with_length str =
    then_write (write_length (length str))
      (λ w. ensure_capacity w (length str) >>= λ w1. copy_checked w1 str)

-- A string is given without its final 0.
unfoldable pub write_string : List ℕ → Action
write_string str = write_string_with_length str

unfoldable pub write_bytes : List ℕ → Action
write_bytes bytes =
    then_write (write_length (length bytes))
      (λ w. ensure_capacity w (length bytes) >>= λ w1. copy_checked w1 bytes)

unfoldable pub write_null : Action
write_null = write_type edf_null

unfoldable pub write_array_header : (element_type : EdfType) (count : ℕ) → Action
write_array_header element_type count =
    then_write (write_type edf_array) (then_write (write_type element_type) (write_length count))

unfoldable pub write_object_header : (schema_id : ℕ) → Action
write_object_header schema_id = then_write (write_type edf_object) (write_uint32 schema_id)

unfoldable pub write_object_end : Action
write_object_end = write_byte 0xFF
