-- ===== src/Serialization/Edf/Skip.antt =====
-- `mp_edf_skip_value` and `mp_edf_skip_field` of src/serialization/edf.c.
use micro_posix.Prelude.{ℕ, zero, suc, none, some, ltb, Status, ok, failed, ◌==◌, if◌then◌else◌}
use micro_posix.Run.{Run, ret, hang, ◌>>=◌}
use micro_posix.Serialization.Edf.Types.{
  EdfType, edf_null, edf_bool, edf_int8, edf_int16, edf_int32, edf_int64, edf_uint8, edf_uint16,
  edf_uint32, edf_uint64, edf_float, edf_double, edf_string, edf_bytes, edf_array, edf_object,
  edf_enum, edf_fixed32, edf_fixed64, edf_sfixed32, edf_sfixed64, edf_sint32, edf_sint64, edf_other,
}
use micro_posix.Serialization.Edf.Reader.{
  read_length, read_field_header, read_array_header, read_object_header,
}
use micro_posix.Serialization.Protobuf.Reader.{Read, advance, byte_at, Reader}

-- How the switch treats a type.
pub data Shape : Type 0 where
  fixed : (width : ℕ) → Shape
  counted : Shape
  elements : Shape
  members : Shape
  unknown : Shape

abbrev pub shape : EdfType → Shape
shape edf_null = fixed 0
shape edf_bool = fixed 1
shape edf_int8 = fixed 1
shape edf_int16 = fixed 2
shape edf_int32 = fixed 4
shape edf_int64 = fixed 8
shape edf_uint8 = fixed 1
shape edf_uint16 = fixed 2
shape edf_uint32 = fixed 4
shape edf_uint64 = fixed 8
shape edf_float = fixed 4
shape edf_double = fixed 8
shape edf_string = counted
shape edf_bytes = counted
shape edf_array = elements
shape edf_object = members
shape edf_enum = unknown
shape edf_fixed32 = fixed 4
shape edf_fixed64 = fixed 8
shape edf_sfixed32 = fixed 4
shape edf_sfixed64 = fixed 8
shape edf_sint32 = unknown
shape edf_sint64 = unknown
shape (edf_other n) = unknown

-- 0 or -1, and the reader.
abbrev pub Skipped : Type 0
Skipped = Run (Status × Reader)

-- `if (read != 0) return -1;`
abbrev pub read_or_fail : {A : Type 0} → Read A → (A → Reader → Skipped) → Skipped
read_or_fail m f = m >>= λ (out, r). elim out [ none ↦ ret (failed, r) | some a ↦ f a r ]

-- `if (skip != 0) return -1;`
abbrev pub skip_or_fail : Skipped → (Reader → Skipped) → Skipped
skip_or_fail m f = m >>= λ (status, r). elim status [ failed ↦ ret (failed, r) | ok ↦ f r ]

-- A call of `skip_value`, which is this with the shape of the type, a round of the loop over elements
-- and one of the loop over fields each use fuel.
unfoldable mutual
  pub skip_shape : (fuel : ℕ) → Shape → Reader → Skipped
  skip_shape zero s r = hang
  skip_shape (suc fuel) (fixed width) r = ret (ok, advance r width)
  skip_shape (suc fuel) counted r = read_or_fail (read_length r) λ n r1. ret (ok, advance r1 n)
  skip_shape (suc fuel) elements r =
      read_or_fail (read_array_header r)
        λ (type, count) r1. skip_elements fuel count (shape type) r1
  skip_shape (suc fuel) members r =
      read_or_fail (read_object_header r) λ id r1. skip_members fuel r1
  skip_shape (suc fuel) unknown r = ret (failed, r)

  pub skip_elements : (fuel count : ℕ) → Shape → Reader → Skipped
  skip_elements fuel zero s r = ret (ok, r)
  skip_elements zero (suc count) s r = hang
  skip_elements (suc fuel) (suc count) s r =
      skip_or_fail (skip_shape fuel s r) (skip_elements fuel count s)

  -- `while (position < length)`
  pub skip_members : (fuel : ℕ) → Reader → Skipped
  skip_members zero r = hang
  skip_members (suc fuel) r =
      let field =
        read_or_fail (read_field_header r)
          λ (id, type) r1. skip_or_fail (skip_shape fuel (shape type) r1) (skip_members fuel) in
      let round = byte_at r >>= λ b. if b == 0xFF then ret (ok, advance r 1) else field in
      if ltb r.position r.size then round else ret (ok, r)

unfoldable pub skip_value : (fuel : ℕ) → EdfType → Reader → Skipped
skip_value fuel type r = skip_shape fuel (shape type) r

unfoldable pub skip_field : (fuel : ℕ) → Reader → Skipped
skip_field fuel r = read_or_fail (read_field_header r) λ (id, type) r1. skip_value fuel type r1
