-- ===== src/Serialization/Edf/Reader.antt =====
-- The reader of src/serialization/edf.c. A read gives an option beside the new reader: `none` where the
-- function returns -1, else what it stores through its pointers.
use micro_posix.Prelude.{
  ℕ, zero, suc, bit_and, bit_or, Bool, true, false, not, Option, none, some, List, ltb, leb,
  size_mod, Status, ok, failed, length, load_bytes, ◌+◌, ◌-◌, ◌*◌, ◌%◌, ◌^◌, ◌==◌, if◌then◌else◌,
}
use micro_posix.Run.{Run, ret, fault, hang, ◌>>=◌}
use micro_posix.Serialization.Protobuf.Reader.{Read, advance, byte_at, next_byte, and_then, Reader}
use micro_posix.Serialization.Edf.Types.{type_of, code, EdfType, edf_null, edf_array, edf_object}

unfoldable pub reader_init : (buffer : List ℕ) (size : ℕ) → Reader
reader_init buffer size = record { buffer = buffer; position = 0; size = size; owns_buffer = false }

unfoldable pub reader_remaining : Reader → ℕ
reader_remaining r = (r.size + size_mod - r.position) % size_mod

unfoldable pub reader_position : Reader → ℕ
reader_position r = r.position

unfoldable pub reader_set_position : Reader → ℕ → Status × Reader
reader_set_position r position =
    if ltb r.size position then (failed, r) else (ok, record r { position = position })

-- A read that stores `f` of what another read gives.
abbrev pub stored : {A B : Type 0} → (A → B) → Read A → Read B
stored f m = and_then m λ a r. ret (some (f a), r)

-- `if (position >= length) return -1;` and `buffer[position++]`.
unfoldable pub read_byte : Reader → Read ℕ
read_byte r =
    let next = next_byte r >>= λ (b, r1). ret (some b, r1) in
    if leb r.size r.position then ret (none, r) else next

unfoldable pub read_type : Reader → Read EdfType
read_type r = stored type_of (read_byte r)

-- The loops of `mp_edf_read_field_header` and `mp_edf_read_length`, which give up when the shift
-- reaches `bound`. The shifted number has 32 bits, and a shift by 32 or more is undefined.
unfoldable pub read_groups : (bound fuel shift result : ℕ) → Reader → Read ℕ
read_groups bound zero shift result r = hang
read_groups bound (suc fuel) shift result r = and_then (read_byte r) λ b r1.
    let result' = bit_or result (bit_and b 0x7F * 2 ^ shift % size_mod) in
    let rest = read_groups bound fuel (shift + 7) result' r1 in
    let round =
      if bit_and b 0x80 == 0
      then ret (some result', r1)
      else if leb bound (shift + 7)
      then ret (none, r1)
      else rest in
    if ltb shift 32 then round else fault

-- `bound` is 64: the sixth round is the last, since it shifts by 35.
unfoldable pub read_length : Reader → Read ℕ
read_length r = read_groups 64 6 0 0 r

-- `bound` is 32, which the fifth round reaches.
unfoldable pub read_field_header : Reader → Read (ℕ × EdfType)
read_field_header r =
    and_then (read_groups 32 5 0 0 r) λ id r1. stored (λ type. (id, type)) (read_type r1)

unfoldable pub read_bool : Reader → Read Bool
read_bool r = stored (λ b. not (b == 0)) (read_byte r)

unfoldable pub read_int8 : Reader → Read ℕ
read_int8 r = read_byte r

unfoldable pub read_uint8 : Reader → Read ℕ
read_uint8 r = read_byte r

-- `b << shift` on a byte, which C widens to the 32 bits of an int; a shift by the width or more is
-- undefined. A one that is shifted into the sign bit is kept, as the compiler of the build defines it.
unfoldable pub shift_int : (b shift : ℕ) → Run ℕ
shift_int b shift = if ltb shift 32 then ret (b * 2 ^ shift % size_mod) else fault

-- `buffer[position + i] | (buffer[position + i + 1] << 8) | …`, `n` bytes.
unfoldable pub gather : (n i shift result : ℕ) → Reader → Run ℕ
gather zero i shift result r = ret result
gather (suc n) i shift result r = byte_at (advance r i) >>= λ b.
    shift_int b shift >>= λ shifted. gather n (suc i) (shift + 8) (bit_or result shifted) r

-- `if (position + n > length) return -1;`, the bytes, and `position += n;`
unfoldable pub read_le : (n : ℕ) → Reader → Read ℕ
read_le n r =
    let all = gather n 0 0 0 r >>= λ value. ret (some value, advance r n) in
    if ltb r.size ((r.position + n) % size_mod) then ret (none, r) else all

unfoldable pub read_int16 : Reader → Read ℕ
read_int16 r = read_le 2 r

unfoldable pub read_int32 : Reader → Read ℕ
read_int32 r = read_le 4 r

unfoldable pub read_int64 : Reader → Read ℕ
read_int64 r = read_le 8 r

unfoldable pub read_uint16 : Reader → Read ℕ
read_uint16 r = read_le 2 r

unfoldable pub read_uint32 : Reader → Read ℕ
read_uint32 r = read_le 4 r

unfoldable pub read_uint64 : Reader → Read ℕ
read_uint64 r = read_le 8 r

unfoldable pub read_float : Reader → Read ℕ
read_float r = read_uint32 r

unfoldable pub read_double : Reader → Read ℕ
read_double r = read_uint64 r

-- `memcpy(copy, buffer + position, n)`
unfoldable pub copied : Reader → (n : ℕ) → Run (List ℕ)
copied r n =
    if leb (r.position + n) (length r.buffer) then ret (load_bytes r.buffer r.position n) else fault

-- What the caller wants: only the length (a null pointer), or a copy, for which `malloc` gives memory
-- or not.
pub data Wanted : Type 0 where
  only_length : Wanted
  copy : (allocated : Bool) → Wanted

-- The bytes, if they are wanted, and their number.
abbrev pub Counted : Type 0
Counted = Option (List ℕ) × ℕ

abbrev pub read_content : Wanted → (n : ℕ) → Reader → Read Counted
read_content only_length n r = ret (some (none, n), advance r n)
read_content (copy false) n r = ret (none, r)
read_content (copy true) n r = copied r n >>= λ bytes. ret (some (some bytes, n), advance r n)

-- The copy of a string is without the 0 that is put behind it.
unfoldable pub read_string : Wanted → Reader → Read Counted
read_string wanted r = and_then (read_length r) λ n r1.
    let content = read_content wanted n r1 in
    if ltb r1.size ((r1.position + n) % size_mod) then ret (none, r1) else content

-- The same statements as those of `mp_edf_read_string`, less the 0.
unfoldable pub read_bytes : Wanted → Reader → Read Counted
read_bytes wanted r = and_then (read_length r) λ n r1.
    let content = read_content wanted n r1 in
    if ltb r1.size ((r1.position + n) % size_mod) then ret (none, r1) else content

-- `if (type != expected) return -1;` behind the read of a type.
abbrev pub expect : {A : Type 0} → (expected : EdfType) → Reader → (Reader → Read A) → Read A
expect expected r continue =
    and_then (read_type r) λ type r1.
      let rest = continue r1 in if code type == code expected then rest else ret (none, r1)

unfoldable pub read_null : Reader → Read Unit
read_null r = expect edf_null r λ r1. ret (some tt, r1)

unfoldable pub read_array_header : Reader → Read (EdfType × ℕ)
read_array_header r =
    expect edf_array r
      λ r1. and_then (read_type r1) λ type r2. stored (λ count. (type, count)) (read_length r2)

unfoldable pub read_object_header : Reader → Read ℕ
read_object_header r = expect edf_object r λ r1. read_uint32 r1

unfoldable pub read_object_end : Reader → Read Unit
read_object_end r = and_then (read_byte r) λ b r1. ret (if b == 0xFF then some tt else none, r1)
