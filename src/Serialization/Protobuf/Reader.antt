-- ===== src/Serialization/Protobuf/Reader.antt =====
-- The reader of src/serialization/protobuf.c. A read gives an option beside the new reader: `none`
-- where the function returns -1, else what it stores through its pointers.
pub mod Decode
use micro_posix.Prelude.{
  ℕ, zero, suc, bit_and, bit_or, Bool, false, not, Option, none, some, List, ltb, leb, size_mod,
  u64_mod, Status, ok, failed, get_elem?, load_bytes, ◌+◌, ◌-◌, ◌*◌, ◌/◌, ◌%◌, ◌^◌, ◌==◌,
  if◌then◌else◌,
}
use micro_posix.Run.{Run, ret, fault, hang, ◌>>=◌}
use micro_posix.Serialization.Protobuf.Writer.{unzigzag32, unzigzag64}

-- `mp_protobuf_reader_t`. The list is the memory that `buffer` leads to.
pub record Reader : Type 0 where
  pub buffer : List ℕ
  pub position : ℕ
  pub size : ℕ
  pub owns_buffer : Bool

unfoldable pub reader_init : (buffer : List ℕ) (size : ℕ) → Reader
reader_init buffer size = record { buffer = buffer; position = 0; size = size; owns_buffer = false }

unfoldable pub reader_remaining : Reader → ℕ
reader_remaining r = (r.size + size_mod - r.position) % size_mod

unfoldable pub reader_position : Reader → ℕ
reader_position r = r.position

unfoldable pub reader_set_position : Reader → ℕ → Status × Reader
reader_set_position r position =
    if ltb r.size position then (failed, r) else (ok, record r { position = position })

-- A result and the new reader.
abbrev pub Read : Type 0 → Type 0
Read A = Run (Option A × Reader)

abbrev pub advance : Reader → ℕ → Reader
advance r n = record r { position = (r.position + n) % size_mod }

-- `buffer[position]`
abbrev pub fetched : Option ℕ → Run ℕ
fetched none = fault
fetched (some b) = ret b

unfoldable pub byte_at : Reader → Run ℕ
byte_at r = fetched (get_elem? r.buffer r.position)

-- `buffer[position++]`
unfoldable pub next_byte : Reader → Run (ℕ × Reader)
next_byte r = byte_at r >>= λ b. ret (b, advance r 1)

-- The loop of `mp_protobuf_read_varint`, from the test of the end on; `shift` grows by 7 up to 63, so
-- there are 10 rounds at most.
unfoldable pub read_groups : (fuel shift result : ℕ) → Reader → Read ℕ
read_groups zero shift result r = hang
read_groups (suc fuel) shift result r =
    let more = next_byte r >>= λ (b, r1).
    let result' = bit_or result (bit_and b 0x7F * 2 ^ shift % u64_mod) in
    let rest = read_groups fuel (shift + 7) result' r1 in
    if bit_and b 0x80 == 0
    then ret (some result', r1)
    else if leb 64 (shift + 7)
    then ret (none, r1)
    else rest in
    if leb r.size r.position then ret (none, r) else more

unfoldable pub read_varint : Reader → Read ℕ
read_varint r = read_groups 10 0 0 r

-- `n` bytes, lowest first, from bit `shift` on: the lines `result |= (uint64_t)buffer[position++] << shift`.
unfoldable pub read_le : (n shift result : ℕ) → Reader → Run (ℕ × Reader)
read_le zero shift result r = ret (result, r)
read_le (suc n) shift result r =
    next_byte r >>= λ (b, r1). read_le n (shift + 8) (bit_or result (b * 2 ^ shift)) r1

unfoldable pub read_fixed : (n : ℕ) → Reader → Read ℕ
read_fixed n r =
    if ltb r.size ((r.position + n) % size_mod)
    then ret (none, r)
    else (read_le n 0 0 r >>= λ (value, r1). ret (some value, r1))

unfoldable pub read_fixed32 : Reader → Read ℕ
read_fixed32 r = read_fixed 4 r

unfoldable pub read_fixed64 : Reader → Read ℕ
read_fixed64 r = read_fixed 8 r

-- A read that goes on with what another read has given.
abbrev pub and_then : {A B : Type 0} → Read A → (A → Reader → Read B) → Read B
and_then m f = m >>= λ (out, r). elim out [ none ↦ ret (none, r) | some a ↦ f a r ]

-- The bytes are where `*data` points to; their number is `*length`.
unfoldable pub read_length_delimited : Reader → Read (List ℕ)
read_length_delimited r = and_then (read_varint r) λ len r1.
    if ltb (reader_remaining r1) len
    then ret (none, r1)
    else ret (some (load_bytes r1.buffer r1.position (len % size_mod)), advance r1 len)

-- `allocated` says whether `malloc` gave the memory for the copy.
unfoldable pub read_copy : (allocated : Bool) → Reader → Read (List ℕ)
read_copy allocated r =
    and_then (read_length_delimited r) λ bytes r1. ret (if allocated then some bytes else none, r1)

-- The string is without the 0 that is put behind it.
unfoldable pub read_string : (allocated : Bool) → Reader → Read (List ℕ)
read_string allocated r = read_copy allocated r

unfoldable pub read_bytes : (allocated : Bool) → Reader → Read (List ℕ)
read_bytes allocated r = read_copy allocated r

-- A read of a varint that stores `f` of it.
unfoldable pub read_as : {A : Type 0} → (ℕ → A) → Reader → Read A
read_as f r = and_then (read_varint r) λ value r1. ret (some (f value), r1)

unfoldable pub read_bool : Reader → Read Bool
read_bool r = read_as (λ value. not (value == 0)) r

unfoldable pub read_enum : Reader → Read ℕ
read_enum r = read_as (λ value. value % size_mod) r

-- The field number and the wire type.
unfoldable pub read_field_header : Reader → Read (ℕ × ℕ)
read_field_header r = read_as (λ tag. (tag / 2 ^ 3 % size_mod, bit_and tag 0x07)) r

unfoldable pub read_double : Reader → Read ℕ
read_double r = read_fixed64 r

unfoldable pub read_float : Reader → Read ℕ
read_float r = read_fixed32 r

unfoldable pub read_int32 : Reader → Read ℕ
read_int32 r = read_as (λ value. value % size_mod) r

unfoldable pub read_int64 : Reader → Read ℕ
read_int64 r = read_as (λ value. value) r

unfoldable pub read_uint32 : Reader → Read ℕ
read_uint32 r = read_as (λ value. value % size_mod) r

unfoldable pub read_uint64 : Reader → Read ℕ
read_uint64 r = read_varint r

unfoldable pub read_sint32 : Reader → Read ℕ
read_sint32 r = read_as (λ value. unzigzag32 (value % size_mod)) r

unfoldable pub read_sint64 : Reader → Read ℕ
read_sint64 r = read_as unzigzag64 r

unfoldable pub read_sfixed32 : Reader → Read ℕ
read_sfixed32 r = read_fixed32 r

unfoldable pub read_sfixed64 : Reader → Read ℕ
read_sfixed64 r = read_fixed64 r

-- `mp_protobuf_wire_type_t`; any other value takes the `default` of the switch.
pub data WireType : Type 0 where
  varint_wire : WireType
  fixed64_wire : WireType
  length_delimited_wire : WireType
  fixed32_wire : WireType
  other_wire : ℕ → WireType

abbrev pub discard : {A : Type 0} → Read A → Run (Status × Reader)
discard m = m >>= λ (out, r). ret (elim out [ none ↦ failed | some a ↦ ok ], r)

unfoldable pub skip_length_delimited : Reader → Read ℕ
skip_length_delimited r = and_then (read_varint r) λ len r1.
    if ltb (reader_remaining r1) len then ret (none, r1) else ret (some len, advance r1 len)

unfoldable pub skip_field : Reader → WireType → Run (Status × Reader)
skip_field r varint_wire = discard (read_varint r)
skip_field r fixed64_wire = discard (read_fixed64 r)
skip_field r length_delimited_wire = discard (skip_length_delimited r)
skip_field r fixed32_wire = discard (read_fixed32 r)
skip_field r (other_wire n) = ret (failed, r)

abbrev pub wire_type : ℕ → WireType
wire_type n =
    if n == 0
    then varint_wire
    else if n == 1
    then fixed64_wire
    else if n == 2
    then length_delimited_wire
    else if n == 5
    then fixed32_wire
    else other_wire n

unfoldable pub skip_unknown : Reader → Run (Status × Reader)
skip_unknown r = read_field_header r >>= λ (out, r1). elim out [
  | none ↦ ret (failed, r1)
  | some header ↦ skip_field r1 (wire_type header.1)
]
