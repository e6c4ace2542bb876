-- ===== src/Serialization/Edf/Tests.antt =====
-- The theorems on the Embedded Data Format at a static writer of 24 bytes, two of them written, and on
-- short buffers.
use micro_posix.Prelude.{
  ℕ, refl, inl, inr, true, false, none, some, List, [], arith, size_mod, ok, length, replicate, ◌-◌,
  ◌≤◌, ◌≡◌, ◌∷◌,
}
use micro_posix.Run.{ret, fault, hang}
use micro_posix.Serialization.Edf.Types.{edf_bool, edf_uint16, edf_object}
use micro_posix.Serialization.Edf.Writer.{write_field_header, write_le, write_uint64, write_string}
use micro_posix.Serialization.Edf.Reader.{
  reader_init, read_le, read_int64, read_uint64, read_double, read_string, copy,
}
use micro_posix.Serialization.Edf.Skip.{skip_members, skip_value}
use micro_posix.Serialization.Edf.Emit.Numbers.{varint32}
use micro_posix.Serialization.Edf.RoundTrip.{read_string-write_string, read_le-write_le}
use micro_posix.Serialization.Edf.Value.{
  count, write_value, encoding, IsTyped, size, Value, scalar, string, sequence, structure, no_more,
  more, end_marker, member,
}
use micro_posix.Serialization.Edf.Value.Skipping.{skip_value-write_value}
use micro_posix.Serialization.Edf.Faults.{
  read_uint64-write_uint64-fault, read_string-overrun, skip_members-write_field_header,
}
use micro_posix.Serialization.Edf.Faults.Endless.{backwards, skip_value-hang}
use micro_posix.Serialization.Protobuf.Writer.{Writer}
use micro_posix.Serialization.Protobuf.Writer.Room.{IsValid}
use micro_posix.Serialization.Protobuf.Writer.Put.{varint}
use micro_posix.Serialization.Protobuf.Writer.Send.{le_bytes}
use micro_posix.Serialization.Protobuf.Reader.{advance}
use micro_posix.Serialization.Protobuf.RoundTrip.{reader_of}

abbrev writer : Writer
writer = record {
  buffer = some (1 ∷ 2 ∷ replicate 22 0);
  position = 2;
  capacity = 24;
  owns_buffer = false;
  realloc_fn = none;
  alloc_data = none;
}

writer-IsValid : IsValid writer
writer-IsValid = record { memory = refl; inside = omega arith; small = omega arith }

-- An object of schema 7 with an array of two numbers and a string.
abbrev thing : Value
thing = structure 7 (
    member 1
      (sequence edf_uint16 (more (scalar edf_uint16 300) (more (scalar edf_uint16 5) no_more)))
      (member 200 (string (b'a' ∷ b'b' ∷ [])) end_marker))

thing-IsTyped : IsTyped thing
unfolding IsTyped count
thing-IsTyped = (
  omega arith,
  (
    omega arith,
    inl (omega arith),
    refl,
    (refl, omega arith, (refl, omega arith, (refl, omega arith, tt))),
    (omega arith, inr (omega arith), refl, omega arith, tt),
  ),
)

thing_fits : length (encoding thing) ≤ 22
unfolding encoding count varint le_bytes
thing_fits = omega arith

thing_fuel : size thing ≤ 10
unfolding size
thing_fuel = omega arith

skip_value-write_value_example :
    (w' : Writer) × (write_value thing writer ≡ ret (ok, w'))
    × (skip_value 10 edf_object (reader_of w' 2) ≡ ret (ok, reader_of w' w'.position))
skip_value-write_value_example =
    skip_value-write_value writer thing 10 writer-IsValid thing-IsTyped
      (inl (omega (arith, thing_fits))) thing_fuel

abbrev abc : List ℕ
abc = b'a' ∷ b'b' ∷ b'c' ∷ []

read_string-write_string_example :
    (w' : Writer) × (write_string abc writer ≡ ret (ok, w'))
    × (read_string (copy true) (reader_of w' 2)
        ≡ ret (some (some abc, 3), reader_of w' w'.position))
read_string-write_string_example =
    read_string-write_string writer abc (copy true) writer-IsValid (omega arith) (inl (omega arith))
      refl

read_le-write_le_example :
    (w' : Writer) × (write_le 4 70000 writer ≡ ret (ok, w'))
    × (read_le 4 (reader_of w' 2) ≡ ret (some 70000, reader_of w' w'.position))
read_le-write_le_example =
    read_le-write_le writer 4 70000 writer-IsValid (inl (omega arith)) (omega arith) (omega arith)

read_uint64-write_uint64-fault_example :
    (w' : Writer) × (write_uint64 5 writer ≡ ret (ok, w'))
    × (read_uint64 (reader_of w' 2) ≡ fault)
    × (read_int64 (reader_of w' 2) ≡ fault)
    × (read_double (reader_of w' 2) ≡ fault)
read_uint64-write_uint64-fault_example =
    read_uint64-write_uint64-fault writer 5 writer-IsValid (inl (omega arith))

skip_members-write_field_header_example :
    (w' : Writer) × (write_field_header 255 edf_bool writer ≡ ret (ok, w'))
    × (skip_members 3 (reader_of w' 2) ≡ ret (ok, advance (reader_of w' 2) 1))
skip_members-write_field_header_example =
    skip_members-write_field_header writer 255 2 edf_bool writer-IsValid (inl (omega arith))
      (omega arith) (omega arith) refl

-- The length 2^32 - 1.
abbrev long_text : List ℕ
long_text = 0xFF ∷ 0xFF ∷ 0xFF ∷ 0xFF ∷ 0x0F ∷ 65 ∷ []

long_varint : varint32 (size_mod - 1) ≡ 0xFF ∷ 0xFF ∷ 0xFF ∷ 0xFF ∷ 0x0F ∷ []
unfolding varint
long_varint = refl

read_string-overrun_example : read_string (copy true) (reader_init long_text 6) ≡ fault
unfolding reader_init
read_string-overrun_example =
    read_string-overrun (reader_init long_text 6) (size_mod - 1) (65 ∷ [])
      (rw long_varint (record { ahead = refl; count = refl; whole = refl; small = omega arith }))
      (omega arith) (rw long_varint (omega arith))

-- An object of schema 7 and the field that leads back to itself, under the id 1.
abbrev looping : List ℕ
looping = 15 ∷ 7 ∷ 0 ∷ 0 ∷ 0 ∷ backwards 1

skip_value-hang_example : skip_value 1000 edf_object (reader_init looping 12) ≡ hang
unfolding reader_init le_bytes
skip_value-hang_example =
    skip_value-hang 1000 7 1 (reader_init looping 12) []
      (record { ahead = refl; count = refl; whole = refl; small = omega arith }) (omega arith)
      (omega arith)
