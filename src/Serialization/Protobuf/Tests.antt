-- ===== src/Serialization/Protobuf/Tests.antt =====
-- The theorems on the Protocol Buffers format at a static writer of twelve bytes, two of them
-- written, and the number 300.
use micro_posix.Prelude.{ℕ, refl, inl, false, none, some, List, [], arith, ok, ◌≡◌, ◌∷◌}
use micro_posix.Run.{ret}
use micro_posix.Serialization.Protobuf.Writer.{write_varint, Writer}
use micro_posix.Serialization.Protobuf.Writer.Room.{IsValid}
use micro_posix.Serialization.Protobuf.Reader.{reader_remaining, read_varint, Reader}
use micro_posix.Serialization.Protobuf.RoundTrip.{reader_of, read_varint-write_varint}

abbrev twelve : List ℕ
twelve = 1 ∷ 2 ∷ 0 ∷ 0 ∷ 0 ∷ 0 ∷ 0 ∷ 0 ∷ 0 ∷ 0 ∷ 0 ∷ 0 ∷ []

abbrev writer : Writer
writer = record {
  buffer = some twelve;
  position = 2;
  capacity = 12;
  owns_buffer = false;
  realloc_fn = none;
  alloc_data = none;
}

writer-IsValid : IsValid writer
writer-IsValid = record { memory = refl; inside = omega arith; small = omega arith }

read_varint-write_varint_example :
    (w' : Writer) × (write_varint writer 300 ≡ ret (ok, w'))
    × ((r : Reader) × (read_varint (reader_of w' 2) ≡ ret (some 300, r)) × (reader_remaining r ≡ 0))
read_varint-write_varint_example =
    read_varint-write_varint writer 300 writer-IsValid (inl (omega arith)) (omega arith)
