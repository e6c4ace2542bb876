-- ===== src/Serialization/Protobuf/Buffers.antt =====
-- The views of a writer's and for a reader's buffer in src/serialization/protobuf.c, the end of a
-- reader, and the functions on whole messages, whose bodies the source leaves open.
use micro_posix.Prelude.{
  ℕ, false, not, Option, none, some, List, [], Status, ok, failed, length, ◌&&◌, ◌==◌,
  if◌then◌else◌,
}
use micro_posix.Mm.View.{empty_view, View}
use micro_posix.Serialization.Protobuf.Writer.{writer_init, Writer}
use micro_posix.Serialization.Protobuf.Reader.{reader_init, Reader}

-- `address` is where the writer's buffer stands, if it has one.
unfoldable pub writer_get_data : (address : ℕ) → Writer → View
writer_get_data address w = elim w.buffer [
  | none ↦ empty_view
  | some memory ↦ record {
    data_at = address;
    length_of = w.position;
    capacity = w.capacity;
    offset = 0;
    owns_data = false;
    free_fn = 0;
  }
]

-- `memory` gives the bytes that stand at an address.
unfoldable pub reader_init_from_view :
    (memory : ℕ → List ℕ) → Reader → Option View → Status × Reader
reader_init_from_view memory r none = (failed, r)
reader_init_from_view memory r (some view) =
    if view.data_at == 0
    then (failed, r)
    else (ok, reader_init (memory view.data_at) view.length_of)

-- The memory that is freed, if any, and the reader; a null buffer is the empty list.
unfoldable pub reader_destroy : Reader → Option (List ℕ) × Reader
reader_destroy r = (
  if r.owns_buffer && not (length r.buffer == 0) then some r.buffer else none,
  record { buffer = []; position = 0; size = 0; owns_buffer = false },
)

-- A schema is the address of its descriptor, and so is the message.
unfoldable pub encode_message : Writer → (schema message : ℕ) → Status × Writer
encode_message w schema message = (failed, w)

unfoldable pub decode_message : Reader → (schema message : ℕ) → Status × Reader
decode_message r schema message = (failed, r)

-- The number of bytes, or `none` for -1.
unfoldable pub encode_to_buffer :
    (buffer : Option (List ℕ)) (capacity schema message : ℕ) → Option ℕ
encode_to_buffer buffer capacity schema message =
    let (status, w) = encode_message (writer_init buffer capacity) schema message in
    elim status [ failed ↦ none | ok ↦ some w.position ]

unfoldable pub decode_from_buffer : (buffer : List ℕ) (size schema message : ℕ) → Option ℕ
decode_from_buffer buffer size schema message =
    let (status, r) = decode_message (reader_init buffer size) schema message in
    elim status [ failed ↦ none | ok ↦ some r.position ]
