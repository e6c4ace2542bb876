-- ===== src/Serialization/Edf/Buffers.antt =====
-- The functions of src/serialization/edf.c that set up, reset and end a writer or a reader, and those
-- on whole messages. Their statements are those of protobuf.c, under other names.
use micro_posix.Prelude.{ℕ, Option, List, Status}
use micro_posix.Mm.View.{View}
use micro_posix.Serialization.Protobuf.Writer.{
  Realloc, Writer, writer_init as init_writer, writer_init_dynamic as init_dynamic,
  writer_reset as reset, writer_get_length as get_length,
}
use micro_posix.Serialization.Protobuf.Size.{writer_destroy as destroy_writer}
use micro_posix.Serialization.Protobuf.Buffers.{
  writer_get_data as get_data, reader_init_from_view as init_from_view,
  reader_destroy as destroy_reader, encode_message as encode, decode_message as decode,
  encode_to_buffer as encode_to, decode_from_buffer as decode_from,
}
use micro_posix.Serialization.Protobuf.Reader.{Reader}

abbrev pub writer_init : Option (List ℕ) → (capacity : ℕ) → Writer
writer_init = init_writer

abbrev pub writer_init_dynamic :
    (default : Realloc) (initial_capacity : ℕ) (realloc_fn : Option Realloc) (alloc_data : Option ℕ)
    → Status × Writer
writer_init_dynamic = init_dynamic

abbrev pub writer_destroy : Writer → Option (List ℕ) × Writer
writer_destroy = destroy_writer

abbrev pub writer_reset : Writer → Writer
writer_reset = reset

abbrev pub writer_get_data : (address : ℕ) → Writer → View
writer_get_data = get_data

abbrev pub writer_get_length : Writer → ℕ
writer_get_length = get_length

abbrev pub reader_init_from_view : (memory : ℕ → List ℕ) → Reader → Option View → Status × Reader
reader_init_from_view = init_from_view

abbrev pub reader_destroy : Reader → Option (List ℕ) × Reader
reader_destroy = destroy_reader

abbrev pub encode_message : Writer → (schema message : ℕ) → Status × Writer
encode_message = encode

abbrev pub decode_message : Reader → (schema message : ℕ) → Status × Reader
decode_message = decode

abbrev pub encode_to_buffer : (buffer : Option (List ℕ)) (capacity schema message : ℕ) → Option ℕ
encode_to_buffer = encode_to

abbrev pub decode_from_buffer : (buffer : List ℕ) (size schema message : ℕ) → Option ℕ
decode_from_buffer = decode_from
