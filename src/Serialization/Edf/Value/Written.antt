-- ===== src/Serialization/Edf/Value/Written.antt =====
-- What the write of a value appends.
use micro_posix.Prelude.{ℕ, refl, sym, subst, [], append-nil, arith, ok, ◌%◌, ◌≡◌, ◌∷◌, ◌++◌}
use micro_posix.Run.{ret}
use micro_posix.Serialization.Edf.Types.{
  EdfType, edf_bool, edf_int8, edf_int16, edf_int32, edf_int64, edf_uint8, edf_uint16, edf_uint32,
  edf_uint64, edf_float, edf_double, edf_fixed32, edf_fixed64, edf_sfixed32, edf_sfixed64,
}
use micro_posix.Serialization.Edf.Writer.{
  then_write, write_byte, write_field_header, write_bool, write_int8, write_uint8, write_int16,
  write_int32, write_int64, write_uint16, write_uint32, write_uint64, write_float, write_double,
  write_array_header, write_object_header,
}
use micro_posix.Serialization.Edf.Skip.{shape}
use micro_posix.Serialization.Edf.Emit.{
  HasRoom-le, Emits, Emits-then, write_byte-Emits, write_object_end-Emits,
}
use micro_posix.Serialization.Edf.Emit.Numbers.{write_field_header-Emits, write_le-Emits}
use micro_posix.Serialization.Edf.Emit.Calls.{
  write_string-Emits, write_bytes-Emits, write_array_header-Emits, write_object_header-Emits,
}
use micro_posix.Serialization.Edf.Value.{
  kind, count, write_scalar, write_value, write_items, write_members, width, encoding,
  items_encoding, members_encoding, IsScalar, IsTyped, HaveType, HaveFields, Items, Members, Value,
  scalar, string, bytes, sequence, structure, no_more, more, end_marker, member,
}
use micro_posix.Serialization.Protobuf.Writer.Room.{written}
use micro_posix.Serialization.Protobuf.Writer.Send.{le_bytes}

one_byte : (b n : ℕ) → b ≡ n % 256 → Emits (write_byte b) (le_bytes 1 n)
unfolding le_bytes
one_byte b n e = subst (λ (x : ℕ). Emits (write_byte b) (x ∷ [])) e (write_byte-Emits b)

write_scalar-Emits :
    (t : EdfType) (n : ℕ) → IsScalar t n → Emits (write_scalar t n) (le_bytes (width (shape t)) n)
unfolding write_bool write_int8 write_uint8 write_int16 write_uint16 write_int32 write_uint32
    write_int64 write_uint64 write_float write_double
write_scalar-Emits edf_bool n h = one_byte _ n (ground arith)
write_scalar-Emits edf_int8 n h = one_byte (n % 256) n refl
write_scalar-Emits edf_uint8 n h = one_byte n n (omega arith)
write_scalar-Emits edf_int16 n h = write_le-Emits 2 n
write_scalar-Emits edf_uint16 n h = write_le-Emits 2 n
write_scalar-Emits edf_int32 n h = write_le-Emits 4 n
write_scalar-Emits edf_uint32 n h = write_le-Emits 4 n
write_scalar-Emits edf_float n h = write_le-Emits 4 n
write_scalar-Emits edf_fixed32 n h = write_le-Emits 4 n
write_scalar-Emits edf_sfixed32 n h = write_le-Emits 4 n
write_scalar-Emits edf_int64 n h = write_le-Emits 8 n
write_scalar-Emits edf_uint64 n h = write_le-Emits 8 n
write_scalar-Emits edf_double n h = write_le-Emits 8 n
write_scalar-Emits edf_fixed64 n h = write_le-Emits 8 n
write_scalar-Emits edf_sfixed64 n h = write_le-Emits 8 n
write_scalar-Emits t n h = absurd h

nothing-Emits : Emits (λ w. ret (ok, w)) []
nothing-Emits w n v room = (
  w,
  refl,
  record {
    valid = v;
    appended = sym (append-nil (written w));
    position = omega arith;
    realloc = refl;
  },
  HasRoom-le w _ n (omega arith) room,
)

mutual
  unfolding write_value encoding IsTyped

  pub write_value-Emits : (v : Value) → IsTyped v → Emits (write_value v) (encoding v)
  write_value-Emits (scalar t n) h = write_scalar-Emits t n h
  write_value-Emits (string s) h = write_string-Emits s h
  write_value-Emits (bytes s) h = write_bytes-Emits s h
  write_value-Emits (sequence t items) (named, lt, h) =
      Emits-then (write_array_header t (count items)) (write_items items) _ (items_encoding items)
        (write_array_header-Emits t (count items) lt) (write_items-Emits t items h)
  write_value-Emits (structure id fields) (lt, h) =
      Emits-then (write_object_header id) (write_members fields) _ (members_encoding fields)
        (write_object_header-Emits id) (write_members-Emits fields h)

  write_items-Emits :
      (t : EdfType) (items : Items)
      → HaveType t items
      → Emits (write_items items) (items_encoding items)
  write_items-Emits t no_more h = nothing-Emits
  write_items-Emits t (more v rest) (e, h, hs) =
      Emits-then (write_value v) (write_items rest) (encoding v) (items_encoding rest)
        (write_value-Emits v h) (write_items-Emits t rest hs)

  write_members-Emits :
      (fields : Members)
      → HaveFields fields
      → Emits (write_members fields) (members_encoding fields)
  write_members-Emits end_marker h = write_object_end-Emits
  write_members-Emits (member id v rest) (lt, plain, named, h, hs) =
      Emits-then (write_field_header id (kind v)) (then_write (write_value v) (write_members rest))
        _ (encoding v ++ members_encoding rest) (write_field_header-Emits id (kind v) lt)
        (Emits-then (write_value v) (write_members rest) (encoding v) (members_encoding rest)
          (write_value-Emits v h) (write_members-Emits rest hs))
