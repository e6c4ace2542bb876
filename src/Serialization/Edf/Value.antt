-- ===== src/Serialization/Edf/Value.antt =====
-- Values as a caller of src/serialization/edf.c writes them: by the write function of the type, arrays
-- and objects as a header with what follows it. Nulls are left out: the type byte that
-- `mp_edf_write_null` writes is not one that the skip of a null passes.
pub mod Written
pub mod Skipping
use micro_posix.Prelude.{
  ℕ, suc, not, List, [], size_mod, ok, failed, length, ◌+◌, ◌%◌, ◌^◌, ◌<◌, ◌≡◌, ◌⊎◌, ◌∷◌, ◌++◌,
  ◌==◌,
}
use micro_posix.Run.{ret}
use micro_posix.Serialization.Edf.Types.{
  code, IsNamed, EdfType, edf_bool, edf_int8, edf_int16, edf_int32, edf_int64, edf_uint8,
  edf_uint16, edf_uint32, edf_uint64, edf_float, edf_double, edf_string, edf_bytes, edf_array,
  edf_object, edf_fixed32, edf_fixed64, edf_sfixed32, edf_sfixed64,
}
use micro_posix.Serialization.Edf.Writer.{
  Action, then_write, write_field_header, write_bool, write_int8, write_uint8, write_int16,
  write_int32, write_int64, write_uint16, write_uint32, write_uint64, write_float, write_double,
  write_string, write_bytes, write_array_header, write_object_header, write_object_end,
}
use micro_posix.Serialization.Edf.Skip.{shape, Shape, fixed}
use micro_posix.Serialization.Edf.Emit.Numbers.{varint32}
use micro_posix.Serialization.Edf.Emit.Calls.{counted_bytes}
use micro_posix.Serialization.Protobuf.Writer.Send.{le_bytes}

mutual
  -- A number is given with its type.
  pub data Value : Type 0 where
    scalar : EdfType → ℕ → Value
    string : List ℕ → Value
    bytes : List ℕ → Value
    sequence : (element_type : EdfType) → Items → Value
    structure : (schema_id : ℕ) → Members → Value

  pub data Items : Type 0 where
    no_more : Items
    more : Value → Items → Items

  pub data Members : Type 0 where
    end_marker : Members
    member : (field_id : ℕ) → Value → Members → Members

abbrev pub kind : Value → EdfType
kind (scalar t n) = t
kind (string s) = edf_string
kind (bytes s) = edf_bytes
kind (sequence t items) = edf_array
kind (structure id fields) = edf_object

unfoldable pub count : Items → ℕ
count no_more = 0
count (more v rest) = suc (count rest)

-- The call that writes a number of a type.
abbrev pub write_scalar : EdfType → ℕ → Action
write_scalar edf_bool n = write_bool (not (n == 0))
write_scalar edf_int8 n = write_int8 n
write_scalar edf_int16 n = write_int16 n
write_scalar edf_int32 n = write_int32 n
write_scalar edf_int64 n = write_int64 n
write_scalar edf_uint8 n = write_uint8 n
write_scalar edf_uint16 n = write_uint16 n
write_scalar edf_uint32 n = write_uint32 n
write_scalar edf_uint64 n = write_uint64 n
write_scalar edf_float n = write_float n
write_scalar edf_double n = write_double n
write_scalar edf_fixed32 n = write_uint32 n
write_scalar edf_fixed64 n = write_uint64 n
write_scalar edf_sfixed32 n = write_int32 n
write_scalar edf_sfixed64 n = write_int64 n
write_scalar t n = λ w. ret (failed, w)

unfoldable mutual
  pub write_value : Value → Action
  write_value (scalar t n) = write_scalar t n
  write_value (string s) = write_string s
  write_value (bytes s) = write_bytes s
  write_value (sequence t items) =
      then_write (write_array_header t (count items)) (write_items items)
  write_value (structure id fields) = then_write (write_object_header id) (write_members fields)

  pub write_items : Items → Action
  write_items no_more = λ w. ret (ok, w)
  write_items (more v rest) = then_write (write_value v) (write_items rest)

  pub write_members : Members → Action
  write_members end_marker = write_object_end
  write_members (member id v rest) =
      then_write (write_field_header id (kind v)) (then_write (write_value v) (write_members rest))

abbrev pub width : Shape → ℕ
width (fixed n) = n
width s = 0

-- The bytes of a value.
unfoldable mutual
  pub encoding : Value → List ℕ
  encoding (scalar t n) = le_bytes (width (shape t)) n
  encoding (string s) = counted_bytes s
  encoding (bytes s) = counted_bytes s
  encoding (sequence t items) =
      (14 ∷ (code t % 256) ∷ varint32 (count items)) ++ items_encoding items
  encoding (structure id fields) = (15 ∷ le_bytes 4 id) ++ members_encoding fields

  pub items_encoding : Items → List ℕ
  items_encoding no_more = []
  items_encoding (more v rest) = encoding v ++ items_encoding rest

  pub members_encoding : Members → List ℕ
  members_encoding end_marker = 0xFF ∷ []
  members_encoding (member id v rest) =
      (varint32 id ++ ((code (kind v) % 256) ∷ [])) ++ (encoding v ++ members_encoding rest)

-- A number of the type, which is one of those with a width.
abbrev pub IsScalar : EdfType → ℕ → Type 0
IsScalar edf_bool n = n < 2
IsScalar edf_int8 n = n < 2 ^ 8
IsScalar edf_int16 n = n < 2 ^ 16
IsScalar edf_int32 n = n < 2 ^ 32
IsScalar edf_int64 n = n < 2 ^ 64
IsScalar edf_uint8 n = n < 2 ^ 8
IsScalar edf_uint16 n = n < 2 ^ 16
IsScalar edf_uint32 n = n < 2 ^ 32
IsScalar edf_uint64 n = n < 2 ^ 64
IsScalar edf_float n = n < 2 ^ 32
IsScalar edf_double n = n < 2 ^ 64
IsScalar edf_fixed32 n = n < 2 ^ 32
IsScalar edf_fixed64 n = n < 2 ^ 64
IsScalar edf_sfixed32 n = n < 2 ^ 32
IsScalar edf_sfixed64 n = n < 2 ^ 64
IsScalar t n = ⊥

-- The first byte of the varint of a field id is not 0xFF.
abbrev pub IsPlain : ℕ → Type 0
IsPlain id = (id < 128) ⊎ (id % 128 < 127)

-- A value, with no null in it, with numbers inside their types, lengths inside size_t, elements of the array's type, and no
-- field id that begins like an end marker.
unfoldable mutual
  pub IsTyped : Value → Type 0
  IsTyped (scalar t n) = IsScalar t n
  IsTyped (string s) = length s < size_mod
  IsTyped (bytes s) = length s < size_mod
  IsTyped (sequence t items) = IsNamed t × (count items < size_mod) × HaveType t items
  IsTyped (structure id fields) = (id < size_mod) × HaveFields fields

  pub HaveType : EdfType → Items → Type 0
  HaveType t no_more = Unit {0}
  HaveType t (more v rest) = (kind v ≡ t) × IsTyped v × HaveType t rest

  pub HaveFields : Members → Type 0
  HaveFields end_marker = Unit {0}
  HaveFields (member id v rest) =
      (id < size_mod) × IsPlain id × IsNamed (kind v) × IsTyped v × HaveFields rest

-- The fuel that the skip of a value needs.
unfoldable mutual
  pub size : Value → ℕ
  size (scalar t n) = 1
  size (string s) = 1
  size (bytes s) = 1
  size (sequence t items) = suc (items_size items)
  size (structure id fields) = suc (members_size fields)

  pub items_size : Items → ℕ
  items_size no_more = 0
  items_size (more v rest) = suc (size v + items_size rest)

  pub members_size : Members → ℕ
  members_size end_marker = 1
  members_size (member id v rest) = suc (size v + members_size rest)
