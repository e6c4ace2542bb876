-- ===== src/Serialization/Edf/Types.antt =====
-- `mp_edf_type_t` of include/microposix/serialization/edf.h, and how it is written.
use micro_posix.Prelude.{ℕ, none, some, List, [], get_elem?, ◌%◌, ◌≡◌, ◌∷◌}

pub data EdfType : Type 0 where
  edf_null : EdfType
  edf_bool : EdfType
  edf_int8 : EdfType
  edf_int16 : EdfType
  edf_int32 : EdfType
  edf_int64 : EdfType
  edf_uint8 : EdfType
  edf_uint16 : EdfType
  edf_uint32 : EdfType
  edf_uint64 : EdfType
  edf_float : EdfType
  edf_double : EdfType
  edf_string : EdfType
  edf_bytes : EdfType
  edf_array : EdfType
  edf_object : EdfType
  edf_enum : EdfType
  edf_fixed32 : EdfType
  edf_fixed64 : EdfType
  edf_sfixed32 : EdfType
  edf_sfixed64 : EdfType
  edf_sint32 : EdfType
  edf_sint64 : EdfType
  -- a number that the enum does not name
  edf_other : ℕ → EdfType

-- The enum's types in the order of their numbers, from 0 on.
abbrev pub named_types : List EdfType
named_types =
    edf_null ∷ edf_bool ∷ edf_int8 ∷ edf_int16 ∷ edf_int32 ∷ edf_int64 ∷ edf_uint8 ∷ edf_uint16
    ∷ edf_uint32 ∷ edf_uint64 ∷ edf_float ∷ edf_double ∷ edf_string ∷ edf_bytes ∷ edf_array
    ∷ edf_object ∷ edf_enum ∷ edf_fixed32 ∷ edf_fixed64 ∷ edf_sfixed32 ∷ edf_sfixed64 ∷ edf_sint32
    ∷ edf_sint64 ∷ []

-- `(mp_edf_type_t)byte`
abbrev pub type_of : ℕ → EdfType
type_of byte = elim (get_elem? named_types byte) [ none ↦ edf_other byte | some t ↦ t ]

-- The number of a type.
abbrev pub code : EdfType → ℕ
code edf_null = 0
code edf_bool = 1
code edf_int8 = 2
code edf_int16 = 3
code edf_int32 = 4
code edf_int64 = 5
code edf_uint8 = 6
code edf_uint16 = 7
code edf_uint32 = 8
code edf_uint64 = 9
code edf_float = 10
code edf_double = 11
code edf_string = 12
code edf_bytes = 13
code edf_array = 14
code edf_object = 15
code edf_enum = 16
code edf_fixed32 = 17
code edf_fixed64 = 18
code edf_sfixed32 = 19
code edf_sfixed64 = 20
code edf_sint32 = 21
code edf_sint64 = 22
code (edf_other n) = n

-- The byte of a type leads back to it.
abbrev pub IsNamed : EdfType → Type 0
IsNamed t = type_of (code t % 256) ≡ t
