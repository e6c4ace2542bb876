-- ===== src/Serialization/Protobuf/Writer.antt =====
-- The writer of src/serialization/protobuf.c.
pub mod Put
pub mod Room
pub mod Send
use micro_posix.Prelude.{
  ℕ, zero, suc, bit_and, bit_or, bit_xor, Bool, true, false, Option, none, some, List, ltb, leb,
  size_mod, Status, ok, failed, length, set, store_bytes, ◌+◌, ◌-◌, ◌*◌, ◌/◌, ◌%◌, ◌^◌, ◌==◌,
  if◌then◌else◌,
}
use micro_posix.Run.{Run, ret, fault, hang, ◌>>=◌}

-- `realloc`: the old memory, if any, and a size give new memory or null.
abbrev pub Realloc : Type 0
Realloc = Option (List ℕ) → ℕ → Option (List ℕ)

-- `mp_protobuf_writer_t`. The list is the memory that `buffer` leads to.
pub record Writer : Type 0 where
  pub buffer : Option (List ℕ)
  pub position : ℕ
  pub capacity : ℕ
  pub owns_buffer : Bool
  pub realloc_fn : Option Realloc
  pub alloc_data : Option ℕ

-- `while (target > cap) cap *= 2`. In 33 rounds a capacity that stays below the target has become 0,
-- and the loop does not end.
unfoldable pub grow : (fuel target cap : ℕ) → Run ℕ
grow zero target cap = hang
grow (suc fuel) target cap =
    let rest = grow fuel target (cap * 2 % size_mod) in if ltb cap target then rest else ret cap

-- The new memory, if there is a reallocation function and it gives some.
abbrev pub adopt : Writer → (new_capacity : ℕ) → Option (List ℕ) → Writer
adopt w new_capacity none = w
adopt w new_capacity (some memory) = record w {
  buffer = some memory;
  capacity = new_capacity;
  owns_buffer = true;
}

abbrev pub resize_by : Writer → (new_capacity : ℕ) → Option Realloc → Writer
resize_by w new_capacity none = w
resize_by w new_capacity (some realloc) = adopt w new_capacity (realloc w.buffer new_capacity)

unfoldable pub resize : Writer → (new_capacity : ℕ) → Writer
resize w new_capacity = resize_by w new_capacity w.realloc_fn

unfoldable pub ensure_capacity : Writer → (needed : ℕ) → Run Writer
ensure_capacity w needed =
    let target = (w.position + needed) % size_mod in
    if leb target w.capacity
    then ret w
    else (grow 33 target (if w.capacity == 0 then 256 else w.capacity * 2 % size_mod)
        >>= λ new_capacity. ret (resize w new_capacity))

unfoldable pub writer_init : Option (List ℕ) → (capacity : ℕ) → Writer
writer_init buffer capacity = record {
  buffer = buffer;
  position = 0;
  capacity = capacity;
  owns_buffer = false;
  realloc_fn = none;
  alloc_data = none;
}

-- `default` is the C library's `realloc`.
unfoldable pub writer_init_dynamic :
    (default : Realloc) (initial_capacity : ℕ) (realloc_fn : Option Realloc) (alloc_data : Option ℕ)
    → Status × Writer
writer_init_dynamic default initial_capacity realloc_fn alloc_data =
    if initial_capacity == 0 then (ok, w) else elim (chosen none initial_capacity) [
      | none ↦ (failed, w)
      | some memory ↦ (ok, record w { buffer = some memory; capacity = initial_capacity })
    ]
  where
    chosen : Realloc
    chosen = elim realloc_fn [ none ↦ default | some f ↦ f ]

    w : Writer
    w = record {
      buffer = none;
      position = 0;
      capacity = 0;
      owns_buffer = true;
      realloc_fn = some chosen;
      alloc_data = alloc_data;
    }

unfoldable pub writer_reset : Writer → Writer
writer_reset w = record w { position = 0 }

unfoldable pub writer_get_length : Writer → ℕ
writer_get_length w = w.position

-- `buffer[position++] = b`
abbrev pub put_into : Writer → ℕ → Option (List ℕ) → Run Writer
put_into w b none = fault
put_into w b (some memory) =
    if ltb w.position (length memory)
    then ret (record w {
      buffer = some (set memory w.position b);
      position = (w.position + 1) % size_mod;
    })
    else fault

unfoldable pub put_byte : Writer → ℕ → Run Writer
put_byte w b = put_into w b w.buffer

-- The loop of `mp_protobuf_write_varint` and the byte behind it; a uint64_t needs 10 rounds at most.
unfoldable pub push_varint : (fuel value : ℕ) → Writer → Run Writer
push_varint zero value w = hang
push_varint (suc fuel) value w =
    let more = put_byte w (bit_or value 0x80 % 256) >>= push_varint fuel (value / 2 ^ 7) in
    if leb 0x80 value then more else put_byte w (value % 256)

unfoldable pub write_varint : Writer → ℕ → Run (Status × Writer)
write_varint w value = do w ← ensure_capacity w 10; w ← push_varint 10 value w; ret (ok, w)

unfoldable pub write_fixed32 : Writer → ℕ → Run (Status × Writer)
write_fixed32 w value = do
  w ← ensure_capacity w 4
  w ← put_byte w (bit_and value 0xFF)
  w ← put_byte w (bit_and (value / 2 ^ 8) 0xFF)
  w ← put_byte w (bit_and (value / 2 ^ 16) 0xFF)
  w ← put_byte w (bit_and (value / 2 ^ 24) 0xFF)
  ret (ok, w)

unfoldable pub write_fixed64 : Writer → ℕ → Run (Status × Writer)
write_fixed64 w value = do
  w ← ensure_capacity w 8
  w ← put_byte w (bit_and value 0xFF)
  w ← put_byte w (bit_and (value / 2 ^ 8) 0xFF)
  w ← put_byte w (bit_and (value / 2 ^ 16) 0xFF)
  w ← put_byte w (bit_and (value / 2 ^ 24) 0xFF)
  w ← put_byte w (bit_and (value / 2 ^ 32) 0xFF)
  w ← put_byte w (bit_and (value / 2 ^ 40) 0xFF)
  w ← put_byte w (bit_and (value / 2 ^ 48) 0xFF)
  w ← put_byte w (bit_and (value / 2 ^ 56) 0xFF)
  ret (ok, w)

-- `memcpy(buffer + position, bytes, length); position += length;`
abbrev pub copy_into : Writer → List ℕ → Option (List ℕ) → Run Writer
copy_into w bytes none = if length bytes == 0 then ret w else fault
copy_into w bytes (some memory) =
    if leb (w.position + length bytes) (length memory)
    then ret (record w {
      buffer = some (store_bytes memory w.position bytes);
      position = (w.position + length bytes) % size_mod;
    })
    else fault

unfoldable pub copy_in : Writer → List ℕ → Run Writer
copy_in w bytes = copy_into w bytes w.buffer

-- `if (position + length > capacity) return -1;` and the copy.
unfoldable pub copy_checked : Writer → List ℕ → Run (Status × Writer)
copy_checked w bytes =
    if ltb w.capacity ((w.position + length bytes) % size_mod)
    then ret (failed, w)
    else (copy_in w bytes >>= λ w'. ret (ok, w'))

-- The list holds `length` bytes, which the pointer `data` leads to.
unfoldable pub write_length_delimited : Writer → List ℕ → Run (Status × Writer)
write_length_delimited w bytes = do
  (status, w1) ← write_varint w (length bytes)
  elim status [
    | failed ↦ ret (failed, w1)
    | ok ↦ ensure_capacity w1 (length bytes) >>= λ w2. copy_checked w2 bytes
  ]

-- A string is given without its final 0.
unfoldable pub write_string : Writer → List ℕ → Run (Status × Writer)
write_string w str = write_length_delimited w str

unfoldable pub write_bytes : Writer → List ℕ → Run (Status × Writer)
write_bytes w bytes = write_length_delimited w bytes

unfoldable pub write_bool : Writer → Bool → Run (Status × Writer)
write_bool w value = write_varint w (if value then 1 else 0)

unfoldable pub write_enum : Writer → ℕ → Run (Status × Writer)
write_enum w value = write_varint w value

-- `(field_number << 3) | wire_type` in uint32_t.
unfoldable pub field_tag : (field_number wire_type : ℕ) → ℕ
field_tag field_number wire_type = bit_or (field_number * 2 ^ 3 % size_mod) wire_type

unfoldable pub write_field_header : Writer → (field_number wire_type : ℕ) → Run (Status × Writer)
write_field_header w field_number wire_type = write_varint w (field_tag field_number wire_type)

unfoldable pub write_double : Writer → (bits : ℕ) → Run (Status × Writer)
write_double w bits = write_fixed64 w bits

unfoldable pub write_float : Writer → (bits : ℕ) → Run (Status × Writer)
write_float w bits = write_fixed32 w bits

unfoldable pub write_int32 : Writer → ℕ → Run (Status × Writer)
write_int32 w value = write_varint w value

unfoldable pub write_int64 : Writer → ℕ → Run (Status × Writer)
write_int64 w value = write_varint w value

unfoldable pub write_uint32 : Writer → ℕ → Run (Status × Writer)
write_uint32 w value = write_varint w value

unfoldable pub write_uint64 : Writer → ℕ → Run (Status × Writer)
write_uint64 w value = write_varint w value

-- `(n << 1) ^ (n >> (w - 1))` on a pattern of `w` bits; the right shift of a negative number fills
-- with ones.
unfoldable pub zigzag : (w n : ℕ) → ℕ
zigzag w n = bit_xor (n * 2 % 2 ^ w) (if ltb n (2 ^ (w - 1)) then 0 else 2 ^ w - 1)

-- `(n >> 1) ^ -(n & 1)`
unfoldable pub unzigzag : (w n : ℕ) → ℕ
unzigzag w n = bit_xor (n / 2) (if bit_and n 1 == 0 then 0 else 2 ^ w - 1)

abbrev pub zigzag32 : ℕ → ℕ
zigzag32 = zigzag 32

abbrev pub unzigzag32 : ℕ → ℕ
unzigzag32 = unzigzag 32

abbrev pub zigzag64 : ℕ → ℕ
zigzag64 = zigzag 64

abbrev pub unzigzag64 : ℕ → ℕ
unzigzag64 = unzigzag 64

unfoldable pub write_sint32 : Writer → ℕ → Run (Status × Writer)
write_sint32 w value = write_varint w (zigzag32 value)

unfoldable pub write_sint64 : Writer → ℕ → Run (Status × Writer)
write_sint64 w value = write_varint w (zigzag64 value)

unfoldable pub write_sfixed32 : Writer → ℕ → Run (Status × Writer)
write_sfixed32 w value = write_fixed32 w value

unfoldable pub write_sfixed64 : Writer → ℕ → Run (Status × Writer)
write_sfixed64 w value = write_fixed64 w value
