-- ===== src/Serialization/Edf/Emit/Calls.antt =====
-- The write functions of src/serialization/edf.c that call others.
use micro_posix.Prelude.{
  ℕ, List, [], arith, ltb-false, size_mod, ok, length, ◌+◌, ◌%◌, ◌≤◌, ◌<◌, ◌≡◌, ◌∷◌, ◌++◌,
}
use micro_posix.Run.{ret, ◌>>=◌}
use micro_posix.Serialization.Edf.Types.{code, EdfType, edf_array, edf_object}
use micro_posix.Serialization.Edf.Writer.{
  then_write, ensure_capacity, write_type, write_length, write_uint32, write_string_with_length,
  write_string, write_bytes, write_array_header, write_object_header,
}
use micro_posix.Serialization.Edf.Emit.{Emits, Emits-then, Gives-block, write_type-Emits}
use micro_posix.Serialization.Edf.Emit.Numbers.{varint32, write_length-Emits, write_le-Emits}
use micro_posix.Serialization.Protobuf.Writer.{copy_checked, Writer}
use micro_posix.Serialization.Protobuf.Writer.Put.{copy_in-Wrote, Wrote}
use micro_posix.Serialization.Protobuf.Writer.Room.{IsValid}
use micro_posix.Serialization.Protobuf.Writer.Send.{le_bytes}

pub write_uint32-Emits : (value : ℕ) → Emits (write_uint32 value) (le_bytes 4 value)
unfolding write_uint32
write_uint32-Emits value = write_le-Emits 4 value

-- The length of a text and the text.
abbrev pub counted_bytes : List ℕ → List ℕ
counted_bytes bytes = varint32 (length bytes) ++ bytes

copy_checked-Wrote :
    (bytes : List ℕ) (w : Writer)
    → IsValid w
    → w.position + length bytes ≤ w.capacity
    → (w' : Writer) × (copy_checked w bytes ≡ ret (ok, w')) × Wrote w w' bytes
unfolding copy_checked
copy_checked-Wrote bytes w v fits =
    let (w', e, wrote) = copy_in-Wrote w bytes v fits in
    (
      w',
      rw (
        ltb-false w.capacity ((w.position + length bytes) % size_mod) (omega (arith, v.small)),
        e,
      ),
      wrote,
    )

write_counted-Emits :
    (bytes : List ℕ)
    → length bytes < size_mod
    → Emits
        (then_write
          (write_length (length bytes))
          (λ w. ensure_capacity w (length bytes) >>= λ w1. copy_checked w1 bytes))
        (counted_bytes bytes)
write_counted-Emits bytes lt =
    Emits-then (write_length (length bytes)) _ (varint32 (length bytes)) bytes
      (write_length-Emits (length bytes) lt)
      (Gives-block (λ w. (ok, w)) (λ w. copy_checked w bytes) bytes (copy_checked-Wrote bytes))

pub write_string-Emits :
    (str : List ℕ) → length str < size_mod → Emits (write_string str) (counted_bytes str)
unfolding write_string write_string_with_length
write_string-Emits str lt = write_counted-Emits str lt

pub write_bytes-Emits :
    (bytes : List ℕ) → length bytes < size_mod → Emits (write_bytes bytes) (counted_bytes bytes)
unfolding write_bytes
write_bytes-Emits bytes lt = write_counted-Emits bytes lt

pub write_array_header-Emits :
    (t : EdfType) (count : ℕ)
    → count < size_mod
    → Emits (write_array_header t count) (14 ∷ (code t % 256) ∷ varint32 count)
unfolding write_array_header
write_array_header-Emits t count lt =
    Emits-then (write_type edf_array) _ (14 ∷ []) ((code t % 256) ∷ varint32 count)
      (write_type-Emits edf_array)
      (Emits-then (write_type t) (write_length count) ((code t % 256) ∷ []) (varint32 count)
        (write_type-Emits t) (write_length-Emits count lt))

pub write_object_header-Emits : (id : ℕ) → Emits (write_object_header id) (15 ∷ le_bytes 4 id)
unfolding write_object_header
write_object_header-Emits id =
    Emits-then (write_type edf_object) (write_uint32 id) (15 ∷ []) (le_bytes 4 id)
      (write_type-Emits edf_object) (write_uint32-Emits id)
