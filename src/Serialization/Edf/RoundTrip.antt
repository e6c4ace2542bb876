-- ===== src/Serialization/Edf/RoundTrip.antt =====
-- What the reader of src/serialization/edf.c gives back of what its writer has written.
use micro_posix.Prelude.{
  ℕ, zero, suc, sym, ap, subst, some, List, [], append-nil, arith, size_mod, ok, length,
  length-append, ◌+◌, ◌/◌, ◌%◌, ◌^◌, ◌≤◌, ◌<◌, ◌≡◌, ◌∙◌, ◌∷◌, ◌++◌,
}
use micro_posix.Run.{ret}
use micro_posix.Serialization.Edf.Types.{code, IsNamed, EdfType}
use micro_posix.Serialization.Edf.Writer.{Action, write_field_header, write_le, write_string}
use micro_posix.Serialization.Edf.Reader.{read_field_header, read_le, read_string, Wanted}
use micro_posix.Serialization.Edf.Emit.{HasRoom-le, Emits}
use micro_posix.Serialization.Edf.Emit.Numbers.{
  varint32, write_field_header-Emits, length-le_bytes, write_le-Emits,
}
use micro_posix.Serialization.Edf.Emit.Calls.{counted_bytes, write_string-Emits}
use micro_posix.Serialization.Edf.Take.{Reads, read_field_header-Reads, IsPast}
use micro_posix.Serialization.Edf.Take.Calls.{read_le-Reads, outcome, IsGiven, read_string-Reads}
use micro_posix.Serialization.Protobuf.Writer.{Writer}
use micro_posix.Serialization.Protobuf.Writer.Room.{HasRoom, IsValid}
use micro_posix.Serialization.Protobuf.Writer.Put.{varint}
use micro_posix.Serialization.Protobuf.Writer.Send.{le_bytes, Sent}
use micro_posix.Serialization.Protobuf.Reader.{Read, Reader}
use micro_posix.Serialization.Protobuf.Reader.Decode.{IsAt}
use micro_posix.Serialization.Protobuf.RoundTrip.{reader_of, reader_of-IsAt}
use native.Mathlib.Nat.{pow-le-pow_right}

pub length-varint_le : (k value : ℕ) → length (varint k value) ≤ suc k
unfolding varint
length-varint_le zero value = omega arith
length-varint_le (suc k) value = ground (arith, length-varint_le k (value / 128))

-- A writer with room for some bytes, after a call that appends them, and a reader of what it has
-- written that starts where the call did.
pub written-IsAt :
    (write : Action) (bs : List ℕ) (n : ℕ) (w : Writer)
    → Emits write bs
    → IsValid w
    → HasRoom w n
    → length bs ≤ n
    → (w' : Writer) × (write w ≡ ret (ok, w'))
      × Sent w w' bs
      × IsAt (reader_of w' w.position) (bs ++ [])
written-IsAt write bs n w emits v room le =
    let (w', e, sent, more) = emits w 0 v (HasRoom-le w n _ (omega arith) room) in
    (w', e, sent, subst (IsAt _) (sym (append-nil bs)) (reader_of-IsAt w w' bs v sent))

-- A reader that has passed what the call wrote stands where the writer does.
pub past_written :
    (w w' : Writer) (bs : List ℕ) (r : Reader)
    → Sent w w' bs
    → IsPast (reader_of w' w.position) bs [] r
    → r ≡ reader_of w' w'.position
past_written w w' bs r sent past =
    past.there
    ∙ ap (λ (p : ℕ). reader_of w' p) {x = (w.position + length bs) % size_mod}
        (omega (arith, sent.position, sent.valid.inside, sent.valid.small))

round_trip :
    {A : Type 0} (write : Action) (read : Reader → Read A) (bs : List ℕ) (a : A) (n : ℕ)
    (w : Writer)
    → Emits write bs
    → Reads read bs a
    → IsValid w
    → HasRoom w n
    → length bs ≤ n
    → (w' : Writer) × (write w ≡ ret (ok, w'))
      × (read (reader_of w' w.position) ≡ ret (some a, reader_of w' w'.position))
round_trip write read bs a n w emits reads v room le =
    let (w', e, sent, at) = written-IsAt write bs n w emits v room le in
    let (r, e', past) = reads _ [] at in
    (w', e, e' ∙ ap (λ x. ret (some a, x)) (past_written w w' bs r sent past))

-- With room for its bytes and five more in a valid writer `mp_edf_write_string` returns 0, and
-- `mp_edf_read_string` on what it has written then gives the length and, if a copy is wanted and there
-- is memory for it, the same bytes; the reader stands where the writer does.
pub read_string-write_string :
    (w : Writer) (str : List ℕ) (wanted : Wanted)
    → IsValid w
    → length str < size_mod
    → HasRoom w (length str + 5)
    → IsGiven wanted
    → (w' : Writer) × (write_string str w ≡ ret (ok, w'))
      × (read_string wanted (reader_of w' w.position)
          ≡ ret (some (outcome wanted str), reader_of w' w'.position))
read_string-write_string w str wanted v lt room given =
    round_trip (write_string str) (read_string wanted) (counted_bytes str) (outcome wanted str)
      (length str + 5) w (write_string-Emits str lt) (read_string-Reads wanted str given lt) v room
      (omega (arith, length-append (varint32 (length str)) str, length-varint_le 4 (length str)))

-- With room for six bytes in a valid writer `mp_edf_write_field_header` of any uint32_t and a type that
-- its number as a byte leads back to returns 0, and `mp_edf_read_field_header` on what it has written
-- then gives both back; the reader stands where the writer does.
pub read_field_header-write_field_header :
    (w : Writer) (id : ℕ) (t : EdfType)
    → IsValid w
    → HasRoom w 6
    → id < size_mod
    → IsNamed t
    → (w' : Writer) × (write_field_header id t w ≡ ret (ok, w'))
      × (read_field_header (reader_of w' w.position) ≡ ret (some (id, t), reader_of w' w'.position))
read_field_header-write_field_header w id t v room lt named =
    round_trip (write_field_header id t) read_field_header _ (id, t) 6 w
      (write_field_header-Emits id t lt) (read_field_header-Reads id t lt named) v room
      (omega (arith, length-append (varint32 id) ((code t % 256) ∷ []), length-varint_le 4 id))

below_word : (n value : ℕ) → n ≤ 4 → value < 256 ^ n → value < size_mod
below_word n value short lt =
    let bound : 256 ^ n ≤ 256 ^ 4 = pow-le-pow_right (omega arith) short in omega (arith, bound)

-- For n up to 4, with room for n bytes in a valid writer, a number below 256^n that is written as n
-- bytes is what the read of n bytes then gives; the reader stands where the writer does. The 16- and 32-bit integers
-- and float are written and read so.
pub read_le-write_le :
    (w : Writer) (n value : ℕ)
    → IsValid w
    → HasRoom w n
    → n ≤ 4
    → value < 256 ^ n
    → (w' : Writer) × (write_le n value w ≡ ret (ok, w'))
      × (read_le n (reader_of w' w.position) ≡ ret (some value, reader_of w' w'.position))
read_le-write_le w n value v room short lt =
    round_trip (write_le n value) (read_le n) (le_bytes n value) value n w (write_le-Emits n value)
      (read_le-Reads n value short lt (below_word n value short lt)) v room
      (omega (arith, length-le_bytes n value))
