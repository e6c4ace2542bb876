-- ===== src/Serialization/Edf/Faults.antt =====
-- What src/serialization/edf.c does with some of what it has written, and with input that nobody wrote.
pub mod Endless
use micro_posix.Prelude.{
  ℕ, zero, suc, bit_or, refl, ap, subst, true, some, List, [], arith, lt→ltb, ltb-false, leb-false,
  size_mod, ok, length, length-append, get_elem?-drop, ◌+◌, ◌*◌, ◌/◌, ◌%◌, ◌^◌, ◌≤◌, ◌<◌, ◌≡◌, ◌∙◌,
  ◌∷◌, ◌++◌,
}
use micro_posix.Run.{ret, fault}
use micro_posix.Serialization.Edf.Types.{code, EdfType, edf_null}
use micro_posix.Serialization.Edf.Writer.{
  write_type, write_field_header, write_le, write_uint64, write_null,
}
use micro_posix.Serialization.Edf.Reader.{
  shift_int, gather, read_le, read_int64, read_uint64, read_double, copied, read_string, read_null,
  copy,
}
use micro_posix.Serialization.Edf.Skip.{skip_shape, skip_members, skip_value}
use micro_posix.Serialization.Edf.Emit.{write_type-Emits}
use micro_posix.Serialization.Edf.Emit.Numbers.{
  varint32, write_field_header-Emits, length-le_bytes, write_le-Emits,
}
use micro_posix.Serialization.Edf.Take.{advance_add, read_type-Reads, read_length-Reads}
use micro_posix.Serialization.Edf.RoundTrip.{length-varint_le, written-IsAt, past_written}
use micro_posix.Serialization.Edf.Value.Skipping.{members_end}
use micro_posix.Serialization.Protobuf.Writer.{Writer}
use micro_posix.Serialization.Protobuf.Writer.Room.{HasRoom, IsValid}
use micro_posix.Serialization.Protobuf.Writer.Put.{varint, varint_more}
use micro_posix.Serialization.Protobuf.Writer.Send.{le_bytes}
use micro_posix.Serialization.Protobuf.Reader.{advance, byte_at, Reader}
use micro_posix.Serialization.Protobuf.Reader.Decode.{advance-IsAt, IsAt}
use micro_posix.Serialization.Protobuf.RoundTrip.{reader_of}
use native.Mathlib.Decide.{dec_lt}

-- A byte that is shifted by 32 or more.
gather-far :
    (n i shift acc b : ℕ) (rest : List ℕ) (r : Reader)
    → IsAt (advance r i) (b ∷ rest)
    → 32 ≤ shift
    → gather (suc n) i shift acc r ≡ fault
unfolding gather byte_at shift_int
gather-far n i shift acc b rest r at far =
    let here = (get_elem?-drop r.buffer (advance r i).position b rest at.ahead).0 in
    rw (here, ltb-false shift 32 far)

-- One that is not, whatever it is.
gather-near :
    (n i shift acc b : ℕ) (rest : List ℕ) (r : Reader)
    → IsAt (advance r i) (b ∷ rest)
    → shift < 32
    → (acc' : ℕ) × (gather (suc n) i shift acc r ≡ gather n (suc i) (shift + 8) acc' r)
unfolding gather byte_at shift_int
gather-near n i shift acc b rest r at near =
    let here = (get_elem?-drop r.buffer (advance r i).position b rest at.ahead).0 in
    (bit_or acc (b * 2 ^ shift % size_mod), rw (here, lt→ltb shift 32 near))

gather-fault :
    (bs : List ℕ) (n i acc : ℕ) (r : Reader)
    → IsAt (advance r i) bs
    → length bs ≡ n
    → i ≤ 4
    → 4 < i + n
    → gather n i (8 * i) acc r ≡ fault
gather-fault [] n i acc r at size early late = absurd (omega arith)
gather-fault (b ∷ bs) zero i acc r at size early late = absurd (omega arith)
gather-fault (b ∷ bs) (suc n) i acc r at size early late = elim (dec_lt i 4) [
  | no last ↦ gather-far n i (8 * i) acc b bs r at (omega arith)
  | yes more ↦
      let (acc', e) = gather-near n i (8 * i) acc b bs r at (omega arith) in
      let next =
        subst (λ x. IsAt x bs) (advance_add r i 1 ∙ ap (advance r) {y = suc i} (omega arith))
          (advance-IsAt (advance r i) b bs at) in
      e
      ∙ ap (λ (s : ℕ). gather n (suc i) s acc' r) {y = 8 * suc i} (omega arith)
      ∙ gather-fault bs n (suc i) acc' r next (omega arith) (omega arith) (omega arith)
]

read_le-fault : (r : Reader) (bs : List ℕ) → IsAt r bs → length bs ≡ 8 → read_le 8 r ≡ fault
unfolding read_le
read_le-fault r bs at size =
    let start =
      subst (λ (p : ℕ). IsAt (record r { position = p }) bs) {y = (r.position + 0) % size_mod}
        (omega (arith, at.count, at.whole, at.small)) at in
    let inside : (r.position + 8) % size_mod ≤ r.size =
      omega (arith, at.count, at.whole, at.small) in
    rw (
      ltb-false r.size ((r.position + 8) % size_mod) inside,
      gather-fault bs 8 0 0 r start size (omega arith) (omega arith),
    )

-- With room for eight bytes in a valid writer `mp_edf_write_uint64` returns 0, and the read of what it
-- has written by `mp_edf_read_uint64`, `mp_edf_read_int64` or `mp_edf_read_double` shifts an int by its
-- width, which is undefined, whatever the number.
pub read_uint64-write_uint64-fault :
    (w : Writer) (value : ℕ)
    → IsValid w
    → HasRoom w 8
    → (w' : Writer) × (write_uint64 value w ≡ ret (ok, w'))
      × (read_uint64 (reader_of w' w.position) ≡ fault)
      × (read_int64 (reader_of w' w.position) ≡ fault)
      × (read_double (reader_of w' w.position) ≡ fault)
unfolding write_uint64 read_uint64 read_int64 read_double
read_uint64-write_uint64-fault w value v room =
    let size = length-le_bytes 8 value in
    let (w', e, sent, at) =
      written-IsAt (write_le 8 value) (le_bytes 8 value) 8 w (write_le-Emits 8 value) v room
        (omega arith) in
    let bad = read_le-fault _ _ at (omega (arith, length-append (le_bytes 8 value) [])) in
    (w', e, bad, bad, bad)

-- Where a text's length and the position behind it add up to 2^32 or more, `mp_edf_read_string` with a
-- copy wanted and memory given for it passes its test of the end, and copies from outside the buffer.
pub read_string-overrun :
    (r : Reader) (n : ℕ) (rest : List ℕ)
    → IsAt r (varint32 n ++ rest)
    → n < size_mod
    → size_mod ≤ r.position + length (varint32 n) + n
    → read_string (copy true) r ≡ fault
unfolding read_string copied
read_string-overrun r n rest at lt wraps =
    let (r1, e, past) = read_length-Reads n lt r rest at in
    let behind : r1.position ≡ r.position + length (varint32 n) =
      ap (λ x. x.position) past.there
      ∙ omega (arith, at.count, at.whole, at.small, length-append (varint32 n) rest) in
    let passes : (r1.position + n) % size_mod ≤ r1.size =
      omega (arith, behind, past.at.count, past.at.whole, past.at.small) in
    let beyond : length r1.buffer < r1.position + n =
      omega (arith, behind, past.at.whole, past.at.small) in
    rw (
      e,
      ltb-false r1.size ((r1.position + n) % size_mod) passes,
      leb-false (r1.position + n) (length r1.buffer) beyond,
    )

-- With room for six bytes in a valid writer, the header of a field whose id has its low seven bits set
-- and others too is written without an error, and the loop of `mp_edf_skip_value` over the fields takes
-- the first byte of it for the end of the object.
pub skip_members-write_field_header :
    (w : Writer) (id fuel : ℕ) (t : EdfType)
    → IsValid w
    → HasRoom w 6
    → id < size_mod
    → 128 ≤ id
    → id % 128 ≡ 127
    → (w' : Writer) × (write_field_header id t w ≡ ret (ok, w'))
      × (skip_members (suc fuel) (reader_of w' w.position)
          ≡ ret (ok, advance (reader_of w' w.position) 1))
skip_members-write_field_header w id fuel t v room lt large low =
    let (w', e, sent, at) =
      written-IsAt (write_field_header id t) _ 6 w (write_field_header-Emits id t lt) v room
        (omega (arith, length-append (varint32 id) ((code t % 256) ∷ []), length-varint_le 4 id)) in
    let first : varint32 id ≡ 0xFF ∷ varint 3 (id / 128) =
      varint_more 3 id large ∙ ap (λ b. b ∷ varint 3 (id / 128)) (omega arith) in
    let (r, e', past) = members_end fuel _ _ (
      subst (λ (l : List ℕ). IsAt (reader_of w' w.position) ((l ++ ((code t % 256) ∷ [])) ++ []))
        first at) in
    (w', e, e' ∙ ap (λ x. ret (ok, x)) past.there)

-- With room for a byte in a valid writer `mp_edf_write_null` writes one, which `mp_edf_read_null` then
-- passes, but `mp_edf_skip_value` of a null leaves the reader in front of it.
pub skip_value-write_null :
    (w : Writer) (fuel : ℕ)
    → IsValid w
    → HasRoom w 1
    → (w' : Writer) × (write_null w ≡ ret (ok, w'))
      × (read_null (reader_of w' w.position) ≡ ret (some tt, reader_of w' w'.position))
      × (skip_value (suc fuel) edf_null (reader_of w' w.position)
          ≡ ret (ok, reader_of w' w.position))
unfolding write_null read_null skip_value skip_shape
skip_value-write_null w fuel v room =
    let (w', e, sent, at) =
      written-IsAt (write_type edf_null) (0 ∷ []) 1 w (write_type-Emits edf_null) v room
        (omega arith) in
    let (r, e', past) = read_type-Reads edf_null refl _ [] at in
    let stays : (w.position + 0) % size_mod ≡ w.position = omega (arith, v.inside, v.small) in
    (
      w',
      e,
      rw e' (ap (λ x. ret (some tt, x)) (past_written w w' (0 ∷ []) r sent past)),
      ap (λ (p : ℕ). ret (ok, reader_of w' p)) stays,
    )
