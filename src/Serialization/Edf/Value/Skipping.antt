-- ===== src/Serialization/Edf/Value/Skipping.antt =====
-- What `mp_edf_skip_value` of src/serialization/edf.c makes of a value that has been written.
use micro_posix.Prelude.{
  ℕ, zero, suc, refl, sym, ap, subst, false, none, some, List, [], append_assoc, arith, lt→ltb,
  size_mod, ok, failed, length, get_elem?-drop, ◌+◌, ◌/◌, ◌%◌, ◌≤◌, ◌<◌, ◌≡◌, ◌∙◌, ◌∷◌, ◌++◌, ◌==◌,
}
use micro_posix.Run.{ret, ◌>>=◌}
use micro_posix.Serialization.Edf.Types.{
  code, IsNamed, EdfType, edf_bool, edf_int8, edf_int16, edf_int32, edf_int64, edf_uint8,
  edf_uint16, edf_uint32, edf_uint64, edf_float, edf_double, edf_fixed32, edf_fixed64, edf_sfixed32,
  edf_sfixed64,
}
use micro_posix.Serialization.Edf.Reader.{
  read_length, read_field_header, read_array_header, read_object_header,
}
use micro_posix.Serialization.Edf.Skip.{
  shape, Skipped, read_or_fail, skip_or_fail, skip_shape, skip_elements, skip_members, skip_value,
  fixed, counted,
}
use micro_posix.Serialization.Edf.Emit.Numbers.{varint32, length-le_bytes}
use micro_posix.Serialization.Edf.Emit.Calls.{counted_bytes}
use micro_posix.Serialization.Edf.Take.{
  IsPast-append, Reads, Reads-step, read_length-Reads, read_field_header-Reads, IsPast,
}
use micro_posix.Serialization.Edf.Take.Calls.{
  advance_by-IsPast, read_array_header-Reads, read_object_header-Reads,
}
use micro_posix.Serialization.Edf.RoundTrip.{written-IsAt, past_written}
use micro_posix.Serialization.Edf.Value.{
  kind, count, write_value, width, encoding, items_encoding, members_encoding, IsScalar, IsPlain,
  IsTyped, HaveType, HaveFields, size, items_size, members_size, Items, Members, Value, scalar,
  string, bytes, sequence, structure, no_more, more, end_marker, member,
}
use micro_posix.Serialization.Edf.Value.Written.{write_value-Emits}
use micro_posix.Serialization.Protobuf.Writer.{Writer}
use micro_posix.Serialization.Protobuf.Writer.Room.{HasRoom, IsValid}
use micro_posix.Serialization.Protobuf.Writer.Put.{varint, varint_last, varint_more}
use micro_posix.Serialization.Protobuf.Writer.Send.{le_bytes}
use micro_posix.Serialization.Protobuf.Reader.{Read, advance, byte_at, Reader}
use micro_posix.Serialization.Protobuf.Reader.Decode.{next_byte-IsAt, IsAt}
use micro_posix.Serialization.Protobuf.RoundTrip.{reader_of}
use native.Mathlib.Decide.{dec_lt}

-- The run succeeds behind `bs`.
abbrev Skips : (Reader → Skipped) → List ℕ → Type 0
Skips m bs =
    (r : Reader) (rest : List ℕ)
    → IsAt r (bs ++ rest)
    → (r' : Reader) × (m r ≡ ret (ok, r')) × IsPast r bs rest r'

Skips-read :
    {A : Type 0} (m : Reader → Read A) (f : A → Reader → Skipped) (xs ys : List ℕ) (a : A)
    → Reads m xs a
    → Skips (f a) ys
    → Skips (λ r. read_or_fail (m r) f) (xs ++ ys)
Skips-read m f xs ys a reads skips r rest at =
    let (r1, e1, at1) =
      Reads-step m xs a (λ (out, r'). elim out [ none ↦ ret (failed, r') | some o ↦ f o r' ]) r
        (ys ++ rest) reads (subst (λ l. IsAt r l) (append_assoc xs ys rest) at) in
    let (r2, e2, at2) = skips r1 rest at1.at in
    (r2, e1 ∙ e2, IsPast-append r r1 r2 xs ys (ys ++ rest) rest at1 at2)

Skips-then :
    (m f : Reader → Skipped) (xs ys : List ℕ)
    → Skips m xs
    → Skips f ys
    → Skips (λ r. skip_or_fail (m r) f) (xs ++ ys)
Skips-then m f xs ys first second r rest at =
    let (r1, e1, at1) = first r (ys ++ rest) (subst (λ l. IsAt r l) (append_assoc xs ys rest) at) in
    let (r2, e2, at2) = second r1 rest at1.at in
    (
      r2,
      ap (λ x. x >>= λ (status, r'). elim status [ failed ↦ ret (failed, r') | ok ↦ f r' ]) e1 ∙ e2,
      IsPast-append r r1 r2 xs ys (ys ++ rest) rest at1 at2,
    )

Skips-advance : (bs : List ℕ) (n : ℕ) → length bs ≡ n → Skips (λ r. ret (ok, advance r n)) bs
Skips-advance bs n e r rest at = (advance r n, refl, advance_by-IsPast bs n r rest e at)

Skips-counted :
    (fuel : ℕ) (s : List ℕ)
    → length s < size_mod
    → Skips (skip_shape (suc fuel) counted) (counted_bytes s)
unfolding skip_shape
Skips-counted fuel s lt =
    Skips-read read_length (λ n r1. ret (ok, advance r1 n)) (varint32 (length s)) s (length s)
      (read_length-Reads (length s) lt) (Skips-advance s (length s) refl)

shape_scalar : (t : EdfType) (n : ℕ) → IsScalar t n → shape t ≡ fixed (width (shape t))
shape_scalar edf_bool n h = refl
shape_scalar edf_int8 n h = refl
shape_scalar edf_uint8 n h = refl
shape_scalar edf_int16 n h = refl
shape_scalar edf_uint16 n h = refl
shape_scalar edf_int32 n h = refl
shape_scalar edf_uint32 n h = refl
shape_scalar edf_float n h = refl
shape_scalar edf_fixed32 n h = refl
shape_scalar edf_sfixed32 n h = refl
shape_scalar edf_int64 n h = refl
shape_scalar edf_uint64 n h = refl
shape_scalar edf_double n h = refl
shape_scalar edf_fixed64 n h = refl
shape_scalar edf_sfixed64 n h = refl
shape_scalar t n h = absurd h

Skips-scalar :
    (fuel : ℕ) (t : EdfType) (n : ℕ)
    → IsScalar t n
    → Skips (skip_shape (suc fuel) (shape t)) (le_bytes (width (shape t)) n)
unfolding skip_shape
Skips-scalar fuel t n h =
    let k = width (shape t) in
    subst (λ s. Skips (skip_shape (suc fuel) s) (le_bytes k n)) (sym (shape_scalar t n h))
      (Skips-advance (le_bytes k n) k (length-le_bytes k n))

Skips-nothing : Skips (λ r. ret (ok, r)) []
Skips-nothing r rest at = (
  r,
  refl,
  record {
    at = at;
    there =
        ap (λ (p : ℕ). record r { position = p }) {y = (r.position + 0) % size_mod}
          (omega (arith, at.count, at.whole, at.small));
  },
)

-- The bytes of a plain field id do not begin like the end marker.
plain_first :
    (id : ℕ)
    → IsPlain id
    → (b : ℕ) × ((bs : List ℕ) × (varint32 id ≡ b ∷ bs) × ((b == 0xFF) ≡ false))
plain_first id plain = elim (dec_lt id 128) [
  | yes small ↦ (id, ([], varint_last 4 id small, ground arith))
  | no large ↦
      (id % 128 + 128, (varint 3 (id / 128), varint_more 3 id (omega arith), ground (arith, plain)))
]

-- The test of the end marker lets a field with such an id pass.
pub members_pass :
    (fuel : ℕ) (r : Reader) (b : ℕ) (rest : List ℕ)
    → IsAt r (b ∷ rest)
    → (b == 0xFF) ≡ false
    → skip_members (suc fuel) r
      ≡ read_or_fail
          (read_field_header r)
          (λ (id, type) r1. skip_or_fail (skip_shape fuel (shape type) r1) (skip_members fuel))
unfolding skip_members byte_at
members_pass fuel r b rest at other =
    let here = (get_elem?-drop r.buffer r.position b rest at.ahead).0 in
    rw (lt→ltb r.position r.size (next_byte-IsAt r b rest at).1, here, other)

-- The object ends at its marker.
pub members_end : (fuel : ℕ) → Skips (skip_members (suc fuel)) (0xFF ∷ [])
unfolding skip_members byte_at
members_end fuel r rest at =
    let here = (get_elem?-drop r.buffer r.position 0xFF rest at.ahead).0 in
    (
      advance r 1,
      rw (lt→ltb r.position r.size (next_byte-IsAt r 0xFF rest at).1, here),
      advance_by-IsPast (0xFF ∷ []) 1 r rest refl at,
    )

Skips-member :
    (fuel id : ℕ) (t : EdfType) (xs : List ℕ)
    → id < size_mod
    → IsPlain id
    → IsNamed t
    → Skips (λ r. skip_or_fail (skip_shape fuel (shape t) r) (skip_members fuel)) xs
    → Skips (skip_members (suc fuel)) ((varint32 id ++ ((code t % 256) ∷ [])) ++ xs)
Skips-member fuel id t xs lt plain named skips r rest at =
    let (b, (bs, e, other)) = plain_first id plain in
    let first =
      subst (λ (l : List ℕ). IsAt r (((l ++ ((code t % 256) ∷ [])) ++ xs) ++ rest)) e at in
    let (r', e', at') =
      Skips-read read_field_header
        (λ (i, type) r1. skip_or_fail (skip_shape fuel (shape type) r1) (skip_members fuel))
        (varint32 id ++ ((code t % 256) ∷ [])) xs (id, t) (read_field_header-Reads id t lt named)
        skips r rest at in
    (r', members_pass fuel r b _ first other ∙ e', at')

mutual
  unfolding skip_shape encoding IsTyped size count

  skip-encoding :
      (fuel : ℕ) (v : Value)
      → IsTyped v
      → size v ≤ fuel
      → Skips (skip_shape fuel (shape (kind v))) (encoding v)
  skip-encoding zero (scalar t n) h le = absurd (omega arith)
  skip-encoding zero (string s) h le = absurd (omega arith)
  skip-encoding zero (bytes s) h le = absurd (omega arith)
  skip-encoding zero (sequence t items) h le = absurd (omega arith)
  skip-encoding zero (structure id fields) h le = absurd (omega arith)
  skip-encoding (suc fuel) (scalar t n) h le = Skips-scalar fuel t n h
  skip-encoding (suc fuel) (string s) h le = Skips-counted fuel s h
  skip-encoding (suc fuel) (bytes s) h le = Skips-counted fuel s h
  skip-encoding (suc fuel) (sequence t items) (named, lt, h) le =
      Skips-read read_array_header (λ (type, n) r1. skip_elements fuel n (shape type) r1) _
        (items_encoding items) (t, count items) (read_array_header-Reads t (count items) named lt)
        (skip_items-encoding fuel t items h (omega arith))
  skip-encoding (suc fuel) (structure id fields) (lt, h) le =
      Skips-read read_object_header (λ i r1. skip_members fuel r1) _ (members_encoding fields) id
        (read_object_header-Reads id lt) (skip_members-encoding fuel fields h (omega arith))

  skip_items-encoding :
      (fuel : ℕ) (t : EdfType) (items : Items)
      → HaveType t items
      → items_size items ≤ fuel
      → Skips (skip_elements fuel (count items) (shape t)) (items_encoding items)
  skip_items-encoding zero t no_more h le = Skips-nothing
  skip_items-encoding (suc fuel) t no_more h le = Skips-nothing
  skip_items-encoding zero t (more v rest) h le = absurd (omega arith)
  skip_items-encoding (suc fuel) t (more v rest) (e, h, hs) le =
      Skips-then (skip_shape fuel (shape t)) (skip_elements fuel (count rest) (shape t))
        (encoding v) (items_encoding rest)
        (subst (λ x. Skips (skip_shape fuel (shape x)) (encoding v)) e
          (skip-encoding fuel v h (omega arith)))
        (skip_items-encoding fuel t rest hs (omega arith))

  skip_members-encoding :
      (fuel : ℕ) (fields : Members)
      → HaveFields fields
      → members_size fields ≤ fuel
      → Skips (skip_members fuel) (members_encoding fields)
  skip_members-encoding zero end_marker h le = absurd (omega arith)
  skip_members-encoding zero (member id v rest) h le = absurd (omega arith)
  skip_members-encoding (suc fuel) end_marker h le = members_end fuel
  skip_members-encoding (suc fuel) (member id v rest) (lt, plain, named, h, hs) le =
      Skips-member fuel id (kind v) (encoding v ++ members_encoding rest) lt plain named (
        Skips-then (skip_shape fuel (shape (kind v))) (skip_members fuel) (encoding v)
          (members_encoding rest) (skip-encoding fuel v h (omega arith))
          (skip_members-encoding fuel rest hs (omega arith)))

-- With room for its bytes in a valid writer, a value of the format that is not and does not hold a
-- null, with numbers inside their types, lengths inside size_t, array elements of the array's type and
-- field ids whose varint does not begin with 0xFF, is written without an error, and `mp_edf_skip_value` with the value's type then ends with
-- 0 where the writer stands, for every fuel from the size of the value on.
pub skip_value-write_value :
    (w : Writer) (v : Value) (fuel : ℕ)
    → IsValid w
    → IsTyped v
    → HasRoom w (length (encoding v))
    → size v ≤ fuel
    → (w' : Writer) × (write_value v w ≡ ret (ok, w'))
      × (skip_value fuel (kind v) (reader_of w' w.position) ≡ ret (ok, reader_of w' w'.position))
unfolding skip_value
skip_value-write_value w v fuel valid typed room le =
    let bs = encoding v in
    let (w', e, sent, at) =
      written-IsAt (write_value v) bs (length bs) w (write_value-Emits v typed) valid room
        (omega arith) in
    let (r, e', past) = skip-encoding fuel v typed le _ [] at in
    (w', e, e' ∙ ap (λ x. ret (ok, x)) (past_written w w' bs r sent past))
