-- ===== src/Serialization/Edf/Faults/Endless.antt =====
-- A skip of src/serialization/edf.c that does not end.
use micro_posix.Prelude.{
  ℕ, zero, suc, refl, sym, ap, subst, List, [], arith, size_mod, ok, ◌-◌, ◌<◌, ◌≡◌, ◌∙◌, ◌∷◌, ◌++◌,
}
use micro_posix.Run.{ret, hang}
use micro_posix.Serialization.Edf.Types.{edf_string, edf_object}
use micro_posix.Serialization.Edf.Reader.{read_field_header}
use micro_posix.Serialization.Edf.Skip.{skip_or_fail, skip_shape, skip_members, skip_value, counted}
use micro_posix.Serialization.Edf.Emit.Numbers.{varint32}
use micro_posix.Serialization.Edf.Take.{
  advance_add, IsPast-append, Reads, read_length-Reads, read_field_header-Reads, IsPast,
}
use micro_posix.Serialization.Edf.Take.Calls.{read_object_header-Reads}
use micro_posix.Serialization.Edf.Value.Skipping.{members_pass}
use micro_posix.Serialization.Protobuf.Writer.Put.{varint, varint_last}
use micro_posix.Serialization.Protobuf.Writer.Send.{le_bytes}
use micro_posix.Serialization.Protobuf.Reader.{advance, Reader}
use micro_posix.Serialization.Protobuf.Reader.Decode.{IsAt}

-- 2^32 - 7 as a length.
abbrev back_seven : List ℕ
back_seven = 0xF9 ∷ 0xFF ∷ 0xFF ∷ 0xFF ∷ 0x0F ∷ []

back_seven_varint : varint32 (size_mod - 7) ≡ back_seven
unfolding varint
back_seven_varint = refl

-- A string field of that length: its header has two bytes, its length five.
abbrev pub backwards : (id : ℕ) → List ℕ
backwards id = id ∷ 12 ∷ back_seven

-- The skip of such a string leads from behind the header of the field to the front of it.
skip_back :
    (fuel id : ℕ) (r r1 : Reader) (rest : List ℕ)
    → IsAt r (backwards id ++ rest)
    → IsPast r (id ∷ 12 ∷ []) (back_seven ++ rest) r1
    → skip_shape (suc fuel) counted r1 ≡ ret (ok, r)
unfolding skip_shape
skip_back fuel id r r1 rest at past =
    let n = size_mod - 7 in
    let (r2, e, past2) =
      read_length-Reads n (omega arith) r1 rest
        (subst (λ l. IsAt r1 (l ++ rest)) (sym back_seven_varint) past.at) in
    let both =
      IsPast-append r r1 r2 (id ∷ 12 ∷ []) back_seven _ rest past
        (subst (λ l. IsPast r1 l rest r2) back_seven_varint past2) in
    let home : advance r2 n ≡ r =
      ap (λ x. advance x n) both.there
      ∙ advance_add r 7 n
      ∙ ap (λ (p : ℕ). record r { position = p }) {y = r.position}
          (omega (arith, at.count, at.whole, at.small)) in
    rw e (ap (λ x. ret (ok, x)) home)

backwards_round :
    (fuel id : ℕ) (r : Reader) (rest : List ℕ)
    → IsAt r (backwards id ++ rest)
    → id < 128
    → (r1 : Reader) × (skip_members (suc fuel) r
        ≡ skip_or_fail (skip_shape fuel counted r1) (skip_members fuel))
      × IsPast r (id ∷ 12 ∷ []) (back_seven ++ rest) r1
backwards_round fuel id r rest at small =
    let header =
      subst (λ (l : List ℕ). Reads read_field_header (l ++ (12 ∷ [])) (id, edf_string))
        (varint_last 4 id small) (read_field_header-Reads id edf_string (omega arith) refl) in
    let (r1, e, past) = header r (back_seven ++ rest) at in
    (r1, members_pass fuel r id _ at (ground arith) ∙ rw e refl, past)

skip_members-hang :
    (fuel id : ℕ) (r : Reader) (rest : List ℕ)
    → IsAt r (backwards id ++ rest)
    → id < 128
    → skip_members fuel r ≡ hang
unfolding skip_shape
skip_members-hang zero id r rest at small = refl
skip_members-hang (suc zero) id r rest at small =
    let (r1, e, past) = backwards_round 0 id r rest at small in e
skip_members-hang (suc (suc fuel)) id r rest at small =
    let (r1, e, past) = backwards_round (suc fuel) id r rest at small in
    e
    ∙ ap (λ m. skip_or_fail m (skip_members (suc fuel))) (skip_back fuel id r r1 rest at past)
    ∙ skip_members-hang (suc fuel) id r rest at small

-- On an object that begins with a string field of length 2^32 - 7, under an id below 128, whatever
-- stands behind that, `mp_edf_skip_value` does not end: no fuel is enough.
pub skip_value-hang :
    (fuel schema_id id : ℕ) (r : Reader) (rest : List ℕ)
    → IsAt r ((15 ∷ le_bytes 4 schema_id) ++ (backwards id ++ rest))
    → schema_id < size_mod
    → id < 128
    → skip_value fuel edf_object r ≡ hang
unfolding skip_value skip_shape
skip_value-hang zero schema_id id r rest at lt small = refl
skip_value-hang (suc fuel) schema_id id r rest at lt small =
    let (r1, e, past) = read_object_header-Reads schema_id lt r (backwards id ++ rest) at in
    rw e (skip_members-hang fuel id r1 rest past.at small)
