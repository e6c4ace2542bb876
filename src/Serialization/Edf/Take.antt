-- ===== src/Serialization/Edf/Take.antt =====
-- What the read functions of src/serialization/edf.c make of the bytes in front of the reader.
pub mod Calls
use micro_posix.Prelude.{
  ℕ, zero, suc, bit_and, refl, sym, ap, subst, true, false, Option, none, some, List, [],
  append_assoc, arith, lt→ltb, leb-false, size_mod, length, length-append, ◌+◌, ◌*◌, ◌/◌, ◌%◌, ◌^◌,
  ◌≤◌, ◌<◌, ◌≡◌, ◌∙◌, ◌∷◌, ◌++◌, ◌==◌,
}
use micro_posix.Prelude.Bits.{bit_or-high, bit_and-0x80}
use micro_posix.Run.{Run, ret, ◌>>=◌}
use micro_posix.Serialization.Edf.Types.{type_of, code, IsNamed, EdfType}
use micro_posix.Serialization.Edf.Reader.{
  stored, read_byte, read_type, read_groups, read_length, read_field_header,
}
use micro_posix.Serialization.Edf.Emit.Numbers.{varint32}
use micro_posix.Serialization.Protobuf.Writer.Put.{varint, varint_last, varint_more}
use micro_posix.Serialization.Protobuf.Reader.{Read, advance, and_then, Reader}
use micro_posix.Serialization.Protobuf.Reader.Decode.{
  advance-IsAt, next_byte-IsAt, group_value, split_seven, fresh_seven, IsAt,
}
use native.Mathlib.Decide.{dec_lt}
use native.Mathlib.Nat.{pow-suc}

-- The reader `r'` is `r` behind the bytes `bs`, inside its memory and before `rest`.
pub record IsPast (r : Reader) (bs rest : List ℕ) (r' : Reader) : Type 0 where
  pub at : IsAt r' rest
  pub there : r' ≡ advance r (length bs)

pub advance_add : (r : Reader) (a b : ℕ) → advance (advance r a) b ≡ advance r (a + b)
advance_add r a b = ap (λ (p : ℕ). record r { position = p }) (omega arith)

pub IsPast-append :
    (r r1 r2 : Reader) (xs ys rest1 rest2 : List ℕ)
    → IsPast r xs rest1 r1
    → IsPast r1 ys rest2 r2
    → IsPast r (xs ++ ys) rest2 r2
IsPast-append r r1 r2 xs ys rest1 rest2 a b = record {
  at = b.at;
  there =
      b.there
      ∙ ap (λ x. advance x (length ys)) a.there
      ∙ advance_add r (length xs) (length ys)
      ∙ ap (advance r) (sym (length-append xs ys));
}

-- On a reader inside its memory that stands before `bs`, whatever follows, `m` succeeds, gives `a` and
-- leaves the reader behind `bs`.
abbrev pub Reads : {A : Type 0} → (Reader → Read A) → List ℕ → A → Type 0
Reads m bs a =
    (r : Reader) (rest : List ℕ)
    → IsAt r (bs ++ rest)
    → (r' : Reader) × (m r ≡ ret (some a, r')) × IsPast r bs rest r'

-- A read after which every run of `f` starts in `k`, for any kind of result.
pub Reads-step :
    {A B : Type 0} (m : Reader → Read A) (bs : List ℕ) (a : A) (f : Option A × Reader → Run B)
    (r : Reader) (rest : List ℕ)
    → Reads m bs a
    → IsAt r (bs ++ rest)
    → (r' : Reader) × ((m r >>= f) ≡ f (some a, r')) × IsPast r bs rest r'
Reads-step m bs a f r rest reads at =
    let (r', e, past) = reads r rest at in (r', ap (λ x. x >>= f) e, past)

pub Reads-bind :
    {A B : Type 0} (m : Reader → Read A) (f : A → Reader → Read B) (xs ys : List ℕ) (a : A) (b : B)
    → Reads m xs a
    → Reads (f a) ys b
    → Reads (λ r. and_then (m r) f) (xs ++ ys) b
Reads-bind m f xs ys a b first second r rest at =
    let (r1, e1, at1) = first r (ys ++ rest) (subst (λ l. IsAt r l) (append_assoc xs ys rest) at) in
    let (r2, e2, at2) = second r1 rest at1.at in
    (
      r2,
      ap (λ x. x >>= λ (out, r'). elim out [ none ↦ ret (none, r') | some o ↦ f o r' ]) e1 ∙ e2,
      IsPast-append r r1 r2 xs ys (ys ++ rest) rest at1 at2,
    )

pub stored-Reads :
    {A B : Type 0} (f : A → B) (m : Reader → Read A) (bs : List ℕ) (a : A)
    → Reads m bs a
    → Reads (λ r. stored f (m r)) bs (f a)
stored-Reads f m bs a reads r rest at = Reads-step m bs a _ r rest reads at

pub read_byte-Reads : (b : ℕ) → Reads read_byte (b ∷ []) b
unfolding read_byte
read_byte-Reads b r rest at =
    let (e, inside) = next_byte-IsAt r b rest at in
    (
      advance r 1,
      rw (leb-false r.size r.position inside, e),
      record { at = advance-IsAt r b rest at; there = refl },
    )

pub read_type-Reads : (t : EdfType) → IsNamed t → Reads read_type ((code t % 256) ∷ []) t
unfolding read_type
read_type-Reads t named =
    subst (Reads (λ r. stored type_of (read_byte r)) ((code t % 256) ∷ [])) named (
      stored-Reads type_of read_byte ((code t % 256) ∷ []) (code t % 256)
        (read_byte-Reads (code t % 256)))

groups_last :
    (bound fuel shift acc b : ℕ) (rest : List ℕ) (r : Reader)
    → IsAt r (b ∷ rest)
    → b < 128
    → shift < 32
    → acc < 2 ^ shift
    → acc + b * 2 ^ shift < size_mod
    → (r' : Reader) × (read_groups bound (suc fuel) shift acc r
        ≡ ret (some (acc + b * 2 ^ shift), r'))
      × IsPast r (b ∷ []) rest r'
unfolding read_groups
groups_last bound fuel shift acc b rest r at small early fresh fits =
    let group : bit_and b 0x7F * 2 ^ shift % size_mod ≡ b * 2 ^ shift =
      let low : bit_and b 0x7F ≡ b = omega (arith, group_value b) in rw low (omega arith) in
    let last : (bit_and b 0x80 == 0) ≡ true = ground (arith, bit_and-0x80 b) in
    let (r1, e, at1) = Reads-step read_byte (b ∷ []) b _ r rest (read_byte-Reads b) at in
    (r1, e ∙ rw (lt→ltb shift 32 early, last, group, bit_or-high shift b acc fresh), at1)

groups_more :
    (bound fuel shift acc g : ℕ) (rest : List ℕ) (r : Reader)
    → IsAt r ((g + 128) ∷ rest)
    → g < 128
    → shift + 7 < 32
    → 32 ≤ bound
    → acc < 2 ^ shift
    → acc + g * 2 ^ shift < size_mod
    → (r1 : Reader) × (read_groups bound (suc fuel) shift acc r
        ≡ read_groups bound fuel (shift + 7) (acc + g * 2 ^ shift) r1)
      × IsPast r ((g + 128) ∷ []) rest r1
unfolding read_groups
groups_more bound fuel shift acc g rest r at small early wide fresh fits =
    let low : bit_and (g + 128) 0x7F ≡ g = omega (arith, group_value (g + 128)) in
    let group : bit_and (g + 128) 0x7F * 2 ^ shift % size_mod ≡ g * 2 ^ shift =
      rw low (omega arith) in
    let more : (bit_and (g + 128) 0x80 == 0) ≡ false = ground (arith, bit_and-0x80 (g + 128)) in
    let (r1, e, at1) =
      Reads-step read_byte ((g + 128) ∷ []) (g + 128) _ r rest (read_byte-Reads (g + 128)) at in
    (
      r1,
      e
          ∙ rw (
            lt→ltb shift 32 (omega arith),
            more,
            group,
            bit_or-high shift g acc fresh,
            leb-false bound (shift + 7) (omega arith),
          ),
      at1,
    )

last_small : (shift acc value : ℕ) → shift ≡ 28 → acc + value * 2 ^ shift < size_mod → value < 128
last_small shift acc value e = rw e (λ fits. omega (arith, fits))

-- A number in `k + 1` groups at most, whose last group could start at bit 28, is added to what has
-- been read.
groups-varint :
    (bound k fuel shift acc value : ℕ) (rest : List ℕ) (r : Reader)
    → IsAt r (varint k value ++ rest)
    → k < fuel
    → 32 ≤ bound
    → shift + 7 * k ≡ 28
    → acc < 2 ^ shift
    → acc + value * 2 ^ shift < size_mod
    → (r' : Reader) × (read_groups bound fuel shift acc r
        ≡ ret (some (acc + value * 2 ^ shift), r'))
      × IsPast r (varint k value) rest r'
unfolding varint
groups-varint bound k zero shift acc value rest r at kf wide early fresh fits = absurd (omega arith)
groups-varint bound zero (suc fuel) shift acc value rest r at kf wide early fresh fits =
    groups_last bound fuel shift acc value rest r at (last_small shift acc value (omega arith) fits)
      (omega arith) fresh fits
groups-varint bound (suc k) (suc fuel) shift acc value rest r at kf wide early fresh fits =
    elim (dec_lt value 128) [
      | yes small ↦
          let same = varint_last (suc k) value small in
          let (r', e, past) =
            groups_last bound fuel shift acc value rest r (subst (λ l. IsAt r (l ++ rest)) same at)
              small (omega arith) fresh fits in
          (r', e, subst (λ l. IsPast r l rest r') (sym same) past)
      | no large ↦
          let same = varint_more k value (omega arith) in
          let split = split_seven shift value in
          let (r1, e1, past1) =
            groups_more bound fuel shift acc (value % 128) _ r
              (subst (λ l. IsAt r (l ++ rest)) same at) (omega arith) (omega arith) wide fresh
              (omega (arith, split)) in
          let (r', e, past) =
            groups-varint bound k fuel (shift + 7) (acc + value % 128 * 2 ^ shift) (value / 128)
              rest r1 past1.at (omega arith) wide (omega arith)
              (fresh_seven shift acc (value % 128) fresh (omega arith)) (omega (arith, split)) in
          (
            r',
            e1 ∙ e ∙ ap (λ x. ret (some x, r')) (omega (arith, split)),
            subst (λ l. IsPast r l rest r') (sym same)
                (IsPast-append r r1 r' ((value % 128 + 128) ∷ []) (varint k (value / 128)) _ rest
                  past1 past),
          )
    ]

groups-Reads :
    (bound fuel value : ℕ)
    → 4 < fuel
    → 32 ≤ bound
    → value < size_mod
    → Reads (read_groups bound fuel 0 0) (varint32 value) value
groups-Reads bound fuel value enough wide lt r rest at =
    let (r', e, at') =
      groups-varint bound 4 fuel 0 0 value rest r at enough wide (omega arith) (omega arith)
        (omega arith) in
    (r', e ∙ ap (λ x. ret (some x, r')) (omega arith), at')

pub read_length-Reads : (size : ℕ) → size < size_mod → Reads read_length (varint32 size) size
unfolding read_length
read_length-Reads size lt = groups-Reads 64 6 size (omega arith) (omega arith) lt

pub read_field_header-Reads :
    (id : ℕ) (t : EdfType)
    → id < size_mod
    → IsNamed t
    → Reads read_field_header (varint32 id ++ ((code t % 256) ∷ [])) (id, t)
unfolding read_field_header
read_field_header-Reads id t lt named =
    Reads-bind (read_groups 32 5 0 0) _ (varint32 id) ((code t % 256) ∷ []) id (id, t)
      (groups-Reads 32 5 id (omega arith) (omega arith) lt)
      (stored-Reads (λ type. (id, type)) read_type ((code t % 256) ∷ []) t
        (read_type-Reads t named))
