-- ===== src/Serialization/Protobuf/Reader/Decode.antt =====
-- What a reader makes of the bytes in front of it.
use micro_posix.Prelude.{
  ℕ, zero, suc, bit_and, ap, subst, true, false, some, List, arith, leb-false, size_mod, u64_mod,
  length, drop, get_elem?-drop, ◌+◌, ◌*◌, ◌/◌, ◌%◌, ◌^◌, ◌≤◌, ◌<◌, ◌≡◌, ◌∙◌, ◌∷◌, ◌++◌, ◌==◌,
}
use micro_posix.Prelude.Bits.{two_pow-suc, bit_and-low, bit_or-high, bit_and-0x80}
use micro_posix.Run.{ret, ◌>>=◌}
use micro_posix.Serialization.Protobuf.Reader.{
  advance, fetched, byte_at, next_byte, read_groups, Reader,
}
use micro_posix.Serialization.Protobuf.Writer.Put.{varint, varint_last, varint_more}
use native.Mathlib.Numerals.{towards_suc}
use native.Mathlib.Nat.{mul-le-mul_right}
use native.Mathlib.Decide.{dec_lt}

-- The reader stands inside its memory, which is all it may read, before the bytes `rest`.
pub record IsAt (r : Reader) (rest : List ℕ) : Type 0 where
  pub ahead : drop r.position r.buffer ≡ rest
  pub count : r.position + length rest ≡ length r.buffer
  pub whole : r.size ≡ length r.buffer
  pub small : r.size < size_mod

-- One byte on.
pub advance-IsAt :
    (r : Reader) (b : ℕ) (rest : List ℕ) → IsAt r (b ∷ rest) → IsAt (advance r 1) rest
advance-IsAt r b rest v =
    let exact : (r.position + 1) % size_mod ≡ suc r.position =
      omega (arith, v.count, v.whole, v.small) in
    record {
      ahead = rw exact (get_elem?-drop r.buffer r.position b rest v.ahead).1;
      count = omega (arith, v.count);
      whole = v.whole;
      small = v.small;
    }

pub next_byte-IsAt :
    (r : Reader) (b : ℕ) (rest : List ℕ)
    → IsAt r (b ∷ rest)
    → (next_byte r ≡ ret (b, advance r 1)) × (r.position < r.size)
unfolding next_byte byte_at
next_byte-IsAt r b rest v = (
  ap (λ o. fetched o >>= λ x. ret (x, advance r 1))
      (get_elem?-drop r.buffer r.position b rest v.ahead).0,
  omega (arith, v.count, v.whole),
)

pub group_value : (b : ℕ) → bit_and b 0x7F ≡ b % 128
group_value b = bit_and-low 7 b

-- The last group of a number, and a group that another follows.
pub read_last :
    (fuel shift acc b : ℕ) (rest : List ℕ) (r : Reader)
    → IsAt r (b ∷ rest)
    → b < 128
    → acc < 2 ^ shift
    → acc + b * 2 ^ shift < u64_mod
    → read_groups (suc fuel) shift acc r ≡ ret (some (acc + b * 2 ^ shift), advance r 1)
unfolding read_groups
read_last fuel shift acc b rest r v small fresh fits =
    let (e, inside) = next_byte-IsAt r b rest v in
    let group : bit_and b 0x7F * 2 ^ shift % u64_mod ≡ b * 2 ^ shift =
      let low : bit_and b 0x7F ≡ b = omega (arith, group_value b) in rw low (omega arith) in
    let last : (bit_and b 0x80 == 0) ≡ true = ground (arith, bit_and-0x80 b) in
    rw (leb-false r.size r.position inside, e, last, group, bit_or-high shift b acc fresh)

read_more :
    (fuel shift acc g : ℕ) (rest : List ℕ) (r : Reader)
    → IsAt r ((g + 128) ∷ rest)
    → g < 128
    → shift < 57
    → acc < 2 ^ shift
    → acc + g * 2 ^ shift < u64_mod
    → read_groups (suc fuel) shift acc r
      ≡ read_groups fuel (shift + 7) (acc + g * 2 ^ shift) (advance r 1)
unfolding read_groups
read_more fuel shift acc g rest r v small early fresh fits =
    let (e, inside) = next_byte-IsAt r (g + 128) rest v in
    let low : bit_and (g + 128) 0x7F ≡ g = omega (arith, group_value (g + 128)) in
    let group : bit_and (g + 128) 0x7F * 2 ^ shift % u64_mod ≡ g * 2 ^ shift =
      rw low (omega arith) in
    let more : (bit_and (g + 128) 0x80 == 0) ≡ false = ground (arith, bit_and-0x80 (g + 128)) in
    rw (
      leb-false r.size r.position inside,
      e,
      more,
      group,
      bit_or-high shift g acc fresh,
      leb-false 64 (shift + 7) (omega arith),
    )

pub two_pow_seven : (s : ℕ) → 2 ^ (s + 7) ≡ 128 * 2 ^ s
two_pow_seven s = simp towards_suc (
    omega (
      arith,
      two_pow-suc (suc (suc (suc (suc (suc (suc s)))))),
      two_pow-suc (suc (suc (suc (suc (suc s))))),
      two_pow-suc (suc (suc (suc (suc s)))),
      two_pow-suc (suc (suc (suc s))),
      two_pow-suc (suc (suc s)),
      two_pow-suc (suc s),
      two_pow-suc s,
    ))

-- The split of a number at its lowest seven bits.
pub split_seven : (s value : ℕ) → value * 2 ^ s ≡ value % 128 * 2 ^ s + value / 128 * 2 ^ (s + 7)
split_seven s value =
    let base : value ≡ value % 128 + value / 128 * 128 = omega arith in
    rw (two_pow_seven s) (omega (arith, ap (λ v. v * 2 ^ s) base))

below_next : (p acc g : ℕ) → acc < p → g < 128 → acc + g * p < 128 * p
below_next p acc g fresh lt =
    let room : suc g * p ≤ 128 * p = mul-le-mul_right p lt in omega (arith, fresh, room)

pub fresh_seven : (s acc g : ℕ) → acc < 2 ^ s → g < 128 → acc + g * 2 ^ s < 2 ^ (s + 7)
fresh_seven s acc g fresh lt = rw (two_pow_seven s) (below_next (2 ^ s) acc g fresh lt)

last_small : (shift acc value : ℕ) → shift ≡ 63 → acc + value * 2 ^ shift < u64_mod → value < 128
last_small shift acc value e = rw e (λ fits. omega (arith, fits))

-- A number in `k + 1` groups at most, whose last group could start at bit 63, is added to what has
-- been read.
pub read_groups-varint :
    (k fuel shift acc value : ℕ) (rest : List ℕ) (r : Reader)
    → IsAt r (varint k value ++ rest)
    → k < fuel
    → shift + 7 * k ≡ 63
    → acc < 2 ^ shift
    → acc + value * 2 ^ shift < u64_mod
    → (r' : Reader) × (read_groups fuel shift acc r ≡ ret (some (acc + value * 2 ^ shift), r'))
      × IsAt r' rest
unfolding varint
read_groups-varint k zero shift acc value rest r v kf early fresh fits = absurd (omega arith)
read_groups-varint zero (suc fuel) shift acc value rest r v kf early fresh fits =
    let small = last_small shift acc value (omega arith) fits in
    (
      advance r 1,
      read_last fuel shift acc value rest r v small fresh fits,
      advance-IsAt r value rest v,
    )
read_groups-varint (suc k) (suc fuel) shift acc value rest r v kf early fresh fits =
    elim (dec_lt value 128) [
      | yes small ↦
          let v1 : IsAt r (value ∷ rest) =
            subst (λ l. IsAt r (l ++ rest)) (varint_last (suc k) value small) v in
          (
            advance r 1,
            read_last fuel shift acc value rest r v1 small fresh fits,
            advance-IsAt r value rest v1,
          )
      | no large ↦
          let v1 : IsAt r ((value % 128 + 128) ∷ (varint k (value / 128) ++ rest)) =
            subst (λ l. IsAt r (l ++ rest)) (varint_more k value (omega arith)) v in
          let split = split_seven shift value in
          let (r', e, at) =
            read_groups-varint k fuel (shift + 7) (acc + value % 128 * 2 ^ shift) (value / 128) rest
              (advance r 1) (advance-IsAt r (value % 128 + 128) _ v1) (omega arith) (omega arith)
              (fresh_seven shift acc (value % 128) fresh (omega arith)) (omega (arith, split)) in
          let here =
            read_more fuel shift acc (value % 128) _ r v1 (omega arith) (omega arith) fresh
              (omega (arith, split)) in
          (r', here ∙ e ∙ ap (λ x. ret (some x, r')) (omega (arith, split)), at)
    ]
