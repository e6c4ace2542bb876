-- ===== src/Serialization/Edf/Take/Calls.antt =====
-- The reads of src/serialization/edf.c that take several bytes or call others.
use micro_posix.Prelude.{
  ℕ, zero, suc, refl, sym, ap, ap₂, subst, true, false, none, some, List, [], arith, ltb, lt→ltb,
  le→leb, ltb-false, size_mod, length, get_elem?, get_or, drop, length-append, get_elem?-drop,
  load_bytes, ◌+◌, ◌*◌, ◌/◌, ◌%◌, ◌^◌, ◌≤◌, ◌<◌, ◌≡◌, ◌∙◌, ◌∷◌, ◌++◌, if◌then◌else◌,
}
use micro_posix.Prelude.Bits.{bit_or-high}
use micro_posix.Run.{ret}
use micro_posix.Serialization.Edf.Types.{code, IsNamed, EdfType, edf_array, edf_object}
use micro_posix.Serialization.Edf.Reader.{
  read_type, read_length, shift_int, gather, read_le, read_uint32, copied, Counted, read_content,
  read_string, read_array_header, read_object_header, Wanted, only_length, copy,
}
use micro_posix.Serialization.Edf.Emit.Numbers.{varint32, two_pow_eight, length-le_bytes}
use micro_posix.Serialization.Edf.Emit.Calls.{counted_bytes}
use micro_posix.Serialization.Edf.Take.{
  advance_add, Reads, Reads-bind, stored-Reads, read_type-Reads, read_length-Reads, IsPast,
}
use micro_posix.Serialization.Protobuf.Writer.Send.{le_bytes}
use micro_posix.Serialization.Protobuf.Reader.{advance, byte_at, Reader}
use micro_posix.Serialization.Protobuf.Reader.Decode.{advance-IsAt, IsAt}
use native.Mathlib.Nat.{pow-suc, mul-le-mul_right}

at_inside : (r : Reader) (bs : List ℕ) → IsAt r bs → r.position + length bs < size_mod
at_inside r bs at = omega (arith, at.count, at.whole, at.small)

-- Several bytes on.
pub advance_by-IsAt :
    (bs : List ℕ) (r : Reader) (rest : List ℕ)
    → IsAt r (bs ++ rest)
    → IsAt (advance r (length bs)) rest
advance_by-IsAt [] r rest at =
    subst (λ (p : ℕ). IsAt (record r { position = p }) rest) {y = (r.position + 0) % size_mod}
      (omega (arith, at_inside r rest at)) at
advance_by-IsAt (b ∷ bs) r rest at =
    subst (λ x. IsAt x rest)
      (advance_add r 1 (length bs) ∙ ap (advance r) {y = suc (length bs)} (omega arith))
      (advance_by-IsAt bs (advance r 1) rest (advance-IsAt r b (bs ++ rest) at))

pub advance_by-IsPast :
    (bs : List ℕ) (n : ℕ) (r : Reader) (rest : List ℕ)
    → length bs ≡ n
    → IsAt r (bs ++ rest)
    → IsPast r bs rest (advance r n)
advance_by-IsPast bs n r rest e at = record {
  at = subst (λ (k : ℕ). IsAt (advance r k) rest) e (advance_by-IsAt bs r rest at);
  there = ap (advance r) (sym e);
}

split_eight : (s value : ℕ) → value * 2 ^ s ≡ value % 256 * 2 ^ s + value / 256 * 2 ^ (s + 8)
split_eight s value =
    let base : value ≡ value % 256 + value / 256 * 256 = omega arith in
    rw (two_pow_eight s) (omega (arith, ap (λ v. v * 2 ^ s) base))

fresh_eight : (s acc b : ℕ) → acc < 2 ^ s → b < 256 → acc + b * 2 ^ s < 2 ^ (s + 8)
fresh_eight s acc b fresh lt =
    let room : suc b * 2 ^ s ≤ 256 * 2 ^ s = mul-le-mul_right (2 ^ s) lt in
    rw (two_pow_eight s) (omega (arith, fresh, room))

gather-step :
    (n i shift acc b : ℕ) (rest : List ℕ) (r : Reader)
    → IsAt (advance r i) (b ∷ rest)
    → shift < 32
    → acc < 2 ^ shift
    → b * 2 ^ shift < size_mod
    → gather (suc n) i shift acc r ≡ gather n (suc i) (shift + 8) (acc + b * 2 ^ shift) r
unfolding gather byte_at shift_int
gather-step n i shift acc b rest r at early fresh fits =
    let whole : b * 2 ^ shift % size_mod ≡ b * 2 ^ shift = omega arith in
    let here = (get_elem?-drop r.buffer (advance r i).position b rest at.ahead).0 in
    rw (here, lt→ltb shift 32 early, whole, bit_or-high shift b acc fresh)

-- The bytes of a number that fits, from bit `shift` on.
gather-le_bytes :
    (n i shift acc value : ℕ) (rest : List ℕ) (r : Reader)
    → IsAt (advance r i) (le_bytes n value ++ rest)
    → value < 256 ^ n
    → shift + 8 * n ≤ 32
    → acc < 2 ^ shift
    → acc + value * 2 ^ shift < size_mod
    → gather n i shift acc r ≡ ret (acc + value * 2 ^ shift)
unfolding gather le_bytes
gather-le_bytes zero i shift acc value rest r at lt early fresh fits =
    let none_left : value ≡ 0 = omega arith in rw none_left (ap ret (omega arith))
gather-le_bytes (suc n) i shift acc value rest r at lt early fresh fits =
    let split = split_eight shift value in
    let next =
      subst (λ x. IsAt x (le_bytes n (value / 256) ++ rest))
        (advance_add r i 1 ∙ ap (advance r) {y = suc i} (omega arith))
        (advance-IsAt (advance r i) (value % 256) _ at) in
    gather-step n i shift acc (value % 256) _ r at (omega arith) fresh (omega (arith, split))
    ∙ gather-le_bytes n (suc i) (shift + 8) (acc + value % 256 * 2 ^ shift) (value / 256) rest r
        next (omega (arith, pow-suc 256 n)) (omega arith)
        (fresh_eight shift acc (value % 256) fresh (omega arith)) (omega (arith, split))
    ∙ ap ret (omega (arith, split))

pub read_le-Reads :
    (n value : ℕ)
    → n ≤ 4
    → value < 256 ^ n
    → value < size_mod
    → Reads (read_le n) (le_bytes n value) value
unfolding read_le
read_le-Reads n value short lt fits r rest at =
    let size = length-le_bytes n value in
    let start =
      subst (λ (p : ℕ). IsAt (record r { position = p }) (le_bytes n value ++ rest))
        {y = (r.position + 0) % size_mod} (omega (arith, at_inside r _ at)) at in
    let all =
      gather-le_bytes n 0 0 0 value rest r start lt (omega arith) (omega arith) (omega arith) in
    let total = length-append (le_bytes n value) rest in
    let inside : (r.position + n) % size_mod ≤ r.size =
      omega (arith, at.count, at.whole, at.small, total, size) in
    (
      advance r n,
      rw (ltb-false r.size ((r.position + n) % size_mod) inside, all)
          (ap (λ (v : ℕ). ret (some v, advance r n)) (omega arith)),
      advance_by-IsPast (le_bytes n value) n r rest size at,
    )

pub read_uint32-Reads : (value : ℕ) → value < size_mod → Reads read_uint32 (le_bytes 4 value) value
unfolding read_uint32
read_uint32-Reads value lt = read_le-Reads 4 value (omega arith) (omega arith) lt

get_or-some : (xs : List ℕ) (i x : ℕ) → get_elem? xs i ≡ some x → get_or xs i 0 ≡ x
get_or-some [] i x e = absurd (cc e)
get_or-some (y ∷ xs) zero x e = cc e
get_or-some (y ∷ xs) (suc i) x e = get_or-some xs i x e

load_bytes-drop :
    (bs rest buffer : List ℕ) (p : ℕ)
    → drop p buffer ≡ bs ++ rest
    → load_bytes buffer p (length bs) ≡ bs
load_bytes-drop [] rest buffer p e = refl
load_bytes-drop (b ∷ bs) rest buffer p e =
    let (here, behind) = get_elem?-drop buffer p b (bs ++ rest) e in
    ap₂ (λ x y. x ∷ y) (get_or-some buffer p b here)
      (load_bytes-drop bs rest buffer (p + 1)
        (ap (λ (k : ℕ). drop k buffer) {y = suc p} (omega arith) ∙ behind))

-- What a reader gives of a text when a copy of it is wanted, and when only its length is.
abbrev pub outcome : Wanted → List ℕ → Counted
outcome only_length bytes = (none, length bytes)
outcome (copy allocated) bytes = (some bytes, length bytes)

-- The memory for the copy, if one is wanted, is to be had.
abbrev pub IsGiven : Wanted → Type 0
IsGiven only_length = Unit {0}
IsGiven (copy allocated) = allocated ≡ true

content-Reads :
    (wanted : Wanted) (bytes : List ℕ)
    → IsGiven wanted
    → Reads (read_content wanted (length bytes)) bytes (outcome wanted bytes)
unfolding copied
content-Reads only_length bytes given r rest at =
    (advance r (length bytes), refl, advance_by-IsPast bytes (length bytes) r rest refl at)
content-Reads (copy false) bytes given r rest at = absurd (cc given)
content-Reads (copy true) bytes given r rest at = (
  advance r (length bytes),
  rw (
    le→leb (r.position + length bytes) (length r.buffer)
        (omega (arith, at.count, length-append bytes rest)),
    load_bytes-drop bytes rest r.buffer r.position at.ahead,
  ),
  advance_by-IsPast bytes (length bytes) r rest refl at,
)

counted-Reads :
    (wanted : Wanted) (bytes : List ℕ)
    → IsGiven wanted
    → Reads
        (λ r.
          if ltb r.size ((r.position + length bytes) % size_mod)
          then ret (none, r)
          else read_content wanted (length bytes) r)
        bytes
        (outcome wanted bytes)
counted-Reads wanted bytes given r rest at =
    let inside : (r.position + length bytes) % size_mod ≤ r.size =
      omega (arith, at.count, at.whole, at.small, length-append bytes rest) in
    let (r', e, at') = content-Reads wanted bytes given r rest at in
    (r', rw (ltb-false r.size ((r.position + length bytes) % size_mod) inside) e, at')

pub read_string-Reads :
    (wanted : Wanted) (bytes : List ℕ)
    → IsGiven wanted
    → length bytes < size_mod
    → Reads (read_string wanted) (counted_bytes bytes) (outcome wanted bytes)
unfolding read_string
read_string-Reads wanted bytes given lt =
    Reads-bind read_length _ (varint32 (length bytes)) bytes (length bytes) (outcome wanted bytes)
      (read_length-Reads (length bytes) lt) (counted-Reads wanted bytes given)

pub read_array_header-Reads :
    (t : EdfType) (count : ℕ)
    → IsNamed t
    → count < size_mod
    → Reads read_array_header (14 ∷ (code t % 256) ∷ varint32 count) (t, count)
unfolding read_array_header
read_array_header-Reads t count named lt =
    Reads-bind read_type _ (14 ∷ []) ((code t % 256) ∷ varint32 count) edf_array (t, count)
      (read_type-Reads edf_array refl)
      (Reads-bind read_type _ ((code t % 256) ∷ []) (varint32 count) t (t, count)
        (read_type-Reads t named)
        (stored-Reads (λ n. (t, n)) read_length (varint32 count) count
          (read_length-Reads count lt)))

pub read_object_header-Reads :
    (id : ℕ) → id < size_mod → Reads read_object_header (15 ∷ le_bytes 4 id) id
unfolding read_object_header
read_object_header-Reads id lt =
    Reads-bind read_type _ (15 ∷ []) (le_bytes 4 id) edf_object id (read_type-Reads edf_object refl)
      (read_uint32-Reads id lt)
