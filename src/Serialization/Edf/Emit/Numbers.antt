-- ===== src/Serialization/Edf/Emit/Numbers.antt =====
-- How the write functions of src/serialization/edf.c append numbers.
use micro_posix.Prelude.{
  ℕ, zero, suc, bit_and, refl, sym, ap, subst, List, [], arith, le→leb, leb-false, size_mod, ok,
  length, ◌+◌, ◌*◌, ◌/◌, ◌%◌, ◌^◌, ◌≤◌, ◌<◌, ◌≡◌, ◌∙◌, ◌∷◌, ◌++◌,
}
use micro_posix.Prelude.Bits.{two_pow-suc, bit_and-low, bit_or-0x80}
use micro_posix.Run.{ret, ◌>>=◌}
use micro_posix.Serialization.Edf.Types.{code, EdfType}
use micro_posix.Serialization.Edf.Writer.{
  ensure_capacity, append_byte, write_type, append_groups, write_length, write_field_header, put_le,
  write_le,
}
use micro_posix.Serialization.Protobuf.Writer.{put_byte, Writer}
use micro_posix.Serialization.Protobuf.Writer.Room.{IsValid}
use micro_posix.Serialization.Protobuf.Writer.Put.{
  Wrote-nil, Wrote-append, put_byte-Wrote, varint, varint_last, varint_more, Wrote,
}
use micro_posix.Serialization.Protobuf.Writer.Send.{le_bytes}
use micro_posix.Serialization.Protobuf.Reader.Decode.{two_pow_seven}
use micro_posix.Serialization.Edf.Emit.{
  Adds, Adds-ok, append_byte-Adds, Emits, Gives-bind, Gives-block, write_type-Emits, Gives-≡,
}
use native.Mathlib.Decide.{dec_lt}
use native.Mathlib.Nat.{pow-suc, div-div-eq-div-mul}

groups_last :
    (k value : ℕ) (w : Writer) → value < 128 → append_groups (suc k) value w ≡ append_byte value w
unfolding append_groups
groups_last k value w h =
    rw (leb-false 128 value h) (ap (λ (b : ℕ). append_byte b w) {y = value} (omega arith))

groups_more :
    (k value : ℕ) (w : Writer)
    → 128 ≤ value
    → append_groups (suc k) value w
      ≡ (append_byte (value % 128 + 128) w >>= append_groups k (value / 128))
unfolding append_groups
groups_more k value w h = rw (le→leb 128 value h, bit_or-0x80 value)

append_groups-last :
    (k value : ℕ) → value < 128 → Adds (append_groups (suc k) value) (varint k value)
append_groups-last k value small =
    subst (Adds (append_groups (suc k) value)) (sym (varint_last k value small)) (
      Gives-≡ (λ w. w) _ (append_byte value) (value ∷ []) (λ w. groups_last k value w small)
        (append_byte-Adds value))

append_groups-Adds :
    (k value : ℕ) → value < 128 ^ suc k → Adds (append_groups (suc k) value) (varint k value)
append_groups-Adds zero value lt = append_groups-last 0 value lt
append_groups-Adds (suc k) value lt = elim (dec_lt value 128) [
  | yes small ↦ append_groups-last (suc k) value small
  | no large ↦
      let g = value % 128 + 128 in
      subst (Adds (append_groups (suc (suc k)) value)) (sym (varint_more k value (omega arith))) (
        Gives-≡ (λ w. w) _ (λ w. append_byte g w >>= append_groups (suc k) (value / 128))
          (g ∷ varint k (value / 128)) (λ w. groups_more (suc k) value w (omega arith))
          (Gives-bind (λ w. w) (λ w. w) (append_byte g) (append_groups (suc k) (value / 128))
            (g ∷ []) (varint k (value / 128)) (append_byte-Adds g)
            (append_groups-Adds k (value / 128) (omega (arith, pow-suc 128 (suc k))))))
]

-- A uint32_t or a size_t in groups of seven bits, at most five.
abbrev pub varint32 : ℕ → List ℕ
varint32 value = varint 4 value

pub write_length-Emits : (size : ℕ) → size < size_mod → Emits (write_length size) (varint32 size)
unfolding write_length
write_length-Emits size lt =
    Adds-ok (append_groups 5 size) (varint32 size) (append_groups-Adds 4 size (omega arith))

pub write_field_header-Emits :
    (id : ℕ) (t : EdfType)
    → id < size_mod
    → Emits (write_field_header id t) (varint32 id ++ ((code t % 256) ∷ []))
unfolding write_field_header
write_field_header-Emits id t lt =
    Gives-bind (λ w. w) (λ w. (ok, w)) (append_groups 5 id) (write_type t) (varint32 id)
      ((code t % 256) ∷ []) (append_groups-Adds 4 id (omega arith)) (write_type-Emits t)

-- The low `n` bytes of what is above bit `shift`.
byte_above : (shift value : ℕ) → bit_and (value / 2 ^ shift) 0xFF ≡ value / 2 ^ shift % 256
byte_above shift value = bit_and-low 8 (value / 2 ^ shift)

pub two_pow_eight : (s : ℕ) → 2 ^ (s + 8) ≡ 2 ^ s * 256
two_pow_eight s =
    let next : 2 ^ (s + 8) ≡ 2 * 2 ^ (s + 7) =
      ap (λ (k : ℕ). 2 ^ k) {y = suc (s + 7)} (omega arith) ∙ two_pow-suc (s + 7) in
    omega (arith, next, two_pow_seven s)

div_eight : (shift value : ℕ) → value / 2 ^ (shift + 8) ≡ value / 2 ^ shift / 256
div_eight shift value =
    ap (λ (p : ℕ). value / p) (two_pow_eight shift) ∙ sym (div-div-eq-div-mul value (2 ^ shift) 256)

put_le-Wrote :
    (n shift value : ℕ) (w : Writer)
    → IsValid w
    → w.position + n ≤ w.capacity
    → (w' : Writer) × (put_le n shift value w ≡ ret w')
      × Wrote w w' (le_bytes n (value / 2 ^ shift))
unfolding put_le le_bytes
put_le-Wrote zero shift value w v fits = (w, refl, Wrote-nil w v)
put_le-Wrote (suc n) shift value w v fits =
    let b = value / 2 ^ shift % 256 in
    let (w1, e1, one) = put_byte-Wrote w b v (omega arith) in
    let (w2, e2, rest) =
      put_le-Wrote n (shift + 8) value w1 one.valid (omega (arith, one.position, one.size)) in
    (
      w2,
      ap (λ (x : ℕ). put_byte w x >>= put_le n (shift + 8) value) (byte_above shift value)
          ∙ ap (λ m. m >>= put_le n (shift + 8) value) e1
          ∙ e2,
      Wrote-append w w1 w2 (b ∷ []) (le_bytes n (value / 2 ^ shift / 256)) one
          (subst (λ (x : ℕ). Wrote w1 w2 (le_bytes n x)) (div_eight shift value) rest),
    )

pub length-le_bytes : (n value : ℕ) → length (le_bytes n value) ≡ n
unfolding le_bytes
length-le_bytes zero value = refl
length-le_bytes (suc n) value = ap suc (length-le_bytes n (value / 256))

pub write_le-Emits : (n value : ℕ) → Emits (write_le n value) (le_bytes n value)
unfolding write_le
write_le-Emits n value =
    let size = length-le_bytes n value in
    subst
      (λ (k : ℕ).
        Emits (λ w. ensure_capacity w k >>= λ w1. put_le n 0 value w1 >>= λ w2. ret (ok, w2))
          (le_bytes n value))
      size
      (Gives-block (λ w. (ok, w)) (λ w1. put_le n 0 value w1 >>= λ w2. ret (ok, w2))
        (le_bytes n value)
        λ w v fits.
          let (w', e, wrote) = put_le-Wrote n 0 value w v (omega arith) in
          (
            w',
            ap (λ m. m >>= λ w2. ret (ok, w2)) e,
            subst (λ (x : ℕ). Wrote w w' (le_bytes n x)) {x = value / 2 ^ 0} (omega arith) wrote,
          ))
