-- ===== src/Serialization/Protobuf/Writer/Put.antt =====
-- Bytes put behind what is written.
use micro_posix.Prelude.{
  ℕ, zero, suc, refl, sym, ap, subst, inl, inr, none, some, List, [], append-nil, append_assoc,
  arith, leb, lt→ltb, le→leb, leb-false, Option-cases, size_mod, length, set, length-append,
  length-set, take-set, store_bytes, length-store_bytes, take-store_bytes, ◌+◌, ◌/◌, ◌%◌, ◌^◌, ◌≤◌,
  ◌<◌, ◌≡◌, ◌∙◌, ◌∷◌, ◌++◌, if◌then◌else◌,
}
use micro_posix.Prelude.Bits.{bit_or-0x80}
use micro_posix.Run.{ret}
use micro_posix.Serialization.Protobuf.Writer.{
  put_into, put_byte, push_varint, copy_into, copy_in, Writer,
}
use micro_posix.Serialization.Protobuf.Writer.Room.{HasMemory, contents, written, IsValid}
use native.Mathlib.Nat.{pow-suc}
use native.Mathlib.Decide.{dec_lt}

-- `w'` is `w` with the bytes `bs` behind what it had written, in the same memory.
pub record Wrote (w w' : Writer) (bs : List ℕ) : Type 0 where
  pub valid : IsValid w'
  pub appended : written w' ≡ written w ++ bs
  pub position : w'.position ≡ w.position + length bs
  pub size : w'.capacity ≡ w.capacity
  pub realloc : w'.realloc_fn ≡ w.realloc_fn

pub Wrote-nil : (w : Writer) → IsValid w → Wrote w w []
Wrote-nil w v = record {
  valid = v;
  appended = sym (append-nil (written w));
  position = omega arith;
  size = refl;
  realloc = refl;
}

pub Wrote-append :
    (w1 w2 w3 : Writer) (xs ys : List ℕ) → Wrote w1 w2 xs → Wrote w2 w3 ys → Wrote w1 w3 (xs ++ ys)
Wrote-append w1 w2 w3 xs ys a b = record {
  valid = b.valid;
  appended = b.appended ∙ ap (λ t. t ++ ys) a.appended ∙ append_assoc (written w1) xs ys;
  position = omega (arith, a.position, b.position, length-append xs ys);
  size = b.size ∙ a.size;
  realloc = b.realloc ∙ a.realloc;
}

put_into-Wrote :
    (w : Writer) (b : ℕ) (memory : List ℕ)
    → w.buffer ≡ some memory
    → IsValid w
    → w.position < w.capacity
    → length memory ≡ w.capacity
    → (w' : Writer) × (put_into w b (some memory) ≡ ret w') × Wrote w w' (b ∷ [])
put_into-Wrote w b memory e v lt size =
    let exact : (w.position + 1) % size_mod ≡ suc w.position = omega (arith, v.small) in
    (
      record w { buffer = some (set memory w.position b); position = suc w.position },
      rw (lt→ltb w.position (length memory) (omega arith), exact),
      record {
        valid = record {
          memory = length-set memory w.position b ∙ size;
          inside = lt;
          small = v.small;
        };
        appended =
            take-set memory w.position b (omega arith)
            ∙ ap (λ m. contents m w.position ++ (b ∷ [])) (sym e);
        position = omega arith;
        size = refl;
        realloc = refl;
      },
    )

pub put_byte-Wrote :
    (w : Writer) (b : ℕ)
    → IsValid w
    → w.position < w.capacity
    → (w' : Writer) × (put_byte w b ≡ ret w') × Wrote w w' (b ∷ [])
unfolding put_byte
put_byte-Wrote w b v lt = elim (Option-cases w.buffer) [
  | inl e ↦ absurd (omega (arith, subst (λ m. HasMemory m w.capacity) e v.memory))
  | inr (memory, e) ↦
      let (w', r, wrote) =
        put_into-Wrote w b memory e v lt (subst (λ m. HasMemory m w.capacity) e v.memory) in
      (w', ap (put_into w b) e ∙ r, wrote)
]

-- The encoding of a number in groups of seven bits, lowest first, for numbers below 128 ^ (k + 1).
unfoldable pub varint : (k value : ℕ) → List ℕ
varint zero value = value ∷ []
varint (suc k) value =
    let rest = varint k (value / 128) in
    if leb 128 value then (value % 128 + 128) ∷ rest else value ∷ []

pub varint_last : (k value : ℕ) → value < 128 → varint k value ≡ value ∷ []
unfolding varint
varint_last zero value h = refl
varint_last (suc k) value h = rw (leb-false 128 value h)

pub varint_more :
    (k value : ℕ)
    → 128 ≤ value
    → varint (suc k) value ≡ (value % 128 + 128) ∷ varint k (value / 128)
unfolding varint
varint_more k value h = rw (le→leb 128 value h)

push_last :
    (fuel value : ℕ) (w : Writer) → value < 128 → push_varint (suc fuel) value w ≡ put_byte w value
unfolding push_varint
push_last fuel value w h = rw (leb-false 128 value h) (ap (put_byte w) (omega arith))

push_more :
    (fuel value : ℕ) (w w1 : Writer)
    → 128 ≤ value
    → put_byte w (value % 128 + 128) ≡ ret w1
    → push_varint (suc fuel) value w ≡ push_varint fuel (value / 128) w1
unfolding push_varint
push_more fuel value w w1 h e = rw (le→leb 128 value h, bit_or-0x80 value, e)

pub push_varint-Wrote :
    (k value : ℕ) (w : Writer)
    → IsValid w
    → w.position + suc k ≤ w.capacity
    → value < 128 ^ suc k
    → (w' : Writer) × (push_varint (suc k) value w ≡ ret w') × Wrote w w' (varint k value)
push_varint-Wrote zero value w v room lt =
    let (w', e, wrote) = put_byte-Wrote w value v (omega arith) in
    (w', push_last 0 value w lt ∙ e, rw (varint_last 0 value lt) wrote)
push_varint-Wrote (suc k) value w v room lt = elim (dec_lt value 128) [
  | yes small ↦
      let (w', e, wrote) = put_byte-Wrote w value v (omega arith) in
      (w', push_last (suc k) value w small ∙ e, rw (varint_last (suc k) value small) wrote)
  | no large ↦
      let (w1, e1, one) = put_byte-Wrote w (value % 128 + 128) v (omega arith) in
      let (w2, e2, rest) =
        push_varint-Wrote k (value / 128) w1 one.valid (omega (arith, one.position, one.size))
          (omega (arith, pow-suc 128 (suc k))) in
      (
        w2,
        push_more (suc k) value w w1 (omega arith) e1 ∙ e2,
        rw (varint_more k value (omega arith))
            (Wrote-append w w1 w2 ((value % 128 + 128) ∷ []) (varint k (value / 128)) one rest),
      )
]

copy_none :
    (w : Writer) (bytes : List ℕ)
    → IsValid w
    → length bytes ≡ 0
    → (w' : Writer) × (copy_into w bytes none ≡ ret w') × Wrote w w' bytes
copy_none w [] v e = (w, refl, Wrote-nil w v)
copy_none w (b ∷ bs) v e = absurd (omega arith)

copy_some :
    (w : Writer) (bytes memory : List ℕ)
    → w.buffer ≡ some memory
    → IsValid w
    → w.position + length bytes ≤ w.capacity
    → length memory ≡ w.capacity
    → (w' : Writer) × (copy_into w bytes (some memory) ≡ ret w') × Wrote w w' bytes
copy_some w bytes memory e v room size =
    let exact : (w.position + length bytes) % size_mod ≡ w.position + length bytes =
      omega (arith, v.small) in
    (
      record w {
        buffer = some (store_bytes memory w.position bytes);
        position = w.position + length bytes;
      },
      rw (le→leb (w.position + length bytes) (length memory) (omega arith), exact),
      record {
        valid = record {
          memory = length-store_bytes memory w.position bytes ∙ size;
          inside = room;
          small = v.small;
        };
        appended =
            take-store_bytes memory w.position bytes (omega arith)
            ∙ ap (λ m. contents m w.position ++ bytes) (sym e);
        position = refl;
        size = refl;
        realloc = refl;
      },
    )

pub copy_in-Wrote :
    (w : Writer) (bytes : List ℕ)
    → IsValid w
    → w.position + length bytes ≤ w.capacity
    → (w' : Writer) × (copy_in w bytes ≡ ret w') × Wrote w w' bytes
unfolding copy_in
copy_in-Wrote w bytes v room = elim (Option-cases w.buffer) [
  | inl e ↦
      let empty = subst (λ m. HasMemory m w.capacity) e v.memory in
      let (w', r, wrote) = copy_none w bytes v (omega arith) in
      (w', ap (copy_into w bytes) e ∙ r, wrote)
  | inr (memory, e) ↦
      let (w', r, wrote) =
        copy_some w bytes memory e v room (subst (λ m. HasMemory m w.capacity) e v.memory) in
      (w', ap (copy_into w bytes) e ∙ r, wrote)
]
