-- ===== src/Serialization/Protobuf/Zigzag.antt =====
-- The zig-zag encoding of src/serialization/protobuf.c, on patterns of any number of bits.
use micro_posix.Prelude.{
  ℕ, suc, bit_and, ap, arith, lt→ltb, ltb-false, ◌+◌, ◌-◌, ◌*◌, ◌/◌, ◌%◌, ◌^◌, ◌≤◌, ◌<◌, ◌≡◌, ◌∙◌,
}
use micro_posix.Prelude.Bits.{bit_xor-zero, two_pow-suc, bit_and-low, bit_xor-ones}
use micro_posix.Serialization.Protobuf.Writer.{zigzag, unzigzag}
use native.Mathlib.Nat.{mod-eq_of_lt, mod-eq-sub-mod}
use native.Mathlib.Decide.{dec_lt}

zigzag_small : (k n : ℕ) → n < 2 ^ k → zigzag (suc k) n ≡ n * 2
unfolding zigzag
zigzag_small k n h =
    let top : suc k - 1 ≡ k = omega arith in
    let shifted : n * 2 % 2 ^ suc k ≡ n * 2 = mod-eq_of_lt (omega (arith, two_pow-suc k)) in
    rw (top, lt→ltb n (2 ^ k) h, shifted) (bit_xor-zero (n * 2))

zigzag_large : (k n : ℕ) → 2 ^ k ≤ n → n < 2 ^ suc k → zigzag (suc k) n ≡ 2 * 2 ^ suc k - 1 - n * 2
unfolding zigzag
zigzag_large k n h lt =
    let top : suc k - 1 ≡ k = omega arith in
    let shifted : n * 2 % 2 ^ suc k ≡ n * 2 - 2 ^ suc k =
      mod-eq-sub-mod {n = n * 2} {m = 2 ^ suc k} (omega (arith, two_pow-suc k))
      ∙ mod-eq_of_lt (omega (arith, two_pow-suc k)) in
    rw (top, ltb-false n (2 ^ k) h, shifted)
      (bit_xor-ones (suc k) (n * 2 - 2 ^ suc k) (omega (arith, two_pow-suc k))
        ∙ omega (arith, two_pow-suc k))

-- The decoding, by the lowest bit.
unzigzag_even : (w m : ℕ) → unzigzag w (m * 2) ≡ m
unfolding unzigzag
unzigzag_even w m =
    let even : bit_and (m * 2) 1 ≡ 0 = bit_and-low 1 (m * 2) ∙ omega arith in
    let half : m * 2 / 2 ≡ m = omega arith in rw (even, half) (bit_xor-zero m)

unzigzag_odd : (w m z : ℕ) → z ≡ m * 2 + 1 → m < 2 ^ w → unzigzag w z ≡ 2 ^ w - 1 - m
unfolding unzigzag
unzigzag_odd w m z e lt =
    let odd : bit_and z 1 ≡ 1 = bit_and-low 1 z ∙ omega arith in
    let half : z / 2 ≡ m = omega arith in rw (odd, half) (bit_xor-ones w m lt)

-- Decoding an encoded number of any width from 1 bit on gives the number back.
pub unzigzag-zigzag : (k n : ℕ) → n < 2 ^ suc k → unzigzag (suc k) (zigzag (suc k) n) ≡ n
unzigzag-zigzag k n lt = elim (dec_lt n (2 ^ k)) [
  | yes small ↦ ap (unzigzag (suc k)) (zigzag_small k n small) ∙ unzigzag_even (suc k) n
  | no large ↦
      ap (unzigzag (suc k)) (zigzag_large k n (omega arith) lt)
      ∙ unzigzag_odd (suc k) (2 ^ suc k - 1 - n) (2 * 2 ^ suc k - 1 - n * 2) (omega arith)
          (omega arith)
      ∙ omega arith
]

pub zigzag_below : (k n : ℕ) → n < 2 ^ suc k → zigzag (suc k) n < 2 ^ suc k
zigzag_below k n lt = elim (dec_lt n (2 ^ k)) [
  | yes small ↦ rw (zigzag_small k n small) (omega (arith, two_pow-suc k))
  | no large ↦ rw (zigzag_large k n (omega arith) lt) (omega (arith, two_pow-suc k))
]
