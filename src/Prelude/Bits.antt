-- ===== src/Prelude/Bits.antt =====
-- Masks, shifts, complements and disjoint `|` on words of any width, as arithmetic.
use micro_posix.Prelude.{
  ℕ, zero, suc, min, bit_and, bit_or, bit_xor, refl, ap, subst, arith, ◌+◌, ◌-◌, ◌*◌, ◌/◌, ◌%◌, ◌^◌,
  ◌≤◌, ◌<◌, ◌≡◌, ◌∙◌,
}
use Prim.Native.Nat.{max, differ, digits, bitwise, bit_and-bitwise, bit_or-bitwise, bit_xor-bitwise}
use native.Mathlib.Nat.{
  pow-suc, one-le-pow, le_refl, mod-lt, mod-eq_of_lt, div-add-mod', mul-add-mod_self_right,
}
use native.Mathlib.Decide.{dec_lt}

module _ (z : ℕ → ℕ) (f : ℕ → ℕ → ℕ) where
  -- More digits to go than the first number has make no difference.
  spare_digits : (k l a b : ℕ) → a ≤ k → a ≤ l → digits z f k a b ≡ digits z f l a b
  spare_digits zero zero a b ak al = refl
  spare_digits (suc k) zero zero b ak al = refl
  spare_digits zero (suc l) zero b ak al = refl
  spare_digits (suc k) (suc l) zero b ak al = refl
  spare_digits zero l (suc a) b ak al = absurd (omega arith)
  spare_digits (suc k) zero (suc a) b ak al = absurd (omega arith)
  spare_digits (suc k) (suc l) (suc a) b ak al =
      ap (λ (t : ℕ). t * 2 + f (suc a % 2) (b % 2))
        (spare_digits k l (suc a / 2) (b / 2) (omega arith) (omega arith))

  lowest_digit :
      (a b : ℕ)
      → bitwise z f (suc a) b ≡ bitwise z f (suc a / 2) (b / 2) * 2 + f (suc a % 2) (b % 2)
  lowest_digit a b =
      ap (λ (t : ℕ). t * 2 + f (suc a % 2) (b % 2))
        (spare_digits a (suc a / 2) (suc a / 2) (b / 2) (omega arith) (le_refl _))

-- One digit of each operation; the rest is the operation on the halves.
pub bit_and-digit : (a b : ℕ) → bit_and a b ≡ bit_and (a / 2) (b / 2) * 2 + min (a % 2) (b % 2)
bit_and-digit zero b = simp bit_and-bitwise (omega arith)
bit_and-digit (suc a) b = simp bit_and-bitwise (lowest_digit (λ y. 0) min a b)

pub bit_or-digit : (a b : ℕ) → bit_or a b ≡ bit_or (a / 2) (b / 2) * 2 + max (a % 2) (b % 2)
bit_or-digit zero b = simp bit_or-bitwise (omega arith)
bit_or-digit (suc a) b = simp bit_or-bitwise (lowest_digit (λ y. y) max a b)

pub bit_xor-digit : (a b : ℕ) → bit_xor a b ≡ bit_xor (a / 2) (b / 2) * 2 + differ (a % 2) (b % 2)
bit_xor-digit zero b = simp bit_xor-bitwise (differ_zero b)
  where
    differ_zero : (b : ℕ) → b ≡ b / 2 * 2 + differ zero (b % 2)
    differ_zero b = omega arith
bit_xor-digit (suc a) b = simp bit_xor-bitwise (lowest_digit (λ y. y) differ a b)

-- With 0 on the right, by induction on a bound of the number.
bit_and-zero_below : (n a : ℕ) → a ≤ n → bit_and a 0 ≡ 0
bit_and-zero_below n zero h = refl
bit_and-zero_below zero (suc a) h = absurd (omega arith)
bit_and-zero_below (suc n) (suc a) h =
    omega (arith, bit_and-digit (suc a) 0, bit_and-zero_below n (suc a / 2) (omega arith))

pub bit_and-zero : (a : ℕ) → bit_and a 0 ≡ 0
bit_and-zero a = bit_and-zero_below a a (le_refl a)

bit_or-zero_below : (n a : ℕ) → a ≤ n → bit_or a 0 ≡ a
bit_or-zero_below n zero h = refl
bit_or-zero_below zero (suc a) h = absurd (omega arith)
bit_or-zero_below (suc n) (suc a) h =
    omega (arith, bit_or-digit (suc a) 0, bit_or-zero_below n (suc a / 2) (omega arith))

pub bit_or-zero : (a : ℕ) → bit_or a 0 ≡ a
bit_or-zero a = bit_or-zero_below a a (le_refl a)

differ-zero : (d : ℕ) → differ d 0 ≡ d
differ-zero zero = refl
differ-zero (suc d) = refl

bit_xor-zero_below : (n a : ℕ) → a ≤ n → bit_xor a 0 ≡ a
bit_xor-zero_below n zero h = refl
bit_xor-zero_below zero (suc a) h = absurd (omega arith)
bit_xor-zero_below (suc n) (suc a) h = omega (
  arith,
  bit_xor-digit (suc a) 0,
  differ-zero (suc a % 2),
  bit_xor-zero_below n (suc a / 2) (omega arith),
)

pub bit_xor-zero : (a : ℕ) → bit_xor a 0 ≡ a
bit_xor-zero a = bit_xor-zero_below a a (le_refl a)

differ_zero : (x y : ℕ) → x < 2 → y < 2 → differ x y ≡ 0 → x ≡ y
differ_zero zero zero hx hy e = refl
differ_zero zero (suc y) hx hy e = absurd (omega (arith, e))
differ_zero (suc x) zero hx hy e = absurd (omega (arith, e))
differ_zero (suc x) (suc y) hx hy e = omega arith

xor_equal_below : (n a b : ℕ) → a ≤ n → b ≤ n → bit_xor a b ≡ 0 → a ≡ b
xor_equal_below zero a b ha hb e = omega arith
xor_equal_below (suc n) a b ha hb e =
    let digit = bit_xor-digit a b in
    let halves =
      xor_equal_below n (a / 2) (b / 2) (omega arith) (omega arith) (omega (arith, digit)) in
    let low = differ_zero (a % 2) (b % 2) (omega arith) (omega arith) (omega (arith, digit)) in
    omega (arith, halves, low)

-- Numbers whose exclusive or is 0 are equal.
pub bit_xor-equal : (a b : ℕ) → bit_xor a b ≡ 0 → a ≡ b
bit_xor-equal a b e = xor_equal_below (a + b) a b (omega arith) (omega arith) e

pub two_pow-suc : (k : ℕ) → 2 ^ suc k ≡ 2 * 2 ^ k
two_pow-suc k = omega (arith, pow-suc 2 k)

pub two_pow-pos : (k : ℕ) → 0 < 2 ^ k
two_pow-pos k = one-le-pow k 2 (omega arith)

-- `a & (2^k - 1)` keeps the low `k` bits.
bit_and-low_fields : (k q r : ℕ) → r < 2 ^ k → bit_and (q * 2 ^ k + r) (2 ^ k - 1) ≡ r
bit_and-low_fields zero q r h = omega (arith, bit_and-zero (q * 1 + r))
bit_and-low_fields (suc k) q r h =
    let e : q * 2 ^ suc k ≡ 2 * (q * 2 ^ k) =
      omega (arith, ap (λ (t : ℕ). q * t) (two_pow-suc k)) in
    ground (
      arith,
      e,
      two_pow-suc k,
      two_pow-pos k,
      bit_and-digit (q * 2 ^ suc k + r) (2 ^ suc k - 1),
      bit_and-low_fields k q (r / 2),
    )

pub bit_and-low : (k a : ℕ) → bit_and a (2 ^ k - 1) ≡ a % 2 ^ k
bit_and-low k a = ground (arith, two_pow-pos k, bit_and-low_fields k (a / 2 ^ k) (a % 2 ^ k))

-- `r | (a << k)` is a sum where `r` fits in `k` bits.
pub bit_or-high : (k a r : ℕ) → r < 2 ^ k → bit_or r (a * 2 ^ k) ≡ r + a * 2 ^ k
bit_or-high zero a r h =
    let e : r ≡ 0 = omega arith in rw e (bit_or-bitwise 0 (a * 1) ∙ omega arith)
bit_or-high (suc k) a r h =
    let e : a * 2 ^ suc k ≡ 2 * (a * 2 ^ k) =
      omega (arith, ap (λ (t : ℕ). a * t) (two_pow-suc k)) in
    ground (arith, e, two_pow-suc k, bit_or-digit r (a * 2 ^ suc k), bit_or-high k a (r / 2))

differ-one : (d : ℕ) → d < 2 → differ d 1 ≡ 1 - d
differ-one zero h = refl
differ-one (suc zero) h = refl
differ-one (suc (suc d)) h = absurd (omega arith)

-- `x ^ (2^k - 1)` is the complement of `k` bits.
pub bit_xor-ones : (k x : ℕ) → x < 2 ^ k → bit_xor x (2 ^ k - 1) ≡ 2 ^ k - 1 - x
bit_xor-ones zero x h = let e : x ≡ 0 = omega arith in rw e refl
bit_xor-ones (suc k) x h = ground (
  arith,
  two_pow-suc k,
  two_pow-pos k,
  differ-one (x % 2),
  bit_xor-digit x (2 ^ suc k - 1),
  bit_xor-ones k (x / 2),
)

fields-mod : (q r m : ℕ) → r < m → (q * m + r) % m ≡ r
fields-mod q r m h = mul-add-mod_self_right q m r ∙ mod-eq_of_lt h

-- The low digit of a remainder by an even number.
double-mod : (y d m : ℕ) → d < 2 → 0 < m → (y * 2 + d) % (2 * m) ≡ y % m * 2 + d
double-mod y d m hd hm =
    ap (λ (t : ℕ). t % (2 * m)) split
    ∙ fields-mod (y / m) (y % m * 2 + d) (2 * m) (omega (arith, mod-lt y hm))
  where
    split : y * 2 + d ≡ y / m * (2 * m) + (y % m * 2 + d)
    split = omega (arith, div-add-mod' y m)

half-mod : (x m : ℕ) → 0 < m → x % (2 * m) ≡ x / 2 % m * 2 + x % 2
half-mod x m hm =
    let e : x ≡ x / 2 * 2 + x % 2 = omega arith in
    ap (λ (t : ℕ). t % (2 * m)) e ∙ double-mod (x / 2) (x % 2) m (omega arith) hm

-- `v | (1 << k)` sets bit `k` and keeps those below it.
bit_or-two_pow : (k v : ℕ) → bit_or v (2 ^ k) % 2 ^ suc k ≡ v % 2 ^ k + 2 ^ k
bit_or-two_pow zero v = omega (arith, bit_or-digit v 1)
bit_or-two_pow (suc k) v = ground (
  arith,
  two_pow-suc k,
  two_pow-suc (suc k),
  two_pow-pos k,
  bit_or-digit v (2 ^ suc k),
  half-mod v (2 ^ k) (two_pow-pos k),
  double-mod (bit_or (v / 2) (2 ^ k)) (v % 2) (2 ^ suc k),
  bit_or-two_pow k (v / 2),
)

pub bit_or-0x80 : (v : ℕ) → bit_or v 0x80 % 256 ≡ v % 128 + 128
bit_or-0x80 = bit_or-two_pow 7

-- A mask of the bits from `k` up to a width `k + j` clears the low `k` bits of a number of that width.
pub bit_and-high : (k j x : ℕ) → x < 2 ^ (k + j) → bit_and x (2 ^ (k + j) - 2 ^ k) ≡ x - x % 2 ^ k
bit_and-high zero j x h = omega (arith, bit_and-low (0 + j) x, mod-eq_of_lt h)
bit_and-high (suc k) j x h = ground (
  arith,
  two_pow-suc k,
  two_pow-suc (k + j),
  width,
  two_pow-pos k,
  bit_and-digit x (2 ^ (suc k + j) - 2 ^ suc k),
  half-mod x (2 ^ k) (two_pow-pos k),
  bit_and-high k j (x / 2),
)
  where
    width : 2 ^ (suc k + j) ≡ 2 ^ suc (k + j)
    width = ap (λ (t : ℕ). 2 ^ t) (omega arith)

-- `b & 0x80` tells whether a byte has its top bit.
pub bit_and-0x80 : (b : ℕ) → b < 256 → bit_and b 0x80 ≡ b / 128 * 128
bit_and-0x80 b h = omega (arith, bit_and-high 7 1 b h)

bit_and-self_below : (n a : ℕ) → a ≤ n → bit_and a a ≡ a
bit_and-self_below n zero h = refl
bit_and-self_below zero (suc a) h = absurd (omega arith)
bit_and-self_below (suc n) (suc a) h =
    omega (arith, bit_and-digit (suc a) (suc a), bit_and-self_below n (suc a / 2) (omega arith))

-- The test for a power of two.
pub is_power_of_two : (n a : ℕ) → a ≤ n → 0 < a → bit_and a (a - 1) ≡ 0 → (k : ℕ) × (a ≡ 2 ^ k)
is_power_of_two n zero h pos t = absurd (omega arith)
is_power_of_two zero (suc a) h pos t = absurd (omega arith)
is_power_of_two (suc n) (suc a) h pos t = elim (dec_lt 0 (suc a % 2)) [
  | yes odd ↦
      let same : suc a / 2 ≡ a / 2 = omega arith in
      let t' : bit_and (suc a) a ≡ 0 =
        subst (λ y. bit_and (suc a) y ≡ 0) {x = suc a - 1} (omega arith) t in
      let self = bit_and-self_below (suc a / 2) (suc a / 2) (le_refl _) in
      (0, omega (arith, bit_and-digit (suc a) a, ap (λ (y : ℕ). bit_and (suc a / 2) y) same, self))
  | no even ↦
      let (k, e) =
        is_power_of_two n (suc a / 2) (omega arith) (omega arith)
          (ground (arith, bit_and-digit (suc a) (suc a - 1))) in
      (suc k, omega (arith, two_pow-suc k))
]
