-- ===== src/Mm/Arena/Alloc.antt =====
-- What an arena gives out.
use micro_posix.Prelude.{ℕ, bit_and, ap, arith, size_mod, ◌+◌, ◌-◌, ◌%◌, ◌^◌, ◌≤◌, ◌<◌, ◌≡◌, ◌⊎◌}
use micro_posix.Prelude.Bits.{two_pow-pos, bit_and-high}
use micro_posix.Mm.View.{minus}
use micro_posix.Mm.Arena.{align_up, Arena}

-- The buffer ends in the lower half of the address space, and no more of it is used than it has.
pub record IsValid (a : Arena) : Type 0 where
  pub placed : 0 < a.buffer
  pub inside : a.used ≤ a.size
  pub small : a.buffer + a.size ≤ 2 ^ 31

-- The least multiple of `n` that is not below `p`.
abbrev pub round_up : (p n : ℕ) → ℕ
round_up p n = p + n - 1 - (p + n - 1) % n

high_bits : (k x : ℕ) → k < 32 → x < size_mod → bit_and x (size_mod - 2 ^ k) ≡ x - x % 2 ^ k
high_bits k x lt h =
    let whole : 2 ^ (k + (32 - k)) ≡ size_mod =
      ap (λ (n : ℕ). 2 ^ n) {x = k + (32 - k)} {y = 32} (omega arith) in
    rw whole at (bit_and-high k (32 - k) x (rw whole h))

pub align_up_lem :
    (k p : ℕ) → k < 32 → p + 2 ^ k ≤ size_mod → align_up p (2 ^ k) ≡ round_up p (2 ^ k)
unfolding align_up
align_up_lem k p lt h =
    let x : minus ((p + 2 ^ k) % size_mod) 1 ≡ p + 2 ^ k - 1 = omega (arith, two_pow-pos k) in
    let mask : size_mod - 1 - minus (2 ^ k) 1 ≡ size_mod - 2 ^ k = omega (arith, two_pow-pos k) in
    rw (x, mask) (high_bits k (p + 2 ^ k - 1) lt (omega (arith, two_pow-pos k)))

-- What an allocation of `size` bytes at a multiple of `n` does to a valid arena: it gives the next
-- bytes after what is used, rounded up, and uses everything up to their end; or it gives 0 and
-- changes nothing, and the bytes would not fit.
abbrev pub Allocates : Arena → (size n : ℕ) → ℕ × Arena → Type 0
Allocates a size n (p, a') =
    ((a.buffer + a.used ≤ p)
      × (p % n ≡ 0)
      × (p + size ≡ a.buffer + a'.used)
      × IsValid a'
      × (a'.buffer ≡ a.buffer)
      × (a'.size ≡ a.size))
    ⊎ ((p ≡ 0) × (a' ≡ a) × (a.buffer + a.size < round_up (a.buffer + a.used) n + size))
