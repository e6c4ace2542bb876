-- ===== src/Mm/Pool/Free.antt =====
-- The free blocks of a pool are a stack.
use micro_posix.Prelude.{
  ℕ, suc, refl, sym, subst, false, some, List, [], arith, ==_iff, ==-refl, size_mod, length, ◌+◌,
  ◌-◌, ◌%◌, ◌<◌, ◌≡◌, ◌≢◌, ◌∷◌, ◌==◌,
}
use micro_posix.Prelude.Chain.{has, IsDistinct}
use micro_posix.Mm.Pool.{store, alloc, free, Pool}

-- From `p` the first words of the blocks lead through `xs`, in order, to the null pointer.
abbrev pub IsLinked : (ℕ → ℕ) → (p : ℕ) → List ℕ → Type 0
IsLinked memory p [] = p ≡ 0
IsLinked memory p (x ∷ xs) = (p ≡ x) × ((x ≢ 0) × IsLinked memory (memory x) xs)

-- The free blocks of the pool are `xs`, each once.
pub record IsFree (p : Pool) (memory : ℕ → ℕ) (xs : List ℕ) : Type 0 where
  pub linked : IsLinked memory p.bitmap xs
  pub distinct : IsDistinct xs
  pub count : p.free_blocks ≡ length xs

-- A write to a block that is not of the list leaves it.
IsLinked-store :
    (memory : ℕ → ℕ) (a v p : ℕ) (xs : List ℕ)
    → has a xs ≡ false
    → IsLinked memory p xs
    → IsLinked (store memory a v) p xs
IsLinked-store memory a v p [] out h = h
IsLinked-store memory a v p (x ∷ xs) out (e, (nz, h)) =
    let same : store memory a v x ≡ memory x = ground (arith, ==_iff a x, ==_iff x a) in
    (e, (nz, rw same (IsLinked-store memory a v (memory x) xs (ground arith) h)))

-- What an allocation gives of the free blocks `xs`.
abbrev pub Pops : Pool → (ℕ → ℕ) → List ℕ → ℕ × Pool → Type 0
Pops p memory [] (block, p') = (block ≡ 0) × (p' ≡ p)
Pops p memory (x ∷ xs) (block, p') = (block ≡ x) × IsFree p' memory xs

-- `mp_pool_alloc` gives the first free block and leaves the others, or gives null and changes nothing
-- where none is free.
pub alloc-Pops :
    (p : Pool) (memory : ℕ → ℕ) (xs : List ℕ)
    → IsFree p memory xs
    → Pops p memory xs (alloc p memory)
unfolding alloc
alloc-Pops p memory [] v = rw (v.count) (refl, refl)
alloc-Pops p memory (x ∷ xs) v =
    let some_left : (p.free_blocks == 0) ≡ false = ground (arith, v.count) in
    rw some_left (
      v.linked.0,
      record {
        linked = subst (λ a. IsLinked memory (memory a) xs) (sym v.linked.0) v.linked.1.1;
        distinct = v.distinct.1;
        count = omega (arith, v.count);
      },
    )

-- A block that is not null and not free already, given back by `mp_pool_free`, is the first free
-- block, and the next `mp_pool_alloc` gives it out again and leaves the pool as it was before.
pub alloc-free :
    (p : Pool) (memory : ℕ → ℕ) (block : ℕ) (xs : List ℕ)
    → IsFree p memory xs
    → block ≢ 0
    → has block xs ≡ false
    → length xs + 1 < size_mod
    → (p' : Pool) × (memory' : ℕ → ℕ) × (free (some p) block memory ≡ (some p', memory'))
      × IsFree p' memory' (block ∷ xs)
      × (alloc p' memory' ≡ (block, p))
unfolding free alloc
alloc-free p memory block xs v nz out fits =
    let given : (block == 0) ≡ false = ground arith in
    let up : (p.free_blocks + 1) % size_mod ≡ suc (length xs) = omega (arith, v.count) in
    let word : store memory block p.bitmap block ≡ p.bitmap = rw (==-refl block) in
    let taken : ((p.free_blocks + 1) % size_mod == 0) ≡ false = ground (arith, up) in
    let back : (p.free_blocks + 1) % size_mod - 1 ≡ p.free_blocks = omega (arith, up, v.count) in
    let p' : Pool = record p { bitmap = block; free_blocks = (p.free_blocks + 1) % size_mod } in
    (
      p',
      store memory block p.bitmap,
      rw given refl,
      record {
        linked =
            (refl, (nz, rw word (IsLinked-store memory block p.bitmap p.bitmap xs out v.linked)));
        distinct = (out, v.distinct);
        count = up;
      },
      rw (taken, word, back),
    )
