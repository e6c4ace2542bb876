-- ===== src/Mm/SharedHeap/BestFit.antt =====
-- What the search for a free block in src/mm/shared_heap.c finds.
use micro_posix.Prelude.{
  ℕ, zero, suc, refl, sym, subst, inl, inr, Bool, true, false, Option, none, some, List, [], arith,
  ltb, leb, ==_iff, ==-refl, size_mod, length, ◌+◌, ◌≤◌, ◌<◌, ◌≡◌, ◌∙◌, ◌⊎◌, ◌&&◌, ◌||◌, ◌∷◌, ◌==◌,
  if◌then◌else◌,
}
use micro_posix.Prelude.Chain.{IsChain, has}
use micro_posix.Run.{Returns-map, Returns, returns}
use micro_posix.Mm.SharedHeap.{
  header_bytes, add32, sub32, align_to, better, find_from, find_free_block, Heap,
}
use mathlib.Core.Bool.{or_assoc, or-false}

-- The successors of the blocks in the free list.
abbrev pub next_block : Heap → ℕ → Option ℕ
next_block h a = let b = h.store a in b.next

-- The bytes in front of the aligned address in a block's data.
unfoldable pub padding : (alignment a : ℕ) → ℕ
padding alignment a = let addr = add32 a header_bytes in sub32 (align_to addr alignment) addr

module _ (size alignment : ℕ) (h : Heap) where
  size_of : ℕ → ℕ
  size_of a = let b = h.store a in b.size

  -- Whether the block is large enough.
  pub fits : ℕ → Bool
  fits a = leb (size + padding alignment a) (size_of a)

  -- Of the blocks that are seen, the one that is found is large enough, and none that is large enough is
  -- smaller; if none is found, none is large enough.
  pub Best : (ℕ → Bool) → Option ℕ → Type 0
  Best seen none = (x : ℕ) → seen x ≡ true → fits x ≡ false
  Best seen (some b) =
      (seen b ≡ true)
      × (fits b ≡ true)
      × ((x : ℕ) → seen x ≡ true → fits x ≡ true → size_of b ≤ size_of x)

  Best-same : (s t : ℕ → Bool) (o : Option ℕ) → ((x : ℕ) → s x ≡ t x) → Best s o → Best t o
  unfolding Best
  Best-same s t none e f = λ x g. f x (e x ∙ g)
  Best-same s t (some b) e (i, f, g) = (sym (e b) ∙ i, f, λ x k. g x (e x ∙ k))

  seen_or : (seen : ℕ → Bool) (a x : ℕ) → (seen x || x == a) ≡ true → (seen x ≡ true) ⊎ (x ≡ a)
  seen_or seen a x e = pick (seen x) refl
    where
      pick : (t : Bool) → seen x ≡ t → (seen x ≡ true) ⊎ (x ≡ a)
      pick true q = inl q
      pick false q = inr ((==_iff x a).0 (subst (λ t. (t || x == a) ≡ true) q e))

  smaller : Option ℕ → ℕ → Bool
  smaller none a = true
  smaller (some b) a = ltb (size_of a) (size_of b)

  no_wrap :
      (a : ℕ)
      → size + padding alignment a < size_mod
      → add32 size (padding alignment a) ≡ size + padding alignment a
  no_wrap a lt = omega (arith, lt)

  better-if :
      (best : Option ℕ) (a : ℕ)
      → size + padding alignment a < size_mod
      → better best a size alignment h ≡ (if fits a && smaller best a then some a else best)
  unfolding better fits padding size_of smaller
  better-if none a lt = rw (no_wrap a lt) refl
  better-if (some b) a lt = rw (no_wrap a lt) refl

  -- The block `a` is the best one where it is large enough and smaller than the best so far.
  taken-Best :
      (seen : ℕ → Bool) (best : Option ℕ) (a : ℕ)
      → Best seen best
      → fits a ≡ true
      → smaller best a ≡ true
      → Best (λ x. seen x || x == a) (some a)
  unfolding Best smaller
  taken-Best seen none a f big less = (
    ground (arith, ==-refl a),
    big,
    λ x i e. elim (seen_or seen a x i) [
      | inl k ↦ let none_fits = f x k in cc
      | inr q ↦ subst (λ y. size_of a ≤ size_of y) (sym q) (omega arith)
    ],
  )
  taken-Best seen (some b) a (i, fb, g) big less = (
    ground (arith, ==-refl a),
    big,
    λ x k e. elim (seen_or seen a x k) [
      | inl j ↦ let le = g x j e in ground arith
      | inr q ↦ subst (λ y. size_of a ≤ size_of y) (sym q) (omega arith)
    ],
  )

  -- It is passed over where it is too small, or not smaller.
  passed-Best :
      (seen : ℕ → Bool) (best : Option ℕ) (a : ℕ)
      → Best seen best
      → (fits a && smaller best a) ≡ false
      → Best (λ x. seen x || x == a) best
  unfolding Best smaller
  passed-Best seen none a f rest = λ x i. elim (seen_or seen a x i) [
    | inl k ↦ f x k
    | inr q ↦ subst (λ y. fits y ≡ false) (sym q) (ground arith)
  ]
  passed-Best seen (some b) a (i, fb, g) rest = (
    ground arith,
    fb,
    λ x k e. elim (seen_or seen a x k) [
      | inl j ↦ g x j e
      | inr q ↦
          let big : fits a ≡ true = subst (λ y. fits y ≡ true) q e in
          subst (λ y. size_of b ≤ size_of y) (sym q) (ground arith)
    ],
  )

  better-Best :
      (seen : ℕ → Bool) (best : Option ℕ) (a : ℕ)
      → size + padding alignment a < size_mod
      → Best seen best
      → Best (λ x. seen x || x == a) (better best a size alignment h)
  better-Best seen best a lt f =
      subst (Best (λ x. seen x || x == a)) (sym (better-if best a lt))
        (pick (fits a) (smaller best a) refl refl)
    where
      pick :
          (t u : Bool)
          → fits a ≡ t
          → smaller best a ≡ u
          → Best (λ x. seen x || x == a) (if t && u then some a else best)
      pick true true p q = taken-Best seen best a f p q
      pick true false p q = passed-Best seen best a f (rw (p, q) refl)
      pick false u p q = passed-Best seen best a f (rw p refl)

  find_from-Best :
      (fuel : ℕ) (cur best : Option ℕ) (xs : List ℕ) (seen : ℕ → Bool)
      → IsChain (next_block h) cur xs
      → length xs ≤ fuel
      → ((x : ℕ) → has x xs ≡ true → size + padding alignment x < size_mod)
      → Best seen best
      → Returns (Best (λ x. seen x || has x xs)) (find_from fuel cur best size alignment h)
  unfolding find_from
  find_from-Best fuel cur best [] seen e le small f =
      rw e (returns (Best-same seen _ best (λ x. sym (or-false (seen x))) f))
  find_from-Best zero cur best (x ∷ xs) seen e le small f = absurd (omega arith)
  find_from-Best (suc fuel) cur best (x ∷ xs) seen (e, es) le small f = rw e (
      Returns-map (λ o g. Best-same _ _ o (λ y. or_assoc (seen y) (y == x) (has y xs)) g)
        (find_from-Best fuel _ _ xs (λ y. seen y || y == x) es (omega arith)
          (λ y i. small y (ground (arith, i)))
          (better-Best seen best x (small x (ground (arith, ==-refl x))) f)))

-- `find_free_block` finds the best fit: on a free list through the blocks `xs`, with fuel for each, and
-- where the size and the padding of no block of the list add up to 2^32 or more, it ends; it gives a block of the list that has room for the bytes behind the padding, and no block of
-- the list that has room is smaller; or it gives null, and no block of the list has room.
pub find_free_block-Best :
    (fuel size alignment : ℕ) (h : Heap) (xs : List ℕ)
    → IsChain (next_block h) h.free_list xs
    → length xs ≤ fuel
    → ((x : ℕ) → has x xs ≡ true → size + padding alignment x < size_mod)
    → Returns (Best size alignment h (λ x. has x xs)) (find_free_block fuel size alignment h)
unfolding find_free_block Best
find_free_block-Best fuel size alignment h xs chain le small =
    find_from-Best size alignment h fuel h.free_list none xs (λ x. false) chain le small (λ x e. cc)
