-- ===== src/Serialization/Protobuf/Writer/Room.antt =====
-- What a writer holds, and how it makes room.
use micro_posix.Prelude.Bits.{two_pow-suc}
use micro_posix.Prelude.{
  ℕ, zero, suc, refl, sym, ap, subst, inl, inr, Option, none, some, List, [], arith, lt→ltb, le→leb,
  ltb-false, leb-false, size_mod, length, take, ◌+◌, ◌*◌, ◌%◌, ◌^◌, ◌≤◌, ◌<◌, ◌≡◌, ◌∙◌, ◌⊎◌, ◌==◌,
  if◌then◌else◌,
}
use micro_posix.Run.{ret}
use micro_posix.Serialization.Protobuf.Writer.{
  Realloc, grow, adopt, resize_by, resize, ensure_capacity, Writer,
}
use native.Mathlib.Decide.{dec_lt}
use native.Mathlib.Nat.{le_trans}

-- `capacity` is the size of the memory, and everything written is inside it.
abbrev pub HasMemory : Option (List ℕ) → ℕ → Type 0
HasMemory none capacity = capacity ≡ 0
HasMemory (some memory) capacity = length memory ≡ capacity

pub record IsValid (w : Writer) : Type 0 where
  pub memory : HasMemory w.buffer w.capacity
  pub inside : w.position ≤ w.capacity
  pub small : w.capacity < size_mod

abbrev pub contents : Option (List ℕ) → ℕ → List ℕ
contents none position = []
contents (some memory) position = take position memory

abbrev pub written : Writer → List ℕ
written w = contents w.buffer w.position

-- What the C library says of `realloc`, where memory of the size is to be had: it has that size, and
-- begins with what the old memory held.
abbrev pub Grows : Realloc → Option (List ℕ) → ℕ → Type 0
Grows realloc none n = (new : List ℕ) × (realloc none n ≡ some new) × (length new ≡ n)
Grows realloc (some old) n =
    (new : List ℕ) × (realloc (some old) n ≡ some new)
    × (length new ≡ n)
    × ((k : ℕ) → k ≤ length old → take k new ≡ take k old)

-- The largest position that the dynamic writers of this development reach.
abbrev pub limit : ℕ
limit = 2 ^ 30

abbrev pub IsReliable : Realloc → Type 0
IsReliable realloc =
    (old : Option (List ℕ)) (n : ℕ)
    → n < 2 ^ 31
    → ((c : ℕ) → HasMemory old c → c ≤ n)
    → Grows realloc old n

-- `n` more bytes fit: they are there, or a reallocation function that does not fail gives them.
abbrev pub HasRoom : Writer → ℕ → Type 0
HasRoom w n =
    (w.position + n ≤ w.capacity)
    ⊎ ((realloc : Realloc) × (w.realloc_fn ≡ some realloc)
        × IsReliable realloc
        × (w.position + n ≤ limit))

grow-more :
    (fuel target size : ℕ)
    → size < target
    → grow (suc fuel) target size ≡ grow fuel target (size * 2 % size_mod)
unfolding grow
grow-more fuel target size h = rw (lt→ltb size target h)

grow-done : (fuel target size : ℕ) → target ≤ size → grow (suc fuel) target size ≡ ret size
unfolding grow
grow-done fuel target size h = rw (ltb-false size target h)

-- The loop ends if doubling so often passes the target.
grow-ret :
    (fuel target size : ℕ)
    → 0 < size
    → size < 2 ^ 31
    → target ≤ limit
    → target ≤ size * 2 ^ fuel
    → (new : ℕ) × (grow (suc fuel) target size ≡ ret new)
      × (target ≤ new)
      × (size ≤ new)
      × (new < 2 ^ 31)
grow-ret zero target size pos lt le enough =
    (size, grow-done zero target size (omega arith), omega arith, omega arith, lt)
grow-ret (suc fuel) target size pos lt le enough = elim (dec_lt size target) [
  | no done ↦ (size, grow-done (suc fuel) target size (omega arith), omega arith, omega arith, lt)
  | yes below ↦
      let (new, e, le_new, ge_size, lt_new) =
        grow-ret fuel target (size * 2) (omega arith) (omega arith) le
          (omega (arith, ap (λ (t : ℕ). size * t) (two_pow-suc fuel))) in
      (
        new,
        grow-more (suc fuel) target size below
            ∙ ap (λ (k : ℕ). grow (suc fuel) target k) {x = size * 2 % size_mod} {y = size * 2}
                (omega arith)
            ∙ e,
        le_new,
        omega arith,
        lt_new,
      )
]

-- The writer after the memory has grown.
record Grown (w w' : Writer) (new : ℕ) : Type 0 where
  valid : IsValid w'
  position : w'.position ≡ w.position
  same : written w' ≡ written w
  size : w'.capacity ≡ new
  realloc : w'.realloc_fn ≡ w.realloc_fn

-- What the old memory held is in the new one.
contents-Grows :
    (realloc : Realloc) (buffer : Option (List ℕ)) (capacity new position : ℕ)
    → HasMemory buffer capacity
    → position ≤ capacity
    → Grows realloc buffer new
    → (memory : List ℕ) × (realloc buffer new ≡ some memory)
      × (length memory ≡ new)
      × (take position memory ≡ contents buffer position)
contents-Grows realloc none capacity new position m inside (memory, e, size) =
    (memory, e, size, ap (λ (k : ℕ). take k memory) {y = 0} (omega arith))
contents-Grows realloc (some old) capacity new position m inside (memory, e, size, prefix) =
    (memory, e, size, prefix position (omega arith))

resize-Grown :
    (w : Writer) (new : ℕ) (realloc : Realloc)
    → IsValid w
    → w.capacity ≤ new
    → new < size_mod
    → w.realloc_fn ≡ some realloc
    → Grows realloc w.buffer new
    → Grown w (resize w new) new
unfolding resize
resize-Grown w new realloc v le lt er grows =
    let (memory, e, size, same) =
      contents-Grows realloc w.buffer w.capacity new w.position v.memory v.inside grows in
    let result : adopt w new (some memory) ≡ resize_by w new w.realloc_fn =
      sym (ap (resize_by w new) er ∙ ap (adopt w new) e) in
    subst (λ r. Grown w r new) result
      (record {
        valid = record { memory = size; inside = le_trans v.inside le; small = lt };
        position = refl;
        same = same;
        size = refl;
        realloc = refl;
      })

-- What `ensure_capacity` has done when it returns: the same bytes are written, and `n` more fit.
pub record Ensured (w w' : Writer) (n : ℕ) : Type 0 where
  pub valid : IsValid w'
  pub position : w'.position ≡ w.position
  pub same : written w' ≡ written w
  pub fits : w.position + n ≤ w'.capacity
  pub realloc : w'.realloc_fn ≡ w.realloc_fn

first_size : ℕ → ℕ
first_size capacity = if capacity == 0 then 256 else capacity * 2 % size_mod

first_size_bounds :
    (capacity target : ℕ)
    → capacity < target
    → target ≤ limit
    → (0 < first_size capacity) × (first_size capacity < 2 ^ 31) × (capacity ≤ first_size capacity)
unfolding first_size
first_size_bounds capacity target h le = ground arith

HasMemory-unique :
    (buffer : Option (List ℕ)) (b c : ℕ) → HasMemory buffer b → HasMemory buffer c → c ≡ b
HasMemory-unique none b c h k = omega arith
HasMemory-unique (some memory) b c h k = omega arith

ensure_capacity_short :
    (w : Writer) (n new : ℕ)
    → w.capacity < w.position + n
    → w.position + n ≤ limit
    → grow 33 (w.position + n) (first_size w.capacity) ≡ ret new
    → ensure_capacity w n ≡ ret (resize w new)
unfolding ensure_capacity first_size
ensure_capacity_short w n new short le g =
    let exact : (w.position + n) % size_mod ≡ w.position + n = omega arith in
    rw (exact, leb-false (w.position + n) w.capacity short, g)

pub ensure_capacity-Ensured :
    (w : Writer) (n : ℕ)
    → IsValid w
    → HasRoom w n
    → (w' : Writer) × (ensure_capacity w n ≡ ret w') × Ensured w w' n
unfolding ensure_capacity
ensure_capacity-Ensured w n v room = elim (dec_lt w.capacity (w.position + n)) [
  | no enough ↦
      let fits : w.position + n ≤ w.capacity = omega arith in
      (
        w,
        rw (le→leb ((w.position + n) % size_mod) w.capacity (omega (arith, v.small))),
        record { valid = v; position = refl; same = refl; fits = fits; realloc = refl },
      )
  | yes short ↦ elim room [
    | inl fits ↦ absurd (omega arith)
    | inr (realloc, er, reliable, le) ↦
        let (pos, lt, ge) = first_size_bounds w.capacity (w.position + n) short le in
        let (new, g, le_new, ge_new, lt_new) =
          grow-ret 32 (w.position + n) (first_size w.capacity) pos lt le (omega arith) in
        let grown = resize-Grown w new realloc v (omega arith) (omega arith) er (
          reliable w.buffer new lt_new
            (λ c m. omega (arith, HasMemory-unique w.buffer w.capacity c v.memory m))) in
        (
          resize w new,
          ensure_capacity_short w n new short le g,
          record {
            valid = grown.valid;
            position = grown.position;
            same = grown.same;
            fits = omega (arith, grown.size);
            realloc = grown.realloc;
          },
        )
  ]
]
