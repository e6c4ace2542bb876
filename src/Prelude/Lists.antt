-- ===== src/Prelude/Lists.antt =====
-- Lists measured and indexed by native numbers, under the library's names, and byte ranges.
use Prim.Native.Nat.{ℕ, zero, suc, ◌+◌, ◌<◌, ◌≤◌}
use mathlib.Core.Path.{◌≡◌, refl, sym, ap, ◌∙◌}
use mathlib.Core.Logic.{◌≢◌, ◌⊎◌}
use mathlib.Core.List.{List, [], ◌∷◌, ◌++◌, append-nil, append_assoc}
use mathlib.Core.Option.{Option, none, some}
use native.Mathlib.Omega.{arith}

module _ {ℓ} {A : Type ℓ} where
  abbrev pub length : List A → ℕ
  length [] = 0
  length (x ∷ xs) = suc (length xs)

  abbrev pub get_elem? : List A → ℕ → Option A
  get_elem? [] i = none
  get_elem? (x ∷ xs) zero = some x
  get_elem? (x ∷ xs) (suc i) = get_elem? xs i

  abbrev pub get_or : List A → ℕ → A → A
  get_or [] i d = d
  get_or (x ∷ xs) zero d = x
  get_or (x ∷ xs) (suc i) d = get_or xs i d

  -- A write out of bounds changes nothing.
  abbrev pub set : List A → ℕ → A → List A
  set [] i v = []
  set (x ∷ xs) zero v = v ∷ xs
  set (x ∷ xs) (suc i) v = x ∷ set xs i v

  abbrev pub take : ℕ → List A → List A
  take zero xs = []
  take (suc n) [] = []
  take (suc n) (x ∷ xs) = x ∷ take n xs

  abbrev pub drop : ℕ → List A → List A
  drop zero xs = xs
  drop (suc n) [] = []
  drop (suc n) (x ∷ xs) = drop n xs

  abbrev pub replicate : ℕ → A → List A
  replicate zero a = []
  replicate (suc n) a = a ∷ replicate n a

  abbrev pub All {κ} : (A → Type κ) → List A → Type κ
  All P [] = Unit {κ}
  All P (x ∷ xs) = P x × All P xs

  pub length-append : (xs ys : List A) → length (xs ++ ys) ≡ length xs + length ys
  length-append [] ys = omega arith
  length-append (x ∷ xs) ys = omega (arith, length-append xs ys)

module _ {ℓ} {A : Type ℓ} where
  pub length-set : (xs : List A) (i : ℕ) (v : A) → length (set xs i v) ≡ length xs
  length-set [] i v = refl
  length-set (x ∷ xs) zero v = refl
  length-set (x ∷ xs) (suc i) v = ap suc (length-set xs i v)

  pub length-replicate : (n : ℕ) (a : A) → length (replicate n a) ≡ n
  length-replicate zero a = refl
  length-replicate (suc n) a = ap suc (length-replicate n a)

  pub get_or-set_self :
      (xs : List A) (i : ℕ) (v d : A) → i < length xs → get_or (set xs i v) i d ≡ v
  get_or-set_self [] i v d h = absurd (omega arith)
  get_or-set_self (x ∷ xs) zero v d h = refl
  get_or-set_self (x ∷ xs) (suc i) v d h = get_or-set_self xs i v d (omega arith)

  pub get_or-set_ne :
      (xs : List A) (i j : ℕ) (v d : A) → i ≢ j → get_or (set xs i v) j d ≡ get_or xs j d
  get_or-set_ne [] i j v d h = refl
  get_or-set_ne (x ∷ xs) zero zero v d h = absurd (h refl)
  get_or-set_ne (x ∷ xs) zero (suc j) v d h = refl
  get_or-set_ne (x ∷ xs) (suc i) zero v d h = refl
  get_or-set_ne (x ∷ xs) (suc i) (suc j) v d h = get_or-set_ne xs i j v d (λ e. h (ap suc e))

  pub drop-append : (xs ys : List A) → drop (length xs) (xs ++ ys) ≡ ys
  drop-append [] ys = refl
  drop-append (x ∷ xs) ys = drop-append xs ys

  pub take-append : (xs ys : List A) → take (length xs) (xs ++ ys) ≡ xs
  take-append [] ys = refl
  take-append (x ∷ xs) ys = ap (λ t. x ∷ t) (take-append xs ys)

module _ {ℓ} {A : Type ℓ} where
  pub take-set :
      (xs : List A) (i : ℕ) (v : A)
      → i < length xs
      → take (suc i) (set xs i v) ≡ take i xs ++ (v ∷ [])
  take-set [] i v h = absurd (omega arith)
  take-set (x ∷ xs) zero v h = refl
  take-set (x ∷ xs) (suc i) v h = ap (λ t. x ∷ t) (take-set xs i v (omega arith))

  -- What stands at an index, and behind it.
  pub get_elem?-drop :
      (xs : List A) (i : ℕ) (x : A) (rest : List A)
      → drop i xs ≡ x ∷ rest
      → (get_elem? xs i ≡ some x) × (drop (suc i) xs ≡ rest)
  get_elem?-drop [] zero x rest h = absurd (cc h)
  get_elem?-drop [] (suc i) x rest h = absurd (cc h)
  get_elem?-drop (y ∷ xs) zero x rest h = (cc h, cc h)
  get_elem?-drop (y ∷ xs) (suc i) x rest h = get_elem?-drop xs i x rest h

  pub length-drop : (i : ℕ) (xs : List A) → i ≤ length xs → i + length (drop i xs) ≡ length xs
  length-drop zero xs h = omega arith
  length-drop (suc i) [] h = absurd (omega arith)
  length-drop (suc i) (x ∷ xs) h = omega (arith, length-drop i xs (omega arith))

  drop-nil : (n : ℕ) → drop {A = A} n [] ≡ []
  drop-nil zero = refl
  drop-nil (suc n) = refl

  pub drop_add : (i j : ℕ) (xs : List A) → drop (i + j) xs ≡ drop j (drop i xs)
  drop_add zero j xs = ap (λ (k : ℕ). drop k xs) (omega arith)
  drop_add (suc i) j [] = drop-nil (suc i + j) ∙ sym (drop-nil j)
  drop_add (suc i) j (x ∷ xs) =
      ap (λ (k : ℕ). drop k (x ∷ xs)) {y = suc (i + j)} (omega arith) ∙ drop_add i j xs

  pub length-take_le : (n : ℕ) (xs : List A) → n ≤ length xs → length (take n xs) ≡ n
  length-take_le zero xs h = refl
  length-take_le (suc n) [] h = absurd (omega arith)
  length-take_le (suc n) (x ∷ xs) h = ap suc (length-take_le n xs (omega arith))

-- `memcpy` to offset `off` of a buffer, and the `n` bytes at offset `off`. Outside the buffer a
-- write does nothing and a read gives 0; the users' invariants rule both out.
abbrev pub store_bytes : List ℕ → ℕ → List ℕ → List ℕ
store_bytes buf off [] = buf
store_bytes buf off (b ∷ bs) = store_bytes (set buf off b) (off + 1) bs

abbrev pub load_bytes : List ℕ → ℕ → ℕ → List ℕ
load_bytes buf off zero = []
load_bytes buf off (suc n) = get_or buf off 0 ∷ load_bytes buf (off + 1) n

pub length-store_bytes :
    (buf : List ℕ) (off : ℕ) (bs : List ℕ) → length (store_bytes buf off bs) ≡ length buf
length-store_bytes buf off [] = refl
length-store_bytes buf off (b ∷ bs) =
    omega (arith, length-store_bytes (set buf off b) (off + 1) bs, length-set buf off b)

pub length-load_bytes : (buf : List ℕ) (off n : ℕ) → length (load_bytes buf off n) ≡ n
length-load_bytes buf off zero = refl
length-load_bytes buf off (suc n) = ap suc (length-load_bytes buf (off + 1) n)

pub get_or-store_bytes_before :
    (buf : List ℕ) (off : ℕ) (bs : List ℕ) (i : ℕ)
    → i < off
    → get_or (store_bytes buf off bs) i 0 ≡ get_or buf i 0
get_or-store_bytes_before buf off [] i h = refl
get_or-store_bytes_before buf off (b ∷ bs) i h = omega (
  arith,
  get_or-store_bytes_before (set buf off b) (off + 1) bs i (omega arith),
  get_or-set_ne buf off i b 0 (omega arith),
)

pub get_or-store_bytes_after :
    (buf : List ℕ) (off : ℕ) (bs : List ℕ) (i : ℕ)
    → off + length bs ≤ i
    → get_or (store_bytes buf off bs) i 0 ≡ get_or buf i 0
get_or-store_bytes_after buf off [] i h = refl
get_or-store_bytes_after buf off (b ∷ bs) i h = omega (
  arith,
  get_or-store_bytes_after (set buf off b) (off + 1) bs i (omega arith),
  get_or-set_ne buf off i b 0 (omega arith),
)

-- What was stored is read back.
pub load_bytes-store_bytes :
    (buf : List ℕ) (off : ℕ) (bs : List ℕ)
    → off + length bs ≤ length buf
    → load_bytes (store_bytes buf off bs) off (length bs) ≡ bs
load_bytes-store_bytes buf off [] h = refl
load_bytes-store_bytes buf off (b ∷ bs) h = ground (
  arith,
  get_or-store_bytes_before (set buf off b) (off + 1) bs off,
  get_or-set_self buf off b 0,
  length-set buf off b,
  load_bytes-store_bytes (set buf off b) (off + 1) bs,
)

-- A read that a write does not meet.
pub load_bytes-store_bytes_apart :
    (buf : List ℕ) (off : ℕ) (bs : List ℕ) (at n : ℕ)
    → (at + n ≤ off) ⊎ (off + length bs ≤ at)
    → load_bytes (store_bytes buf off bs) at n ≡ load_bytes buf at n
load_bytes-store_bytes_apart buf off bs at zero h = refl
load_bytes-store_bytes_apart buf off bs at (suc n) h = ground (
  arith,
  get_or-store_bytes_before buf off bs at,
  get_or-store_bytes_after buf off bs at,
  load_bytes-store_bytes_apart buf off bs (at + 1) n,
)

pub take-store_bytes :
    (buf : List ℕ) (off : ℕ) (bs : List ℕ)
    → off + length bs ≤ length buf
    → take (off + length bs) (store_bytes buf off bs) ≡ take off buf ++ bs
take-store_bytes buf off [] h =
    ap (λ (k : ℕ). take k buf) (omega arith) ∙ sym (append-nil (take off buf))
take-store_bytes buf off (b ∷ bs) h =
    ap (λ (k : ℕ). take k (store_bytes (set buf off b) (off + 1) bs)) {y = off + 1 + length bs}
      (omega arith)
    ∙ take-store_bytes (set buf off b) (off + 1) bs (omega (arith, length-set buf off b))
    ∙ ap (λ t. t ++ bs)
        (ap (λ (k : ℕ). take k (set buf off b)) {x = off + 1} {y = suc off} (omega arith)
          ∙ take-set buf off b (omega arith))
    ∙ append_assoc (take off buf) (b ∷ []) bs
