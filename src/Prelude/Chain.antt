-- ===== src/Prelude/Chain.antt =====
-- Linked lists in a store, and the loop `while (curr) { body; curr = curr->next; }` over one. A
-- node is named by a number, and `none` is the null pointer.
pub mod Remove
use micro_posix.Prelude.{
  ℕ, zero, suc, refl, sym, subst, inl, inr, Bool, true, false, Option, none, some, List, [],
  append-nil, append_assoc, arith, ==_iff, Bool-cases, length, ◌≤◌, ◌≡◌, ◌≢◌, ◌⊎◌, ◌||◌, ◌∷◌, ◌++◌,
  ◌==◌,
}
use mathlib.Core.Bool.{or_assoc}

-- From `p` the successors `next` lead through the nodes `xs`, in order, to the null pointer.
abbrev pub IsChain : (ℕ → Option ℕ) → Option ℕ → List ℕ → Type 0
IsChain next p [] = p ≡ none
IsChain next p (x ∷ xs) = (p ≡ some x) × IsChain next (next x) xs

abbrev pub has : ℕ → List ℕ → Bool
has a [] = false
has a (x ∷ xs) = (a == x) || has a xs

abbrev pub IsDistinct : List ℕ → Type 0
IsDistinct [] = Unit {0}
IsDistinct (x ∷ xs) = (has x xs ≡ false) × IsDistinct xs

pub has-append : (a : ℕ) (xs ys : List ℕ) → has a (xs ++ ys) ≡ (has a xs || has a ys)
has-append a [] ys = refl
has-append a (x ∷ xs) ys = rw (has-append a xs ys, or_assoc)

-- Where a member of `xs ++ (b ∷ ys)` stands.
pub has-middle :
    (a b : ℕ) (xs ys : List ℕ)
    → has a (xs ++ (b ∷ ys)) ≡ true
    → (has a xs ≡ true) ⊎ (a ≡ b) ⊎ (has a ys ≡ true)
has-middle a b xs ys h = ground (arith, has-append a xs (b ∷ ys))

-- A member and a number that is none are different.
pub has-ne : (a c : ℕ) (xs : List ℕ) → has c xs ≡ false → has a xs ≡ true → (a == c) ≡ false
has-ne a c xs out i = elim (Bool-cases (a == c)) [
  | inl e ↦ let q : a ≡ c = (==_iff a c).0 e in cc (rw q at i)
  | inr e ↦ e
]

-- A chain depends on the successors of its own nodes only.
pub IsChain-frame :
    (next next' : ℕ → Option ℕ) (p : Option ℕ) (xs : List ℕ)
    → ((a : ℕ) → has a xs ≡ true → next' a ≡ next a)
    → IsChain next p xs
    → IsChain next' p xs
IsChain-frame next next' p [] same h = h
IsChain-frame next next' p (x ∷ xs) same (e, h) = (
  e,
  rw (same x (ground arith))
      (IsChain-frame next next' (next x) xs (λ a i. same a (ground arith)) h),
)

-- What a round of a loop does: go on, or `break` and `return`.
pub data Round (S : Type 0) : Type 0 where
  go : S → Round S
  stop : S → Round S

pub Round-cases : {S : Type 0} (r : Round S) → ((s : S) × (r ≡ go s)) ⊎ ((s : S) × (r ≡ stop s))
Round-cases (go s) = inl (s, refl)
Round-cases (stop s) = inr (s, refl)

-- `none` means that the fuel ran out before the list ended.
unfoldable pub walk :
    {S : Type 0} → ℕ → (S → ℕ → Option ℕ) → (S → ℕ → Round S) → Option ℕ → S → Option S
walk fuel next body none s = some s
walk zero next body (some c) s = none
walk (suc fuel) next body (some c) s = elim (body s c) [
  | stop s' ↦ some s'
  | go s' ↦ walk fuel next body (next s' c) s'
]

-- A round that breaks ends the loop.
pub walk_stop :
    {S : Type 0} (fuel : ℕ) (next : S → ℕ → Option ℕ) (body : S → ℕ → Round S) (c : ℕ) (s s' : S)
    → body s c ≡ stop s'
    → walk (suc fuel) next body (some c) s ≡ some s'
unfolding walk
walk_stop fuel next body c s s' e = rw (e, walk)

-- What every round keeps holds when the loop has ended, whatever it walked.
pub walk_inv {κ} :
    {S : Type 0} (P : S → Type κ) (next : S → ℕ → Option ℕ) (body : S → ℕ → Round S)
    → ((s s' : S) (c : ℕ) → body s c ≡ go s' → P s → P s')
    → ((s s' : S) (c : ℕ) → body s c ≡ stop s' → P s → P s')
    → (fuel : ℕ) (p : Option ℕ) (s s' : S) → walk fuel next body p s ≡ some s'
    → P s
    → P s'
unfolding walk
walk_inv P next body on exit fuel none s s' e h = subst P (cc e) h
walk_inv P next body on exit zero (some c) s s' e h = absurd (cc e)
walk_inv P next body on exit (suc fuel) (some c) s s' e h = elim (Round-cases (body s c)) [
  | inl (t, r) ↦
      walk_inv P next body on exit fuel (next t c) t s' (rw (r, walk) at e) (on s t c r h)
  | inr (t, r) ↦ let q : t ≡ s' = cc (rw (r, walk) at e) in subst P q (exit s t c r h)
]

-- The same rounds over a list that is at hand.
unfoldable pub visit : {S : Type 0} → (S → ℕ → Round S) → List ℕ → S → S
visit body [] s = s
visit body (c ∷ cs) s = elim (body s c) [ stop s' ↦ s' | go s' ↦ visit body cs s' ]

-- A body keeps a chain if what is left of the list stays linked after a round.
abbrev pub Keeps : {S : Type 0} → (S → ℕ → Option ℕ) → (S → ℕ → Round S) → Type 0
Keeps {S} next body =
    (s s' : S) (c : ℕ) (rest : List ℕ)
    → has c rest ≡ false
    → body s c ≡ go s'
    → IsChain (next s) (next s c) rest
    → IsChain (next s') (next s' c) rest

-- The loop over a chain of distinct nodes ends, with fuel for each, as the visit of its nodes.
pub walk-visit :
    {S : Type 0} (next : S → ℕ → Option ℕ) (body : S → ℕ → Round S)
    → Keeps next body
    → (fuel : ℕ) (xs : List ℕ) (p : Option ℕ) (s : S) → length xs ≤ fuel
    → IsDistinct xs
    → IsChain (next s) p xs
    → walk fuel next body p s ≡ some (visit body xs s)
unfolding walk visit
walk-visit next body keep fuel [] p s l d h = rw (h, walk)
walk-visit next body keep zero (x ∷ xs) p s l d h = absurd (omega arith)
walk-visit next body keep (suc fuel) (x ∷ xs) p s l (out, d) (e, h) =
    elim (Round-cases (body s x)) [
      | inl (s', r) ↦ rw e (
          rw (r, walk, visit)
            (walk-visit next body keep fuel xs (next s' x) s' (omega arith) d
              (keep s s' x xs out r h)))
      | inr (s', r) ↦ rw e (rw (r, walk, visit))
    ]

module _ {S : Type 0} (body : S → ℕ → Round S) where
  pub visit-go :
      (s s' : S) (c : ℕ) (cs : List ℕ) → body s c ≡ go s' → visit body (c ∷ cs) s ≡ visit body cs s'
  unfolding visit
  visit-go s s' c cs r = rw (r, visit)

  pub visit-stop :
      (s s' : S) (c : ℕ) (cs : List ℕ) → body s c ≡ stop s' → visit body (c ∷ cs) s ≡ s'
  unfolding visit
  visit-stop s s' c cs r = rw (r, visit)

  -- A loop with no way out but the end: a property of the nodes seen and the state that each round
  -- carries over one node further holds of all the nodes at the end.
  pub visit_inv {κ} :
      (P : List ℕ → S → Type κ)
      → ((s s' : S) (c : ℕ) → body s c ≢ stop s')
      → ((xs : List ℕ) (s s' : S) (c : ℕ) → body s c ≡ go s' → P xs s → P (xs ++ (c ∷ [])) s')
      → (xs ys : List ℕ) (s : S) → P xs s
      → P (xs ++ ys) (visit body ys s)
  unfolding visit
  visit_inv P onward step xs [] s h = rw append-nil h
  visit_inv P onward step xs (y ∷ ys) s h = elim (Round-cases (body s y)) [
    | inl (s', r) ↦
        subst (P (xs ++ (y ∷ ys))) (sym (visit-go s s' y ys r))
          (rw append_assoc at (visit_inv P onward step (xs ++ (y ∷ [])) ys s' (step xs s s' y r h)))
    | inr (s', r) ↦ absurd (onward s s' y r)
  ]
