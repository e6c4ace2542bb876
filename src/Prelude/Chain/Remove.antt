-- ===== src/Prelude/Chain/Remove.antt =====
-- Taking a node out of a linked list: the loop that src/kernel/scheduler.c
-- (`mp_sched_remove_thread`) and src/kernel/timer.c (`mp_timer_stop`) both have, over the operations
-- of the list that each keeps.
use micro_posix.Prelude.{
  ℕ, refl, sym, subst, inl, inr, false, Option, none, some, List, [], arith, ==_iff, ==-refl,
  Bool-cases, length, ◌≤◌, ◌≡◌, ◌∙◌, ◌∷◌, ◌==◌, if◌then◌else◌,
}
use micro_posix.Prelude.Chain.{
  go, stop, IsChain, has, IsDistinct, IsChain-frame, walk, visit, Keeps, walk-visit, visit-go,
  visit-stop, Round,
}
use mathlib.Core.Option

pub record ListOps (S : Type 0) : Type 0 where
  pub next : S → ℕ → Option ℕ
  pub head : S → Option ℕ
  pub set_next : S → ℕ → Option ℕ → S
  pub set_head : S → Option ℕ → S
  pub next-set_next :
      (s : S) (p : ℕ) (q : Option ℕ) (a : ℕ)
      → next (set_next s p q) a ≡ (if a == p then q else next s a)
  pub head-set_next : (s : S) (p : ℕ) (q : Option ℕ) → head (set_next s p q) ≡ head s
  pub next-set_head : (s : S) (q : Option ℕ) (a : ℕ) → next (set_head s q) a ≡ next s a
  pub head-set_head : (s : S) (q : Option ℕ) → head (set_head s q) ≡ q

abbrev pub erase : ℕ → List ℕ → List ℕ
erase c [] = []
erase c (x ∷ xs) = if x == c then xs else x ∷ erase c xs

module _ {S : Type 0} (ops : ListOps S) where
  open ops use {
    next, head, set_next, set_head, next-set_next, head-set_next, next-set_head, head-set_head,
  }

  -- `prev->next = curr->next`, or the same for the head of the list where there is no `prev`.
  pub unlink : S → Option ℕ → ℕ → S
  unlink s none curr = set_head s (next s curr)
  unlink s (some p) curr = set_next s p (next s curr)

  -- The loop's variables are `prev` and the store.
  pub remove_round : ℕ → Option ℕ × S → ℕ → Round (Option ℕ × S)
  unfolding unlink
  remove_round c (prev, s) curr =
      if curr == c then stop (prev, unlink s prev curr) else go (some curr, s)

  unfoldable pub remove : (fuel : ℕ) → S → ℕ → Option S
  unfolding remove_round
  remove fuel s c =
      Option.map (λ (prev, s'). s')
        (walk fuel (λ (prev, s'). next s') (remove_round c) (head s) (none, s))

  -- A later store in which the nodes of `ys` and `p` at most have other successors.
  abbrev SameBut : ℕ → List ℕ → S → S → Type 0
  SameBut p ys s s' = (a : ℕ) → has a (p ∷ ys) ≡ false → next s' a ≡ next s a

  Keeps-remove_round : (c : ℕ) → Keeps (λ (prev, s'). next s') (remove_round c)
  unfolding remove_round
  Keeps-remove_round c (prev, s) (prev', s') curr rest out e h =
      let q : s ≡ s' = ground arith in subst (λ t. IsChain (next t) (next t curr) rest) q h

  -- The state after the loop, where a node `p` before the nodes `ys` stays.
  abbrev Removed : ℕ → ℕ → List ℕ → S → Option ℕ × S → Type 0
  Removed c p ys s (q, s') =
      IsChain (next s') (next s' p) (erase c ys) × SameBut p ys s s' × (head s' ≡ head s)

  Removed-here :
      (p y : ℕ) (ys : List ℕ) (s : S)
      → IsDistinct (p ∷ y ∷ ys)
      → IsChain (next s) (next s y) ys
      → Removed y p (y ∷ ys) s (some p, set_next s p (next s y))
  Removed-here p y ys s (o, d) h = (
    rw (next-set_next s p (next s y) p, ==-refl p, ==-refl y)
        (IsChain-frame (next s) (next (set_next s p (next s y))) (next s y) ys
          (λ a i. ground (arith, next-set_next s p (next s y) a)) h),
    λ a o'. ground (arith, next-set_next s p (next s y) a),
    head-set_next s p (next s y),
  )

  visit-Removed :
      (c p : ℕ) (ys : List ℕ) (s : S)
      → IsDistinct (p ∷ ys)
      → IsChain (next s) (next s p) ys
      → Removed c p ys s (visit (remove_round c) ys (some p, s))
  unfolding remove_round unlink
  visit-Removed c p [] s d h = unfold visit in (h, λ a o. refl, refl)
  visit-Removed c p (y ∷ ys) s (o, d) (e, h) = elim (Bool-cases (y == c)) [
    | inl hit ↦
        let same : y ≡ c = (==_iff y c).0 hit in
        subst (Removed c p (y ∷ ys) s)
          (sym (
            visit-stop (remove_round c) (some p, s) (some p, set_next s p (next s y)) y ys
              (rw hit)))
          (subst (λ k. Removed k p (y ∷ ys) s (some p, set_next s p (next s y))) same
            (Removed-here p y ys s (o, d) h))
    | inr miss ↦
        let (chain, rest, first) = visit-Removed c y ys s d h in
        subst (Removed c p (y ∷ ys) s)
          (sym (visit-go (remove_round c) (some p, s) (some y, s) y ys (rw miss)))
          (rw miss (rest p o ∙ e, chain), λ a o'. rest a (ground arith), first)
  ]

  -- The same for a whole list: the head may be what changes.
  abbrev pub IsRemoved : ℕ → List ℕ → S → S → Type 0
  IsRemoved c xs s s' =
      IsChain (next s') (head s') (erase c xs) × ((a : ℕ) → has a xs ≡ false → next s' a ≡ next s a)

  IsRemoved-visit :
      (c : ℕ) (xs : List ℕ) (s : S)
      → IsDistinct xs
      → IsChain (next s) (head s) xs
      → IsRemoved c xs s (visit (remove_round c) xs (none, s)).1
  unfolding remove_round unlink
  IsRemoved-visit c [] s d h = unfold visit in (h, λ a o. refl)
  IsRemoved-visit c (y ∷ ys) s d (e, h) = elim (Bool-cases (y == c)) [
    | inl hit ↦
        subst (λ r. IsRemoved c (y ∷ ys) s r.1)
          (sym (visit-stop (remove_round c) (none, s) (none, set_head s (next s y)) y ys (rw hit)))
          (
            rw (hit, head-set_head s (next s y))
                (IsChain-frame (next s) (next (set_head s (next s y))) (next s y) ys
                  (λ a i. next-set_head s (next s y) a) h),
            λ a o. next-set_head s (next s y) a,
          )
    | inr miss ↦
        let (chain, rest, first) = visit-Removed c y ys s d h in
        subst (λ r. IsRemoved c (y ∷ ys) s r.1)
          (sym (visit-go (remove_round c) (none, s) (some y, s) y ys (rw miss)))
          (rw miss (first ∙ e, chain), rest)
  ]

  -- On a chain of distinct nodes, with fuel for each, the loop returns; it leaves the chain without
  -- its first `c`, and the links of other nodes as they were.
  pub remove-IsRemoved :
      (fuel c : ℕ) (xs : List ℕ) (s : S)
      → length xs ≤ fuel
      → IsDistinct xs
      → IsChain (next s) (head s) xs
      → (s' : S) × (remove fuel s c ≡ some s') × IsRemoved c xs s s'
  unfolding remove
  remove-IsRemoved fuel c xs s l d h =
      let r = visit (remove_round c) xs (none, s) in
      (
        r.1,
        rw (
            walk-visit (λ (prev, s'). next s') (remove_round c) (Keeps-remove_round c) fuel xs
              (head s) (none, s) l d h),
        IsRemoved-visit c xs s d h,
      )
