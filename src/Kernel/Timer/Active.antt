-- ===== src/Kernel/Timer/Active.antt =====
-- The list of timers.
use micro_posix.Prelude.{
  ℕ, refl, sym, ap, subst, inl, inr, true, false, some, List, [], arith, ==_iff, Bool-cases, length,
  ◌≤◌, ◌<◌, ◌≡◌, ◌∙◌, ◌∷◌, ◌==◌,
}
use micro_posix.Prelude.Chain.{
  IsChain, has, IsDistinct, has-ne, IsChain-frame, walk, visit, walk-visit,
}
use micro_posix.Prelude.Chain.Remove.{erase, remove-IsRemoved}
use micro_posix.Kernel.Timer.{set_timer, next, listed_round, start, timer_ops, stop_timer, Timers}

visit-listed_round : (c : ℕ) (xs : List ℕ) → visit (listed_round c) xs false ≡ has c xs
unfolding visit listed_round
visit-listed_round c [] = refl
visit-listed_round c (x ∷ xs) = elim (Bool-cases (x == c)) [
  | inl e ↦ let q : x ≡ c = (==_iff x c).0 e in rw (e, visit) (ground (arith, ==_iff c x))
  | inr e ↦ rw (e, visit) (visit-listed_round c xs ∙ ground (arith, ==_iff c x, ==_iff x c))
]

-- The search of `mp_timer_start` answers whether the list holds the timer.
searched :
    (fuel c : ℕ) (xs : List ℕ) (s : Timers)
    → length xs ≤ fuel
    → IsDistinct xs
    → IsChain (next s) s.timer_list xs
    → walk fuel (λ acc. next s) (listed_round c) s.timer_list false ≡ some (has c xs)
searched fuel c xs s l d h =
    walk-visit (λ acc. next s) (listed_round c) (λ acc acc' c' rest out e k. k) fuel xs s.timer_list
      false l d h
    ∙ ap some (visit-listed_round c xs)

-- On a list of distinct timers, with fuel for each, `mp_timer_start` returns. A timer of the list is
-- left where it is, with nothing changed; another is put in front, and the list stays one of distinct
-- timers.
pub start-IsChain :
    (fuel c : ℕ) (xs : List ℕ) (s : Timers)
    → length xs ≤ fuel
    → IsDistinct xs
    → IsChain (next s) s.timer_list xs
    → (s' : Timers) × (start fuel s c ≡ some s')
      × (has c xs ≡ true → s' ≡ s)
      × (has c xs ≡ false → IsDistinct (c ∷ xs) × IsChain (next s') s'.timer_list (c ∷ xs))
unfolding start
start-IsChain fuel c xs s l d h = elim (Bool-cases (has c xs)) [
  | inl i ↦ (s, rw (searched fuel c xs s l d h, i), λ i'. refl, λ o. absurd (cc (i, o)))
  | inr o ↦
      let s' : Timers = record (set_timer s c (record (s.timer c) { link = s.timer_list })) {
        timer_list = some c;
      } in
      let head : next s' c ≡ s.timer_list = ground arith in
      let others : (a : ℕ) → has a xs ≡ true → next s' a ≡ next s a =
        λ a i. ground (arith, has-ne a c xs o i) in
      (
        s',
        rw (searched fuel c xs s l d h, o),
        λ i. absurd (cc (i, o)),
        λ o'. (
          (o, d),
          (
            refl,
            subst (λ p. IsChain (next s') p xs) (sym head)
                (IsChain-frame (next s) (next s') s.timer_list xs others h),
          ),
        ),
      )
]

-- A timer `c` that is not in a list of distinct timers, started with fuel for one more, is in front of
-- the list, which is one of distinct timers again; then the stop of any timer `d` returns, and leaves
-- the list without `d`: as it was before the start where `d` is `c`, and with `c` in front of what is
-- left where `d` is another.
pub stop_timer-start :
    (fuel c d : ℕ) (xs : List ℕ) (s : Timers)
    → length xs < fuel
    → IsDistinct xs
    → has c xs ≡ false
    → IsChain (next s) s.timer_list xs
    → (s1 : Timers) × (s2 : Timers) × (start fuel s c ≡ some s1)
      × IsDistinct (c ∷ xs)
      × IsChain (next s1) s1.timer_list (c ∷ xs)
      × (stop_timer fuel s1 d ≡ some s2)
      × ((c == d) ≡ true → IsChain (next s2) s2.timer_list xs)
      × ((c == d) ≡ false → IsChain (next s2) s2.timer_list (c ∷ erase d xs))
unfolding stop_timer
stop_timer-start fuel c d xs s l distinct out h =
    let (s1, e, same, new) = start-IsChain fuel c xs s (omega arith) distinct h in
    let (d', h') = new out in
    let (s2, e', removed) = remove-IsRemoved timer_ops fuel d (c ∷ xs) s1 l d' h' in
    (s1, s2, e, d', h', e', λ q. rw q at removed.0, λ q. rw q at removed.0)
