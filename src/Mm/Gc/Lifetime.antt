-- ===== src/Mm/Gc/Lifetime.antt =====
-- The life of an object of src/mm/gc.c, from its allocation on.
use micro_posix.Prelude.{
  ℕ, refl, sym, ap, subst, Bool, true, false, Option, none, some, List, arith, leb, ==_iff,
  size_mod, ◌+◌, ◌-◌, ◌%◌, ◌≤◌, ◌<◌, ◌≡◌, ◌∙◌, ◌≢◌, ◌&&◌, ◌∷◌, ◌==◌, if◌then◌else◌,
}
use micro_posix.Run.{Returns-map, Returns, ret, returns, ◌>>=◌}
use micro_posix.Mm.Gc.{
  header_size, plus32, minus32, put_object, update_if, set_prev, free_object, total_size, finalize,
  set_head, Object, Gc, young_ones,
}
use micro_posix.Mm.Gc.Memory.{
  store-put_object, store-put_object_ne, load-some, update-some, when_owned-mine,
}
use micro_posix.Mm.Gc.Objects.{
  new_object, count_new, link_new, linked, first_malloc, alloc_with_finalizer, gc_alloc,
  unlink_object, count_freed, gc_free,
}
use micro_posix.Mm.Gc.Roots.{Allocated}
use native.Mathlib.Nat.{mod-eq_of_lt, add-mod_right}

-- The collector and the memory are the same but for the results of `malloc`, the finalizers called and
-- the statistics.
pub record SameObjects (g g' : Gc) : Type 0 where
  pub store : (b : ℕ) → g'.store b ≡ g.store b
  pub young : g'.young_list ≡ g.young_list
  pub olds : g'.old_list ≡ g.old_list
  pub roots : g'.root_list ≡ g.root_list
  pub count : g'.num_objects ≡ g.num_objects

-- Freeing an object that is still as it was made, in the collector's state `h`, and first in its list.
module _ (a size : ℕ) (h g : Gc) (there : g.store a ≡ some (new_object size false h)) where
  gc_free-new :
      (g1 : Gc) (o1 : Object)
      → update_if h.young_list (set_prev none) (set_head young_ones h.young_list g) ≡ ret g1
      → g1.store a ≡ some o1
      → gc_free a g ≡ ret (free_object a (count_freed (plus32 o1.size header_size) g1))
  unfolding gc_free unlink_object finalize total_size
  gc_free-new g1 o1 e there1 =
      when_owned-mine a (new_object size false h) g there (λ g2. ret g2) _ refl
      ∙ ap (λ m. m >>= λ g2. total_size a g2 >>= λ n. ret (free_object a (count_freed n g2))) e
      ∙ ap
          (λ m. (m >>= λ o. ret (plus32 o.size header_size)) >>= λ n.
            ret (free_object a (count_freed n g1)))
          (load-some a o1 g1 there1)

-- A count that goes up and down again.
minus32-plus32 : (n m : ℕ) → n < m → m < size_mod → minus32 (plus32 n 1) 1 ≡ n
minus32-plus32 n m l bound =
    ap (λ t. (t + (size_mod - 1)) % size_mod)
      (mod-eq_of_lt {n = n + 1} {m = size_mod} (omega arith))
    ∙ ap (λ t. t % size_mod) (omega arith)
    ∙ add-mod_right n size_mod
    ∙ mod-eq_of_lt (omega arith)

gc_alloc-some :
    (fuel size a : ℕ) (ps : List (Option ℕ)) (g : Gc)
    → 1 ≤ size
    → g.mallocs ≡ some a ∷ ps
    → g.num_objects < g.max_objects
    → gc_alloc fuel size g ≡ link_new size false a (record g { mallocs = ps })
unfolding gc_alloc alloc_with_finalizer first_malloc linked
gc_alloc-some fuel size a ps g pos given few =
    let not_empty : (size == 0) ≡ false = ground arith in
    let not_full : (g.gc_enabled && leb g.max_objects g.num_objects) ≡ false = ground arith in
    rw (not_empty, not_full, given) refl

-- What the code does before and after the object is in the list; `g1` and `g3` are the states once the
-- object behind it points to it, and no longer does.
module _ (size a : ℕ) (h g1 g3 : Gc)
    (link : update_if h.young_list
        (set_prev (some a))
        (put_object a (some (new_object size false h)) h)
      ≡ ret g1)
    (unlink : update_if h.young_list
        (set_prev none)
        (set_head young_ones h.young_list (count_new size (set_head young_ones (some a) g1)))
      ≡ ret g3)
    (there : g1.store a ≡ some (new_object size false h)) (still : Allocated g3 a) where
  pub link_new-gc_free :
      Returns
        (λ (p, g2).
          (p ≡ some a)
          × Returns (λ g4. (n : ℕ) × (g4 ≡ free_object a (count_freed n g3))) (gc_free a g2))
        (link_new size false a h)
  unfolding link_new
  link_new-gc_free =
      let g2 = count_new size (set_head young_ones (some a) g1) in
      let (o, e) = still in
      rw link (
        returns {a = (some a, g2)} (
          refl,
          subst (Returns _) (sym (gc_free-new a size h g2 there g3 o unlink e))
              (returns (plus32 o.size header_size, refl)),
        ))

-- The memory after the object is freed, where nothing is behind it, and where `b` is.
module _ (size a : ℕ) (g h : Gc) (fresh : g.store a ≡ none)
    (same : (c : ℕ) → h.store c ≡ g.store c) where
  alone : Gc
  alone = put_object a (some (new_object size false h)) h

  store-alone : (c : ℕ) → (free_object a alone).store c ≡ g.store c
  unfolding alone
  store-alone c = pick (c == a) refl
    where
      pick :
          (t : Bool)
          → (c == a) ≡ t
          → (if t then none else if t then some (new_object size false h) else h.store c)
            ≡ g.store c
      pick true e = sym (ap g.store ((==_iff c a).0 e) ∙ fresh)
      pick false e = same c

  module _ (b : ℕ) (o : Object) (there : g.store b ≡ some o) (first : o.prev ≡ none) where
    apart : b ≢ a
    apart e = let x : some o ≡ none = sym there ∙ ap g.store e ∙ fresh in cc

    behind : Gc
    behind = put_object b (some (set_prev (some a) o)) alone

    behind_again : Gc
    behind_again = put_object b (some (set_prev none o)) behind

    store-behind : (c : ℕ) → (free_object a behind_again).store c ≡ g.store c
    unfolding alone behind behind_again
    store-behind c = pick (c == a) (c == b) refl refl
      where
        pick :
            (t u : Bool)
            → (c == a) ≡ t
            → (c == b) ≡ u
            → (if t
                then none
                else if u
                then some (set_prev none o)
                else if u
                then some (set_prev (some a) o)
                else if t
                then some (new_object size false h)
                else h.store c)
              ≡ g.store c
        pick true u e e' = sym (ap g.store ((==_iff c a).0 e) ∙ fresh)
        pick false true e e' =
            sym (ap g.store ((==_iff c b).0 e') ∙ there ∙ ap (λ p. some (set_prev p o)) first)
        pick false false e e' = same c

-- An object that is allocated and freed at once leaves no trace in the lists and in memory: with memory
-- at an address that is not in use, fewer objects than the maximum, and a young list whose first
-- object, if there is one, is in memory with no predecessor, the allocation gives the address, and
-- freeing it gives back each object, the lists and their count as before.
pub gc_free-gc_alloc :
    (fuel size a : ℕ) (ps : List (Option ℕ)) (g : Gc)
    → 1 ≤ size
    → g.mallocs ≡ some a ∷ ps
    → g.store a ≡ none
    → g.num_objects < g.max_objects
    → g.max_objects < size_mod
    → ((b : ℕ) → g.young_list ≡ some b → (o : Object) × (g.store b ≡ some o) × (o.prev ≡ none))
    → Returns
        (λ (p, g1). (p ≡ some a) × Returns (SameObjects g) (gc_free a g1))
        (gc_alloc fuel size g)
unfolding alone behind behind_again
gc_free-gc_alloc fuel size a ps g pos given fresh few bound first =
    subst (Returns _) (sym (gc_alloc-some fuel size a ps g pos given few)) (cases g.young_list refl)
  where
    h : Gc
    h = record g { mallocs = ps }

    count : minus32 (plus32 g.num_objects 1) 1 ≡ g.num_objects
    count = minus32-plus32 g.num_objects g.max_objects few bound

    same_objects :
        (g3 g4 : Gc) (n : ℕ)
        → g4 ≡ free_object a (count_freed n g3)
        → ((c : ℕ) → (free_object a g3).store c ≡ g.store c)
        → g3.young_list ≡ g.young_list
        → g3.old_list ≡ g.old_list
        → g3.root_list ≡ g.root_list
        → minus32 g3.num_objects 1 ≡ g.num_objects
        → SameObjects g g4
    same_objects g3 g4 n e store young olds roots number = record {
      store = λ c. ap (λ (k : Gc). k.store c) e ∙ store c;
      young = ap (λ (k : Gc). k.young_list) e ∙ young;
      olds = ap (λ (k : Gc). k.old_list) e ∙ olds;
      roots = ap (λ (k : Gc). k.root_list) e ∙ roots;
      count = ap (λ (k : Gc). k.num_objects) e ∙ number;
    }

    cases :
        (p : Option ℕ)
        → g.young_list ≡ p
        → Returns
            (λ (q, g2). (q ≡ some a) × Returns (SameObjects g) (gc_free a g2))
            (link_new size false a h)
    cases none e =
        let g1 = alone size a g h fresh (λ c. refl) in
        let g3 =
          set_head young_ones h.young_list (count_new size (set_head young_ones (some a) g1)) in
        let there = store-put_object a (some (new_object size false h)) h in
        Returns-map
          (λ (p, g2) (q, r). (
            q,
            Returns-map
                (λ g4 (n, s).
                  same_objects g3 g4 n s (store-alone size a g h fresh (λ c. refl)) refl refl refl
                    count)
                r,
          ))
          (link_new-gc_free size a h g1 g3 (ap (λ p. update_if p (set_prev (some a)) g1) e)
            (ap (λ p. update_if p (set_prev none) g3) e) there (new_object size false h, there))
    cases (some b) e =
        let (o, there, no_prev) = first b e in
        let ne = apart size a g h fresh (λ c. refl) b o there no_prev in
        let g0 = alone size a g h fresh (λ c. refl) in
        let new = new_object size false h in
        let g1 = behind size a g h fresh (λ c. refl) b o there no_prev in
        let g2 =
          set_head young_ones h.young_list (count_new size (set_head young_ones (some a) g1)) in
        let g3 = put_object b (some (set_prev none o)) g2 in
        let at : g0.store a ≡ some new = store-put_object a (some new) h in
        let at1 : g1.store a ≡ some new =
          store-put_object_ne b (some (set_prev (some a) o)) g0 a (λ q. ne (sym q)) ∙ at in
        let at3 : g3.store a ≡ some new =
          store-put_object_ne b (some (set_prev none o)) g2 a (λ q. ne (sym q)) ∙ at1 in
        Returns-map
          (λ (p, g5) (q, r). (
            q,
            Returns-map
                (λ g4 (n, s).
                  same_objects g3 g4 n s
                    (store-behind size a g h fresh (λ c. refl) b o there no_prev) refl refl refl
                    count)
                r,
          ))
          (link_new-gc_free size a h g1 g3
            (ap (λ p. update_if p (set_prev (some a)) g0) e
              ∙ update-some b o g0 (store-put_object_ne a (some new) h b ne ∙ there)
                  (set_prev (some a)))
            (ap (λ p. update_if p (set_prev none) g2) e
              ∙ update-some b (set_prev (some a) o) g2
                  (store-put_object b (some (set_prev (some a) o)) g0) (set_prev none))
            at1 (new, at3))
