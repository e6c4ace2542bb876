-- ===== src/Mm/Gc/Roots.antt =====
-- The list of roots of src/mm/gc.c.
use micro_posix.Prelude.{
  ℕ, refl, sym, ap, subst, Bool, true, false, Option, none, some, List, ==_iff, ◌≡◌, ◌∙◌, ◌≢◌, ◌∷◌,
  ◌==◌, if◌then◌else◌,
}
use micro_posix.Prelude.Chain.{IsChain, has, IsChain-frame}
use micro_posix.Run.{Returns-bind, Returns, ret, returns}
use micro_posix.Mm.Gc.{put_object, update, update_if, set_prev, Object, Gc}
use micro_posix.Mm.Gc.Memory.{store-put_object, store-put_object_ne, update-some, when_owned-mine}
use micro_posix.Mm.Gc.Objects.{add_root}

-- The successor that an object has in memory.
abbrev pub successor : Option Object → Option ℕ
successor none = none
successor (some o) = o.next

abbrev pub next_of : Gc → ℕ → Option ℕ
next_of g a = successor (g.store a)

abbrev pub Allocated : Gc → ℕ → Type 0
Allocated g a = (o : Object) × (g.store a ≡ some o)

abbrev pub AllocatedIf : Gc → Option ℕ → Type 0
AllocatedIf g none = Unit {0}
AllocatedIf g (some a) = Allocated g a

-- The successors and the heads of the lists are the same.
record SameNext (g g' : Gc) : Type 0 where
  next : (b : ℕ) → next_of g' b ≡ next_of g b
  young : g'.young_list ≡ g.young_list
  roots : g'.root_list ≡ g.root_list
  allocated : (b : ℕ) → Allocated g b → Allocated g' b

put_object-SameNext :
    (a : ℕ) (o o' : Object) (g : Gc)
    → g.store a ≡ some o
    → o'.next ≡ o.next
    → SameNext g (put_object a (some o') g)
put_object-SameNext a o o' g there same = record {
  next = λ b. pick b (b == a) refl;
  young = refl;
  roots = refl;
  allocated = λ b. held b (b == a);
}
  where
    pick :
        (b : ℕ) (c : Bool)
        → (b == a) ≡ c
        → successor (if c then some o' else g.store b) ≡ successor (g.store b)
    pick b true e =
        let q : b ≡ a = (==_iff b a).0 e in same ∙ ap successor (sym there ∙ ap g.store (sym q))
    pick b false e = refl

    held :
        (b : ℕ) (c : Bool)
        → Allocated g b
        → (p : Object) × ((if c then some o' else g.store b) ≡ some p)
    held b true h = (o', refl)
    held b false h = h

update-SameNext :
    (a : ℕ) (q : Option ℕ) (g : Gc) → Allocated g a → Returns (SameNext g) (update a (set_prev q) g)
update-SameNext a q g (o, there) =
    rw (update-some a o g there (set_prev q))
      (returns (put_object-SameNext a o (set_prev q o) g there refl))

update_if-SameNext :
    (p q : Option ℕ) (g : Gc) → AllocatedIf g p → Returns (SameNext g) (update_if p (set_prev q) g)
update_if-SameNext none q g h =
    returns record { next = λ b. refl; young = refl; roots = refl; allocated = λ b h. h }
update_if-SameNext (some a) q g h = update-SameNext a q g h

-- `add_root` puts the object in front of the roots by the field that links the young objects: where
-- the object is the first of the young list, of this collector and not a root yet, the call returns 0
-- with the object in front of the roots, and the young list that it leaves is the list of roots, in
-- place of the other young objects.
pub add_root-young_list :
    (g : Gc) (a : ℕ) (o : Object) (xs rs : List ℕ)
    → g.store a ≡ some o
    → o.owned ≡ true
    → IsChain (next_of g) g.young_list (a ∷ xs)
    → IsChain (next_of g) g.root_list rs
    → has a rs ≡ false
    → AllocatedIf g g.root_list
    → Returns
        (λ (result, g').
          (result ≡ true)
          × IsChain (next_of g') g'.root_list (a ∷ rs)
          × IsChain (next_of g') g'.young_list (a ∷ rs))
        (add_root a g)
unfolding add_root
add_root-young_list g a o xs rs there mine (first, young) roots fresh held =
    subst (Returns _) (sym (when_owned-mine a o g there (λ g1. ret (false, g1)) _ mine)) (
      Returns-bind (update_if-SameNext g.root_list (some a) g1 (kept g.root_list held)) (λ g2 s.
        Returns-bind
          (update-SameNext a none (record g2 { root_list = some a }) (s.allocated a (o1, same)))
          (λ g3 t.
            returns {a = (true, g3)}
              (refl, (t.roots, chain g2 g3 s t), (t.young ∙ s.young ∙ first, chain g2 g3 s t)))))
  where
    o1 : Object
    o1 = record o { root = true; next = g.root_list }

    g1 : Gc
    g1 = put_object a (some o1) g

    same : g1.store a ≡ some o1
    same = store-put_object a (some o1) g

    kept : (p : Option ℕ) → AllocatedIf g p → AllocatedIf g1 p
    kept none h = h
    kept (some r) h = pick (r == a) h
      where
        pick :
            (c : Bool)
            → Allocated g r
            → (q : Object) × ((if c then some o1 else g.store r) ≡ some q)
        pick true k = (o1, refl)
        pick false k = k

    outside : (b : ℕ) → has b rs ≡ true → b ≢ a
    outside b i e = let j : has a rs ≡ true = subst (λ c. has c rs ≡ true) e i in cc

    chain :
        (g2 g3 : Gc)
        → SameNext g1 g2
        → SameNext (record g2 { root_list = some a }) g3
        → IsChain (next_of g3) (next_of g3 a) rs
    chain g2 g3 s t =
        subst (λ p. IsChain (next_of g3) p rs) (sym (t.next a ∙ s.next a ∙ ap successor same))
          (IsChain-frame (next_of g) (next_of g3) g.root_list rs
            (λ b i.
              t.next b
              ∙ s.next b
              ∙ ap successor (store-put_object_ne a (some o1) g b (λ e. outside b i e)))
            roots)
