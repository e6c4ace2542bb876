-- ===== src/Mm/Tlsf/Again.antt =====
-- A block that is given out can be given out again.
use micro_posix.Prelude.{
  ℕ, suc, refl, ap, false, none, some, arith, ltb, le→leb, ltb-false, size_mod, ok, ◌+◌, ◌-◌, ◌*◌,
  ◌%◌, ◌≤◌, ◌<◌, ◌≡◌, ◌∙◌,
}
use micro_posix.Prelude.Chain.{walk_stop, stop}
use micro_posix.Mm.Tlsf.{
  header_size, magic_number, set_header, next, init, split, fit_round, alloc, Tlsf,
}

fit_first :
    (t : Tlsf) (at size : ℕ)
    → size + header_size < size_mod
    → size + header_size ≤ (t.header at).size
    → fit_round size (none, t) at ≡ stop (some ((at + header_size) % size_mod), split t at size)
unfolding fit_round
fit_first t at size lt le =
    let small : (size + header_size) % size_mod ≡ size + header_size = omega arith in
    rw (small, le→leb (size + header_size) (t.header at).size le)

-- The first block, if it is large enough, is split.
alloc_first :
    (fuel : ℕ) (t : Tlsf) (size : ℕ)
    → size + header_size < size_mod
    → size + header_size ≤ (t.header t.pool).size
    → alloc (suc fuel) t size ≡ some (some ((t.pool + header_size) % size_mod), split t t.pool size)
unfolding alloc
alloc_first fuel t size lt le =
    walk_stop fuel (λ (found, t'). next t') (fit_round size) t.pool (none, t) _
      (fit_first t t.pool size lt le)

split-size :
    (t : Tlsf) (at size : ℕ)
    → (((split t at size).header at).size ≡ size) × ((split t at size).pool ≡ t.pool)
unfolding split
split-size t at size = ground arith

-- On a pool of `size` bytes just initialised, inside the address space, an allocation of `n` bytes
-- that leaves room for two headers, and then one of `m` bytes that fit into the `n` together with
-- another header, give the same address.
pub alloc_again :
    (fuel : ℕ) (t : Tlsf) (pool size n m : ℕ)
    → pool + size < size_mod
    → n + 2 * header_size ≤ size
    → m + header_size ≤ n
    → (t0 : Tlsf) × (t1 : Tlsf) × (t2 : Tlsf) × (init (some t) (some pool) size ≡ (ok, some t0))
      × (alloc (suc fuel) t0 n ≡ some (some (pool + header_size), t1))
      × (alloc (suc fuel) t1 m ≡ some (some (pool + header_size), t2))
unfolding init
alloc_again fuel t pool size n m end fits smaller =
    let t0 : Tlsf =
      set_header (record t { pool = pool; size = size }) pool
        (record { size = size - header_size; link = none; magic = magic_number }) in
    let room : ltb size header_size ≡ false = ltb-false size header_size (omega arith) in
    let here : (t0.header pool).size ≡ size - header_size = ground arith in
    let same : (pool + header_size) % size_mod ≡ pool + header_size = omega arith in
    let (kept, place) = split-size t0 pool n in
    let t1 = split t0 pool n in
    (
      t0,
      t1,
      split t1 pool m,
      rw room refl,
      alloc_first fuel t0 n (omega arith) (omega (arith, here)) ∙ ap (λ p. some (some p, t1)) same,
      alloc_first fuel t1 m (omega arith) (omega (arith, kept, ap (λ p. (t1.header p).size) place))
          ∙ ap (λ p. some (some ((p + header_size) % size_mod), split t1 p m)) place
          ∙ ap (λ p. some (some p, split t1 pool m)) same,
    )
