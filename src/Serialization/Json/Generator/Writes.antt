-- ===== src/Serialization/Json/Generator/Writes.antt =====
-- What the writing functions of the generator add to the buffer, where there is room.
use micro_posix.Prelude.{
  ℕ, zero, suc, refl, sym, ap, subst, inl, inr, true, false, List, [], append-nil, append_assoc,
  arith, ltb, leb, size_mod, length, length-append, ◌+◌, ◌*◌, ◌%◌, ◌^◌, ◌≤◌, ◌<◌, ◌≡◌, ◌∙◌, ◌⊎◌,
  ◌∷◌, ◌++◌,
}
use micro_posix.Prelude.Bits.{two_pow-suc}
use micro_posix.Run.{Returns-bind, Returns-map, Returns-if, Returns, ret, returns, ◌>>=◌}
use micro_posix.Serialization.Json.Generator.{
  Written, double, resize, first_capacity, ensure_capacity, put, write_char, write_string,
  Generator,
}
use native.Mathlib.Nat.{mul_assoc, mod-eq_of_lt}

-- There is room for `n` bytes more: in the buffer, or because it grows and memory is always given. What
-- is written stays below 2 ^ 30 bytes.
pub record Room (n : ℕ) (g : Generator) : Type 0 where
  pub small : length g.bytes + n < 2 ^ 30
  pub answers : g.answers ≡ []
  pub buffer : (length g.bytes + n < g.capacity) ⊎ (g.has_realloc ≡ true)

-- `g'` is `g` with `t` written, at the level `i` of indentation, and has room for `n` bytes more.
pub record After (t : List ℕ) (i n : ℕ) (g g' : Generator) : Type 0 where
  pub bytes : g'.bytes ≡ g.bytes ++ t
  pub pretty : g'.pretty_print ≡ g.pretty_print
  pub level : g'.indent_level ≡ i
  pub room : Room n g'

-- The run writes `t`, whatever more there is room for, and goes on at the level `i`.
abbrev pub Writes : List ℕ → ℕ → Generator → Written → Type 0
Writes t i g r = (n : ℕ) → Room (length t + n) g → Returns (After t i n g) r

pub Writes-ret : (g : Generator) → Writes [] g.indent_level g (ret g)
Writes-ret g n h = returns {a = g} (record {
  bytes = sym (append-nil g.bytes);
  pretty = refl;
  level = refl;
  room = subst (λ k. Room k g) (omega arith) h;
})

pub Writes-bind :
    (t u : List ℕ) (i j : ℕ) (g : Generator) (m : Written) (f : Generator → Written)
    → Writes t i g m
    → ((g' : Generator)
        → g'.pretty_print ≡ g.pretty_print
        → g'.indent_level ≡ i
        → Writes u j g' (f g'))
    → Writes (t ++ u) j g (m >>= f)
Writes-bind t u i j g m f h k n room =
    Returns-bind (h (length u + n) (subst (λ s. Room s g) (omega (arith, length-append t u)) room))
      (λ g' a.
        Returns-map
          (λ g'' b. record {
            bytes = b.bytes ∙ ap (λ l. l ++ u) a.bytes ∙ append_assoc g.bytes t u;
            pretty = b.pretty ∙ a.pretty;
            level = b.level;
            room = b.room;
          })
          (k g' a.pretty a.level n a.room))

mul_double : (x r : ℕ) → x * 2 ^ suc r ≡ x * 2 * 2 ^ r
mul_double x r = ap (λ (t : ℕ). x * t) (two_pow-suc r) ∙ sym (mul_assoc x 2 (2 ^ r))

-- The doubling of the capacity ends above what is needed.
double-Returns :
    (rounds needed x : ℕ)
    → needed < x * 2 ^ rounds
    → needed < 2 ^ 30
    → Returns (λ y. needed < y) (double (suc rounds) needed x)
unfolding double
double-Returns zero needed x h small =
    Returns-if (leb x needed) (λ e. absurd (ground arith)) (λ e. returns (ground arith))
double-Returns (suc rounds) needed x h small =
    Returns-if (leb x needed)
      (λ e.
        subst (λ y. Returns (λ z. needed < z) (double (suc rounds) needed y)) (ground arith)
          (double-Returns rounds needed (x * 2) (subst (λ y. needed < y) (mul_double x rounds) h)
            small))
      (λ e. returns (ground arith))

-- The buffer has room for `needed` bytes, and nothing else is changed.
record Enough (needed n : ℕ) (g g' : Generator) : Type 0 where
  bytes : g'.bytes ≡ g.bytes
  pretty : g'.pretty_print ≡ g.pretty_print
  level : g'.indent_level ≡ g.indent_level
  fits : length g.bytes + needed < g'.capacity
  room : Room n g'

resize-Enough :
    (needed n capacity : ℕ) (g : Generator)
    → Room n g
    → g.has_realloc ≡ true
    → length g.bytes + needed < capacity
    → Enough needed n g (resize capacity g)
unfolding resize
resize-Enough needed n capacity g h e l =
    rw (e, h.answers)
      (record {
        bytes = refl;
        pretty = refl;
        level = refl;
        fits = l;
        room = record { small = h.small; answers = refl; buffer = inr refl };
      })

total_small : (a b n : ℕ) → b ≤ n → a + n < 2 ^ 30 → (a + b) % size_mod ≡ a + b
total_small a b n le h = mod-eq_of_lt (omega arith)

first_capacity-pos : (capacity : ℕ) → capacity < 2 ^ 30 → 1 ≤ first_capacity capacity
unfolding first_capacity
first_capacity-pos capacity h =
    ground (arith, mod-eq_of_lt {n = capacity * 2} {m = size_mod} (omega arith))

growing :
    (total bound : ℕ) (g : Generator)
    → total ≤ bound
    → (bound < g.capacity) ⊎ (g.has_realloc ≡ true)
    → ltb total g.capacity ≡ false
    → g.has_realloc ≡ true
growing total bound g le (inl h) e = absurd (ground arith)
growing total bound g le (inr h) e = h

ensure_capacity-Enough :
    (needed n : ℕ) (g : Generator)
    → Room n g
    → needed ≤ n
    → Returns (Enough needed n g) (ensure_capacity needed g)
unfolding ensure_capacity
ensure_capacity-Enough needed n g h le =
    let total = total_small (length g.bytes) needed n le h.small in
    let small = h.small in
    rw total (
      Returns-if (ltb (length g.bytes + needed) g.capacity)
        (λ e.
          returns {a = g}
            (record { bytes = refl; pretty = refl; level = refl; fits = ground arith; room = h }))
        (λ e.
          let grows =
            growing (length g.bytes + needed) (length g.bytes + n) g (omega arith) h.buffer e in
          let pos = first_capacity-pos g.capacity (ground arith) in
          Returns-bind
            (double-Returns 32 (length g.bytes + needed) (first_capacity g.capacity) (omega arith)
              (omega arith))
            (λ y l. returns {a = resize y g} (resize-Enough needed n y g h grows l))))

put-After :
    (t : List ℕ) (n : ℕ) (g g1 : Generator)
    → Enough (length t) (length t + n) g g1
    → Returns (After t g.indent_level n g) (put t g1)
unfolding put
put-After t n g g1 h =
    let same : length g1.bytes ≡ length g.bytes = ap length h.bytes in
    let small = h.room.small in
    Returns-if (ltb (length g1.bytes + length t) g1.capacity)
      (λ e. returns {a = record g1 { bytes = g1.bytes ++ t }} (record {
        bytes = ap (λ l. l ++ t) h.bytes;
        pretty = h.pretty;
        level = h.level;
        room = record {
          small = omega (arith, length-append g1.bytes t);
          answers = h.room.answers;
          buffer = moved h.room.buffer;
        };
      }))
      (λ e. absurd (ground (arith, same, h.fits)))
  where
    moved :
        (length g1.bytes + (length t + n) < g1.capacity) ⊎ (g1.has_realloc ≡ true)
        → (length (g1.bytes ++ t) + n < g1.capacity) ⊎ (g1.has_realloc ≡ true)
    moved (inl l) = inl (omega (arith, length-append g1.bytes t))
    moved (inr e) = inr e

pub write_string-Writes :
    (t : List ℕ) (g : Generator) → Writes t g.indent_level g (write_string t g)
unfolding write_string
write_string-Writes t g n h =
    Returns-bind (ensure_capacity-Enough (length t) (length t + n) g h (omega arith)) (λ g1 a.
      let same : length g1.bytes ≡ length g.bytes = ap length a.bytes in
      let total =
        total_small (length g1.bytes) (length t) (length t + n) (omega arith) a.room.small in
      Returns-if (ltb ((length g1.bytes + length t) % size_mod) g1.capacity)
        (λ e. put-After t n g g1 a) (λ e. absurd (ground (arith, same, a.fits, total))))

pub write_char-Writes : (c : ℕ) (g : Generator) → Writes (c ∷ []) g.indent_level g (write_char c g)
unfolding write_char
write_char-Writes c g n h =
    Returns-bind (ensure_capacity-Enough 1 (1 + n) g h (omega arith)) (λ g1 a.
      let same : length g1.bytes ≡ length g.bytes = ap length a.bytes in
      Returns-if (ltb (length g1.bytes) g1.capacity) (λ e. put-After (c ∷ []) n g g1 a)
        (λ e. absurd (ground (arith, same, a.fits))))
