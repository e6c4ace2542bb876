-- ===== src/Serialization/Json/Generator/Says.antt =====
-- What each of the generator's functions that write says, from one level of indentation to another.
use micro_posix.Prelude.{
  ℕ, zero, suc, sym, subst, Bool, true, false, List, [], ltb, ◌≡◌, ◌∙◌, ◌∷◌, ◌++◌, ◌==◌,
  if◌then◌else◌,
}
use micro_posix.Run.{ret, ◌>>=◌}
use micro_posix.Serialization.Json.Generator.{
  Written, write_char, write_string, write_spaces, write_indent, write_newline, write_escaped,
  write_all_escaped, write_escaped_string, write_separator, write_colon, Generator,
}
use micro_posix.Serialization.Json.Generator.Text.{
  newline, blanks, indentation, escape, escape_all, quoted, separator, colon,
}
use micro_posix.Serialization.Json.Generator.Writes.{
  Writes, Writes-ret, Writes-bind, write_string-Writes, write_char-Writes,
}

-- From the level `i` of indentation on, the function writes `t` and leaves the level at `j`.
pub record Says (pretty : Bool) (i : ℕ) (t : List ℕ) (j : ℕ) (f : Generator → Written)
    : Type 0 where
  pub run : (g : Generator) → g.pretty_print ≡ pretty → g.indent_level ≡ i → Writes t j g (f g)

module _ (pretty : Bool) where
  pub Says-bind :
      {i j k : ℕ} (t u : List ℕ) (f h : Generator → Written)
      → Says pretty i t j f
      → Says pretty j u k h
      → Says pretty i (t ++ u) k (λ g. f g >>= λ g'. h g')
  Says-bind {i} {j} {k} t u f h a b = record {
    run = λ g p l. Writes-bind t u j k g (f g) h (a.run g p l) (λ g' p' l'. b.run g' (p' ∙ p) l');
  }

  pub Says-nothing : (i : ℕ) → Says pretty i [] i (λ g. ret g)
  Says-nothing i = record { run = λ g p l. subst (λ j. Writes [] j g (ret g)) l (Writes-ret g) }

  pub write_char-Says : (c i : ℕ) → Says pretty i (c ∷ []) i (write_char c)
  write_char-Says c i = record {
    run = λ g p l. subst (λ j. Writes (c ∷ []) j g (write_char c g)) l (write_char-Writes c g);
  }

  pub write_string-Says : (t : List ℕ) (i : ℕ) → Says pretty i t i (write_string t)
  write_string-Says t i = record {
    run = λ g p l. subst (λ j. Writes t j g (write_string t g)) l (write_string-Writes t g);
  }

  pub Says-if :
      (b : Bool) {i j : ℕ} {t u : List ℕ} {f h : Generator → Written}
      → Says pretty i t j f
      → Says pretty i u j h
      → Says pretty i (if b then t else u) j (λ g. if b then f g else h g)
  Says-if true a b = a
  Says-if false a b = b

  -- What depends on whether printing is pretty.
  pub Says-pretty :
      {i j : ℕ} {t u : List ℕ} {f h : Generator → Written}
      → Says pretty i t j f
      → Says pretty i u j h
      → Says pretty i (if pretty then t else u) j (λ g. if g.pretty_print then f g else h g)
  Says-pretty {i} {j} {t} {u} {f} {h} a b = record {
    run = λ g p l.
        let both = Says-if pretty {f = f} {h = h} a b in
        subst (λ c. Writes (if pretty then t else u) j g (if c then f g else h g)) (sym p)
          (both.run g p l);
  }

  pub write_newline-Says : (i : ℕ) → Says pretty i (newline pretty) i write_newline
  unfolding write_newline
  write_newline-Says i = Says-pretty (write_char-Says 10 i) (Says-nothing i)

  pub write_spaces-Says : (level i : ℕ) → Says pretty i (blanks level) i (write_spaces level)
  unfolding write_spaces
  write_spaces-Says zero i = Says-nothing i
  write_spaces-Says (suc level) i =
      Says-bind (b' ' ∷ b' ' ∷ []) (blanks level) _ _ (write_string-Says (b' ' ∷ b' ' ∷ []) i)
        (write_spaces-Says level i)

  pub write_indent-Says : (i : ℕ) → Says pretty i (indentation pretty i) i write_indent
  unfolding write_indent
  write_indent-Says i =
      Says-pretty
        (record {
          run = λ g p l.
              let w = write_spaces-Says i i in
              subst (λ j. Writes (blanks i) i g (write_spaces j g)) (sym l) (w.run g p l);
        })
        (Says-nothing i)

  pub write_escaped-Says : (c i : ℕ) → Says pretty i (escape c) i (write_escaped c)
  unfolding write_escaped
  write_escaped-Says c i = Says-if (c == 0x22) (write_string-Says _ i) (
      Says-if (c == 0x5C) (write_string-Says _ i) (
        Says-if (c == 8) (write_string-Says _ i) (
          Says-if (c == 12) (write_string-Says _ i) (
            Says-if (c == 10) (write_string-Says _ i) (
              Says-if (c == 13) (write_string-Says _ i) (
                Says-if (c == 9) (write_string-Says _ i)
                  (Says-if (ltb c 32) (write_string-Says _ i) (write_char-Says c i))))))))

  pub write_all_escaped-Says :
      (s : List ℕ) (i : ℕ) → Says pretty i (escape_all s) i (write_all_escaped s)
  unfolding write_all_escaped
  write_all_escaped-Says [] i = Says-nothing i
  write_all_escaped-Says (c ∷ cs) i =
      Says-bind (escape c) (escape_all cs) _ _ (write_escaped-Says c i)
        (write_all_escaped-Says cs i)

  pub write_escaped_string-Says :
      (s : List ℕ) (i : ℕ) → Says pretty i (quoted s) i (write_escaped_string s)
  unfolding write_escaped_string
  write_escaped_string-Says s i =
      Says-bind (0x22 ∷ []) (escape_all s ++ 0x22 ∷ []) _ _ (write_char-Says 0x22 i) (
        Says-bind (escape_all s) (0x22 ∷ []) _ _ (write_all_escaped-Says s i)
          (write_char-Says 0x22 i))

  pub write_separator-Says :
      (first : Bool) (i : ℕ) → Says pretty i (separator pretty i first) i (write_separator first)
  unfolding write_separator
  write_separator-Says first i =
      Says-bind _ (indentation pretty i)
        (λ g. if first then ret g else write_char b',' g >>= λ g1. write_newline g1) _
        (Says-if first (Says-nothing i) (
          Says-bind (b',' ∷ []) (newline pretty) _ _ (write_char-Says b',' i)
            (write_newline-Says i)))
        (write_indent-Says i)

  pub write_colon-Says : (i : ℕ) → Says pretty i (colon pretty) i write_colon
  unfolding write_colon
  write_colon-Says i =
      Says-bind (b':' ∷ []) _ _ _ (write_char-Says b':' i)
        (Says-pretty (write_char-Says b' ' i) (Says-nothing i))
