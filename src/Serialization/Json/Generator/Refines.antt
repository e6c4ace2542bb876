-- ===== src/Serialization/Json/Generator/Refines.antt =====
-- The generator writes the text of the value.
use micro_posix.Prelude.{
  ℕ, refl, sym, subst, inl, inr, Bool, true, false, List, [], append-nil, arith, length, ◌+◌, ◌-◌,
  ◌^◌, ◌<◌, ◌≡◌, ◌⊎◌, ◌∷◌, ◌++◌, if◌then◌else◌,
}
use micro_posix.Run.{Returns-map, Returns, ret, returns}
use micro_posix.Serialization.Json.Value.{
  is_string, Libc, Items, Fields, Json, null, boolean, number, string, object, array, error,
  no_items, item, no_fields, field,
}
use micro_posix.Serialization.Json.Generator.{
  Written, write_indent, write_opening, write_closing, write_between, number_text, null_text,
  boolean_text, generate_value, generate_elements, generate_key, generate_members, generate,
  Generator,
}
use micro_posix.Serialization.Json.Generator.Text.{
  newline, indentation, between, separator, colon, deeper, value_text, elements_text, members_text,
  key_of, StringKeys, ElementKeys, MemberKeys,
}
use micro_posix.Serialization.Json.Generator.Writes.{Writes, Room}
use micro_posix.Serialization.Json.Generator.Says.{
  Says-bind, Says-nothing, write_char-Says, write_string-Says, write_newline-Says,
  write_indent-Says, write_escaped_string-Says, write_separator-Says, write_colon-Says, Says,
}

-- What only changes the level of indentation writes nothing.
at_level : ℕ → Generator → Generator
at_level level g = record g { indent_level = level }

Room-at_level : (level n : ℕ) (g : Generator) → Room n g → Room n (at_level level g)
unfolding at_level
Room-at_level level n g h = record { small = h.small; answers = h.answers; buffer = h.buffer }

module _ (pretty : Bool) where
  write_opening-Says :
      (c i : ℕ) → Says pretty i (c ∷ newline pretty ++ []) (deeper pretty i) (write_opening c)
  unfolding write_opening at_level
  write_opening-Says c i =
      Says-bind pretty (c ∷ []) (newline pretty ++ []) _ _ (write_char-Says pretty c i) (
        Says-bind pretty (newline pretty) [] _ _ (write_newline-Says pretty i)
          (record { run = raise }))
    where
      raise :
          (g : Generator)
          → g.pretty_print ≡ pretty
          → g.indent_level ≡ i
          → Writes [] (deeper pretty i) g (
              ret (record g {
                indent_level = if g.pretty_print then g.indent_level + 1 else g.indent_level;
              }))
      raise g p l n h =
          let level = if g.pretty_print then g.indent_level + 1 else g.indent_level in
          returns {a = at_level level g} (record {
            bytes = sym (append-nil g.bytes);
            pretty = refl;
            level = rw (p, l) refl;
            room = Room-at_level level n g (subst (λ k. Room k g) (omega arith) h);
          })

  write_closing-Says :
      (c i : ℕ)
      → Says pretty
          (deeper pretty i)
          (newline pretty ++ (indentation pretty i ++ (c ∷ [])))
          i
          (write_closing c)
  unfolding write_closing at_level
  write_closing-Says c i =
      Says-bind pretty (newline pretty) (indentation pretty i ++ c ∷ []) _ _
        (write_newline-Says pretty (deeper pretty i))
        (Says-bind pretty (indentation pretty i) (c ∷ [])
          (λ g. write_indent (at_level (lowered g) g)) _ (record { run = lower })
          (write_char-Says pretty c i))
    where
      lowered : Generator → ℕ
      lowered g = if g.pretty_print then g.indent_level - 1 else g.indent_level

      back : (b : Bool) → (if b then deeper b i - 1 else deeper b i) ≡ i
      back true = omega arith
      back false = refl

      lower :
          (g : Generator)
          → g.pretty_print ≡ pretty
          → g.indent_level ≡ deeper pretty i
          → Writes (indentation pretty i) i g (write_indent (at_level (lowered g) g))
      lower g p l n h =
          let w = write_indent-Says pretty i in
          Returns-map
            (λ g' a. record { bytes = a.bytes; pretty = a.pretty; level = a.level; room = a.room })
            (w.run (at_level (lowered g) g) p (rw (p, l) (back pretty)) n
              (Room-at_level (lowered g) _ g h))

  write_between-Says :
      (start end i : ℕ) (members : List ℕ) (f : Generator → Written)
      → Says pretty (deeper pretty i) members (deeper pretty i) f
      → Says pretty i (between pretty i start end members) i (write_between start end f)
  unfolding write_between
  write_between-Says start end i members f h =
      Says-bind pretty (start ∷ newline pretty) _ _ _
        (subst (λ t. Says pretty i (start ∷ t) (deeper pretty i) (write_opening start))
          (append-nil (newline pretty)) (write_opening-Says start i))
        (Says-bind pretty members _ f _ h (write_closing-Says end i))

module _ (libc : Libc) (pretty : Bool) where
  key-Says :
      (key : Json) (i : ℕ)
      → is_string key ≡ true
      → Says pretty i (key_of key) i (generate_key libc key)
  unfolding value_text generate_value
  key-Says (string s) i h = write_escaped_string-Says pretty s i
  key-Says null i h = cc
  key-Says (boolean b) i h = cc
  key-Says (number n) i h = cc
  key-Says (object capacity entries) i h = cc
  key-Says (array capacity items) i h = cc
  key-Says error i h = cc

  mutual
    unfolding value_text generate_value

    value-Says :
        (v : Json) (i : ℕ)
        → StringKeys v
        → Says pretty i (value_text libc pretty i v) i (generate_value libc v)
    value-Says null i h = write_string-Says pretty null_text i
    value-Says (boolean b) i h = write_string-Says pretty (boolean_text b) i
    value-Says (number n) i h = write_string-Says pretty (number_text libc n) i
    value-Says (string s) i h = write_escaped_string-Says pretty s i
    value-Says (object capacity entries) i h =
        write_between-Says pretty b'{' b'}' i _ _ (members-Says true entries (deeper pretty i) h)
    value-Says (array capacity items) i h =
        write_between-Says pretty b'[' b']' i _ _ (elements-Says true items (deeper pretty i) h)
    value-Says error i h = write_string-Says pretty null_text i

    elements-Says :
        (first : Bool) (items : Items) (i : ℕ)
        → ElementKeys items
        → Says pretty i
            (elements_text libc pretty i first items)
            i
            (generate_elements libc first items)
    elements-Says first no_items i h = Says-nothing pretty i
    elements-Says first (item v vs) i (h, hs) =
        Says-bind pretty (separator pretty i first) _ _ _ (write_separator-Says pretty first i) (
          Says-bind pretty (value_text libc pretty i v) _ _ _ (value-Says v i h)
            (elements-Says false vs i hs))

    members-Says :
        (first : Bool) (entries : Fields) (i : ℕ)
        → MemberKeys entries
        → Says pretty i
            (members_text libc pretty i first entries)
            i
            (generate_members libc first entries)
    members-Says first no_fields i h = Says-nothing pretty i
    members-Says first (field key v entries) i (k, h, hs) =
        Says-bind pretty (separator pretty i first) _ _ _ (write_separator-Says pretty first i) (
          Says-bind pretty (key_of key) _ _ _ (key-Says key i k) (
            Says-bind pretty (colon pretty) _ _ _ (write_colon-Says pretty i) (
              Says-bind pretty (value_text libc pretty i v) _ _ _ (value-Says v i h)
                (members-Says false entries i hs))))

-- `generate` refines the text of a value. Where every key is a string and the buffer has room for the
-- text and a NUL, or grows with memory always given, it ends without a write outside of the buffer, and
-- the buffer then holds the text of the value and nothing else; the texts are below 2 ^ 30 bytes.
pub generate-value_text :
    (libc : Libc) (v : Json) (g : Generator)
    → StringKeys v
    → length (value_text libc g.pretty_print g.indent_level v) < 2 ^ 30
    → g.answers ≡ []
    → (length (value_text libc g.pretty_print g.indent_level v) < g.capacity)
      ⊎ (g.has_realloc ≡ true)
    → Returns (λ g'. g'.bytes ≡ value_text libc g.pretty_print g.indent_level v) (generate libc v g)
unfolding generate
generate-value_text libc v g keys small answers fits =
    let says = value-Says libc g.pretty_print v g.indent_level keys in
    let t = value_text libc g.pretty_print g.indent_level v in
    Returns-map (λ g' a. a.bytes)
      (says.run (record g { bytes = [] }) refl refl 0
        (record { small = omega arith; answers = answers; buffer = same fits }))
  where
    same :
        (length (value_text libc g.pretty_print g.indent_level v) < g.capacity)
          ⊎ (g.has_realloc ≡ true)
        → (0 + (length (value_text libc g.pretty_print g.indent_level v) + 0) < g.capacity)
          ⊎ (g.has_realloc ≡ true)
    same (inl l) = inl (omega arith)
    same (inr e) = inr e
