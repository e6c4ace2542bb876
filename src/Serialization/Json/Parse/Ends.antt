-- ===== src/Serialization/Json/Parse/Ends.antt =====
-- The parser always ends.
use micro_posix.Prelude.{
  ℕ, zero, suc, refl, sym, subst, true, false, not, Option, none, some, List, [], arith, length,
  ◌+◌, ◌≤◌, ◌<◌, ◌≡◌, ◌||◌, ◌∷◌, ◌==◌, if◌then◌else◌,
}
use micro_posix.Run.{Returns-bind, Returns-map, Returns-if, Returns, ret, returns}
use micro_posix.Serialization.Json.Value.{Libc, Json, null, boolean, no_items, no_fields}
use micro_posix.Serialization.Json.Parser.{
  advance, fail, alloc, Parsed, failed_with, is_digit, span, is_number_byte, Parser, Flags,
  out_of_memory, expected_brace, expected_bracket, unexpected_end, unexpected_character,
  trailing_data,
}
use micro_posix.Serialization.Json.Parse.{
  parse_object, parse_array, null_word, true_word, false_word, dispatch, parse_value, finish,
  json_parse,
}
use micro_posix.Serialization.Json.Parse.Progress.{
  Moves-self, Moves-trans, Advanced, Parses, advance-Moves, length-advance, skip_blank-Returns,
  Moves,
}
use micro_posix.Serialization.Json.Parse.Total.{
  Moves-alloc, Moves-fail_at, Parses-none, Parses-after, parse_string-Parses, parse_word-Parses,
  parse_number-Parses,
}
use micro_posix.Serialization.Json.Parse.Rounds.{
  Goes, Goes-ret, Goes-after, Goes-with_value, array_rounds-Goes, object_rounds-Goes,
}

-- A loop that starts past the opening byte.
Parses-past :
    (p q : Parser)
    → Moves p q
    → length q.ahead < length p.ahead
    → (r : Parsed) → Goes q r
    → Parses p r
Parses-past p q m less r h = Returns-map (λ (out, t). stronger out t) h
  where
    stronger : (out : Option Json) (t : Parser) → Moves q t → Advanced p out t
    stronger none t g = Moves-trans p q t m g
    stronger (some v) t g = (Moves-trans p q t m g, omega (arith, less, g.ahead))

-- The opening byte of an array or an object.
module _ (brace : ℕ) (p p1 : Parser) (wrong loop : Parsed) (m : Moves p p1) (no : Parses p wrong)
    (yes : 1 ≤ length p1.ahead → Goes (advance 1 p1) loop) where
  opening-Parses :
      (l : List ℕ)
      → p1.ahead ≡ l
      → Parses p (elim l [ [] ↦ wrong | c ∷ cs ↦ if not (c == brace) then wrong else loop ])
  opening-Parses [] e = no
  opening-Parses (c ∷ cs) e =
      let some_left : 1 ≤ length p1.ahead = rw e (omega arith) in
      let on = advance-Moves 1 p1 some_left in
      Returns-if (not (c == brace)) (λ t. no)
        (λ t.
          Parses-past p (advance 1 p1) (Moves-trans p p1 _ m on)
            (omega (arith, m.ahead, length-advance 1 p1 some_left)) loop (yes some_left))

module _ (fuel : ℕ) (flags : Flags) (parse : Parser → Parsed) (p : Parser)
    (parses : (q : Parser) → length q.ahead < length p.ahead → Parses q (parse q))
    (enough : length p.ahead ≤ fuel) where
  parse_array-Parses : Parses p (parse_array fuel flags parse p)
  unfolding parse_array
  parse_array-Parses =
      let p1 = (alloc p).1 in
      let m = Moves-alloc p p (Moves-self p) in
      Returns-if (not (alloc p).0) (λ e. Parses-none p p1 m p1.position out_of_memory)
        (λ e.
          opening-Parses b'[' p p1 (failed_with (fail expected_bracket p1)) _ m
            (Parses-none p p1 m p1.position expected_bracket)
            (λ h.
              let l = length-advance 1 p1 h in
              array_rounds-Goes (length p.ahead) parse parses fuel flags 0 no_items (advance 1 p1)
                (omega (arith, l, m.ahead)) (omega (arith, l, m.ahead)))
            p1.ahead refl)

  parse_object-Parses : Parses p (parse_object fuel flags parse p)
  unfolding parse_object
  parse_object-Parses =
      let p1 = (alloc p).1 in
      let m = Moves-alloc p p (Moves-self p) in
      let wrong = fail expected_brace p1 in
      let w = Moves-fail_at p p1 m p1.position expected_brace in
      Returns-if (not (alloc p).0) (λ e. Parses-none p p1 m p1.position out_of_memory)
        (λ e.
          opening-Parses b'{' p p1 (failed_with (alloc wrong).1) _ m
            (returns {a = (none, (alloc wrong).1)} (Moves-alloc p wrong w))
            (λ h.
              let l = length-advance 1 p1 h in
              object_rounds-Goes (length p.ahead) parse parses fuel flags 0 no_fields (advance 1 p1)
                (omega (arith, l, m.ahead)) (omega (arith, l, m.ahead)))
            p1.ahead refl)

  number_byte :
      (c : ℕ) → (c == b'-' || c == b'+' || c == b'.' || is_digit c) ≡ true → is_number_byte c ≡ true
  number_byte c h = ground arith

  number_span : (c : ℕ) (l : List ℕ) → is_number_byte c ≡ true → 1 ≤ span is_number_byte (c ∷ l)
  unfolding span
  number_span c l e = rw e (omega arith)

  dispatch-Parses :
      (libc : Libc) (c : ℕ) (cs : List ℕ)
      → p.ahead ≡ c ∷ cs
      → Parses p (dispatch fuel libc flags parse c p)
  unfolding dispatch
  dispatch-Parses libc c cs e =
      Returns-if (c == b'{') (λ t. parse_object-Parses)
        (λ t.
          Returns-if (c == b'[') (λ t. parse_array-Parses)
            (λ t.
              Returns-if (c == 0x22 || c == 0x27) (λ t. parse_string-Parses flags p)
                (λ t.
                  Returns-if (c == b'n') (λ t. parse_word-Parses null_word null p (omega arith))
                    (λ t.
                      Returns-if (c == b't')
                        (λ t. parse_word-Parses true_word (boolean true) p (omega arith))
                        (λ t.
                          Returns-if (c == b'f')
                            (λ t. parse_word-Parses false_word (boolean false) p (omega arith))
                            (λ t.
                              Returns-if (c == b'-' || c == b'+' || c == b'.' || is_digit c)
                                (λ t. parse_number-Parses libc p (
                                  subst (λ l. 1 ≤ span is_number_byte l) (sym e)
                                    (number_span c cs (number_byte c t))))
                                (λ t.
                                  Returns-if flags.allow_unquoted_keys
                                    (λ t. parse_string-Parses flags p)
                                    (λ t.
                                      Parses-none p p (Moves-self p) p.position
                                        unexpected_character))))))))

parse_value-Parses :
    (fuel : ℕ) (libc : Libc) (flags : Flags) (p : Parser)
    → length p.ahead < fuel
    → Parses p (parse_value fuel libc flags p)
unfolding parse_value
parse_value-Parses zero libc flags p h = absurd (omega arith)
parse_value-Parses (suc fuel) libc flags p h =
    Returns-bind (skip_blank-Returns (suc fuel) flags p h) (λ p1 m.
      first p1 m (λ q l. parse_value-Parses fuel libc flags q (omega (arith, m.ahead))) p1.ahead
        refl)
  where
    parse : Parser → Parsed
    parse q = parse_value fuel libc flags q

    first :
        (p1 : Parser)
        → Moves p p1
        → ((q : Parser) → length q.ahead < length p1.ahead → Parses q (parse q))
        → (l : List ℕ) → p1.ahead ≡ l
        → Parses p (elim l [
          | [] ↦ failed_with (fail unexpected_end p1)
          | c ∷ cs ↦ dispatch fuel libc flags parse c p1
        ])
    first p1 m g [] e = Parses-none p p1 m p1.position unexpected_end
    first p1 m g (c ∷ cs) e =
        Parses-after p p1 m _
          (dispatch-Parses fuel flags parse p1 g (omega (arith, m.ahead)) libc c cs e)

finish-Goes :
    (fuel : ℕ) (flags : Flags) (v : Json) (p : Parser)
    → length p.ahead < fuel
    → Goes p (finish fuel flags v p)
unfolding finish
finish-Goes fuel flags v p h =
    Returns-bind (skip_blank-Returns fuel flags p h) (λ p1 m. cases p1 m p1.ahead)
  where
    cases :
        (p1 : Parser)
        → Moves p p1
        → (l : List ℕ)
        → Goes p (elim l [
          | [] ↦ ret (some v, record p1 { root = some v })
          | c ∷ cs ↦ failed_with (fail trailing_data p1)
        ])
    cases p1 m [] =
        Goes-ret p (record p1 { root = some v })
          (record { input = m.input; ahead = m.ahead; total = m.total }) (some v)
    cases p1 m (c ∷ cs) = Goes-ret p _ (Moves-fail_at p p1 m p1.position trailing_data) none

-- `json_parse` always ends: with more fuel than the input has bytes it gives a result, whatever the
-- input, the flags, the conversions of numbers and the memory that the allocator gives. What is left
-- of the input is a part of it: the bytes that the parser has passed and those ahead are as many as
-- the input has.
pub json_parse-Returns :
    (fuel : ℕ) (libc : Libc) (flags : Flags) (p : Parser)
    → length p.input < fuel
    → Returns
        (λ (out, p'). (p'.input ≡ p.input) × (p'.position + length p'.ahead ≡ length p.input))
        (json_parse fuel libc flags p)
unfolding json_parse
json_parse-Returns fuel libc flags p h =
    Returns-map (λ (out, q) m. (m.input, omega (arith, m.total)))
      (Goes-with_value start _ (finish fuel flags) (parse_value-Parses fuel libc flags start h)
        (λ v q m l. Goes-after start q m _ (finish-Goes fuel flags v q (omega (arith, l)))))
  where
    start : Parser
    start = record p { ahead = p.input; position = 0; error = none; error_position = 0 }
