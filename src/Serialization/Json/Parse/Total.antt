-- ===== src/Serialization/Json/Parse/Total.antt =====
-- The parsing of strings, words and numbers ends.
use micro_posix.Prelude.{
  ℕ, zero, suc, refl, true, not, Option, none, some, List, [], arith, length, ◌≤◌, ◌<◌, ◌≡◌, ◌&&◌,
  ◌||◌, ◌∷◌, ◌==◌, if◌then◌else◌,
}
use micro_posix.Run.{Returns-map, Returns-if, ret, returns}
use micro_posix.Serialization.Json.Value.{Libc, Json}
use micro_posix.Serialization.Json.Parser.{
  advance, fail_at, fail, alloc, Parsed, failed_with, span, string_end, take_string, string_body,
  parse_string, is_number_byte, parse_number, Message, Parser, Flags, out_of_memory, unexpected_end,
  expected_string, unterminated_string, unexpected_character,
}
use micro_posix.Serialization.Json.Parse.{alloc_all, starts_with, parse_word}
use micro_posix.Serialization.Json.Parse.Progress.{
  Moves-self, Moves-trans, Advanced, Parses, advance-Moves, length-advance, span-le, Below,
  string_end-Below, Moves,
}

module _ (p q : Parser) (m : Moves p q) where
  -- Calls of the allocator and errors do not move the parser.
  pub Moves-alloc : Moves p (alloc q).1
  Moves-alloc = record { input = m.input; ahead = m.ahead; total = m.total }

  pub Moves-fail_at : (at : ℕ) (e : Message) → Moves p (fail_at at e q)
  Moves-fail_at at e = record { input = m.input; ahead = m.ahead; total = m.total }

  pub Parses-none : (at : ℕ) (e : Message) → Parses p (failed_with (fail_at at e q))
  Parses-none at e = returns {a = (none, fail_at at e q)} (Moves-fail_at at e)

  pub Parses-some : (v : Json) → length q.ahead < length p.ahead → Parses p (ret (some v, q))
  Parses-some v less = returns {a = (some v, q)} (m, less)

pub Moves-alloc_all : (n : ℕ) (p q : Parser) → Moves p q → Moves p (alloc_all n q).1
Moves-alloc_all zero p q m = m
Moves-alloc_all (suc n) p q m = Moves-alloc_all n p (alloc q).1 (Moves-alloc p q m)

take_string-Parses : (n : ℕ) (p : Parser) → n < length p.ahead → Parses p (take_string n p)
unfolding take_string
take_string-Parses n p h =
    let one = Moves-alloc p (advance n p) (advance-Moves n p (omega arith)) in
    let p1 = (alloc (advance n p)).1 in
    let two = Moves-alloc p p1 one in
    let p2 = (alloc p1).1 in
    let here = length-advance n p (omega arith) in
    let close = advance-Moves 1 p2 (omega (arith, here)) in
    Returns-if (not (alloc (advance n p)).0) (λ e. Parses-none p p1 one p1.position out_of_memory)
      (λ e.
        Returns-if (not (alloc p1).0) (λ e'. Parses-none p p2 two p2.position out_of_memory)
          (λ e'.
            Parses-some p (advance 1 p2) (Moves-trans p p2 (advance 1 p2) two close) _
              (omega (arith, here, length-advance 1 p2 (omega (arith, here))))))

string_body-Parses : (quote : ℕ) (p : Parser) → Parses p (string_body quote p)
unfolding string_body
string_body-Parses quote p = cases (string_end quote p.ahead) (string_end-Below quote p.ahead)
  where
    cases :
        (o : Option ℕ)
        → Below (length p.ahead) o
        → Parses p (elim o [
          | none ↦ failed_with (fail_at p.position unterminated_string (advance (length p.ahead) p))
          | some n ↦ take_string n p
        ])
    cases none h =
        Parses-none p (advance (length p.ahead) p) (advance-Moves (length p.ahead) p (omega arith))
          p.position unterminated_string
    cases (some n) h = take_string-Parses n p h

-- What is parsed once the parser has moved by a byte at least.
pub Parses-after : (p q : Parser) → Moves p q → (r : Parsed) → Parses q r → Parses p r
Parses-after p q m r h = Returns-map (λ (out, t). weaken out t) h
  where
    weaken : (out : Option Json) (t : Parser) → Advanced q out t → Advanced p out t
    weaken none t g = Moves-trans p q t m g
    weaken (some v) t (g, l) = (Moves-trans p q t m g, omega (arith, l, m.ahead))

pub parse_string-Parses : (flags : Flags) (p : Parser) → Parses p (parse_string flags p)
unfolding parse_string
parse_string-Parses flags p = cases p.ahead refl
  where
    cases :
        (l : List ℕ)
        → p.ahead ≡ l
        → Parses p (elim l [
          | [] ↦ failed_with (fail unexpected_end p)
          | quote ∷ cs ↦
              if (not (quote == 0x22) && not flags.allow_single_quotes) || not (quote == 0x27)
              then failed_with (fail expected_string p)
              else string_body quote (advance 1 p)
        ])
    cases [] e = Parses-none p p (Moves-self p) p.position unexpected_end
    cases (quote ∷ cs) e =
        let some_left : 1 ≤ length p.ahead = rw e (omega arith) in
        Returns-if ((not (quote == 0x22) && not flags.allow_single_quotes) || not (quote == 0x27))
          (λ b. Parses-none p p (Moves-self p) p.position expected_string)
          (λ b.
            Parses-after p (advance 1 p) (advance-Moves 1 p some_left) _
              (string_body-Parses quote (advance 1 p)))

starts_with-le : (word cs : List ℕ) → starts_with word cs ≡ true → length word ≤ length cs
starts_with-le [] cs e = omega arith
starts_with-le (w ∷ ws) [] e = cc
starts_with-le (w ∷ ws) (c ∷ cs) e = ground (arith, starts_with-le ws cs)

pub parse_word-Parses :
    (word : List ℕ) (v : Json) (p : Parser) → 1 ≤ length word → Parses p (parse_word word v p)
unfolding parse_word
parse_word-Parses word v p h =
    Returns-if (not (starts_with word p.ahead))
      (λ e. Parses-none p p (Moves-self p) p.position unexpected_character)
      (λ e.
        let fits : length word ≤ length p.ahead = starts_with-le word p.ahead (ground arith) in
        let p1 = (alloc (advance (length word) p)).1 in
        let m = Moves-alloc p (advance (length word) p) (advance-Moves (length word) p fits) in
        Returns-if (alloc (advance (length word) p)).0
          (λ e'. Parses-some p p1 m v (omega (arith, length-advance (length word) p fits)))
          (λ e'. Parses-none p p1 m p1.position out_of_memory))

pub parse_number-Parses :
    (libc : Libc) (p : Parser) → 1 ≤ span is_number_byte p.ahead → Parses p (parse_number libc p)
unfolding parse_number
parse_number-Parses libc p h =
    let n = span is_number_byte p.ahead in
    let fits = span-le is_number_byte p.ahead in
    let p1 = (alloc (advance n p)).1 in
    let p2 = (alloc p1).1 in
    let m1 = Moves-alloc p (advance n p) (advance-Moves n p fits) in
    let m2 = Moves-alloc p p1 m1 in
    Returns-if (not (alloc (advance n p)).0) (λ e. Parses-none p p1 m1 p.position out_of_memory)
      (λ e.
        Returns-if (not (alloc p1).0) (λ e'. Parses-none p p2 m2 p.position out_of_memory)
          (λ e'. Parses-some p p2 m2 _ (omega (arith, length-advance n p fits))))
