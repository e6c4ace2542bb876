-- ===== src/Serialization/Json/Parse/Rounds.antt =====
-- The loops over the members of an array and of an object end.
use micro_posix.Prelude.{
  ℕ, zero, suc, refl, Bool, true, false, not, Option, none, some, List, [], arith, leb, length, ◌≤◌,
  ◌<◌, ◌≡◌, ◌∷◌, ◌==◌, if◌then◌else◌,
}
use micro_posix.Run.{Returns-bind, Returns-map, Returns-if, Returns, ret, returns}
use micro_posix.Serialization.Json.Value.{
  count_items, count_fields, grown, Items, Fields, Json, object, array,
}
use micro_posix.Serialization.Json.Parser.{
  advance, fail, Parsed, failed_with, skip_whitespace, Message, Parser, Flags, out_of_memory,
  unterminated_object, key_not_string, expected_colon, unterminated_array,
}
use micro_posix.Serialization.Json.Parse.{
  alloc_all, make_room, skip_comma, with_value, store_field, is_string, parse_member, object_rounds,
  store_item, array_rounds,
}
use micro_posix.Serialization.Json.Parse.Progress.{
  Moves-self, Moves-trans, Advanced, Parses, advance-Moves, skip_whitespace-Moves,
  skip_blank-Returns, Moves,
}
use micro_posix.Serialization.Json.Parse.Total.{Moves-fail_at, Moves-alloc_all}

-- What a loop gives: the parser has moved on, if only by nothing.
abbrev pub Goes : Parser → Parsed → Type 0
Goes p = Returns (λ (out, p'). Moves p p')

module _ (p q : Parser) (m : Moves p q) where
  pub Goes-ret : (out : Option Json) → Goes p (ret (out, q))
  Goes-ret out = returns {a = (out, q)} m

  pub Goes-after : (r : Parsed) → Goes q r → Goes p r
  Goes-after r h = Returns-map (λ (out, t) g. Moves-trans p q t m g) h

Moves-skip_comma : (p q : Parser) → Moves p q → Moves p (skip_comma q)
Moves-skip_comma p q m = cases q.ahead refl
  where
    cases :
        (l : List ℕ)
        → q.ahead ≡ l
        → Moves p (elim l [ [] ↦ q | c ∷ cs ↦ if c == b',' then advance 1 q else q ])
    cases [] e = m
    cases (c ∷ cs) e = choose (c == b',')
      where
        choose : (b : Bool) → Moves p (if b then advance 1 q else q)
        choose true = Moves-trans p q (advance 1 q) m (advance-Moves 1 q (rw e (omega arith)))
        choose false = m

Moves-make_room :
    (n count capacity : ℕ) (p q : Parser) → Moves p q → Moves p (make_room n count capacity q).2
Moves-make_room n count capacity p q m = choose (leb capacity count)
  where
    choose :
        (b : Bool)
        → Moves p
            (if◌then◌else◌ {A = Bool × ℕ × Parser} b
              (
                (alloc_all n q).0,
                if (alloc_all n q).0 then grown capacity else capacity,
                (alloc_all n q).1,
              )
              (true, capacity, q)).2
    choose true = Moves-alloc_all n p q m
    choose false = m

-- A loop's round goes on with the value that it has parsed, and ends where there is none.
pub Goes-with_value :
    (p : Parser) (m : Parsed) (f : Json → Parser → Parsed)
    → Parses p m
    → ((v : Json) (q : Parser) → Moves p q → length q.ahead < length p.ahead → Goes p (f v q))
    → Goes p (with_value m f)
Goes-with_value p m f h k = Returns-bind h (λ (out, q). cases out q)
  where
    cases :
        (out : Option Json) (q : Parser)
        → Advanced p out q
        → Goes p (elim out [ none ↦ failed_with q | some v ↦ f v q ])
    cases none q g = Goes-ret p q g none
    cases (some v) q (g, l) = k v q g l

-- A round of a loop over members: the end of the input, the closing byte, or a value.
module _ (close : ℕ) (done : Json) (unterminated : Message) (parse : Parser → Parsed)
    (step : Json → Parser → Parsed) (p : Parser) where
  round-Goes :
      (p1 : Parser) (l : List ℕ)
      → Moves p p1
      → p1.ahead ≡ l
      → Parses p1 (parse p1)
      → ((v : Json) (q : Parser) → Moves p q → length q.ahead < length p.ahead → Goes q (step v q))
      → Goes p (elim l [
        | [] ↦ ret (some done, fail unterminated p1)
        | c ∷ cs ↦
            if c == close
            then ret (some done, advance 1 p1)
            else with_value (parse p1) (λ v q. step v q)
      ])
  round-Goes p1 [] m e g h = Goes-ret p _ (Moves-fail_at p p1 m p1.position unterminated) _
  round-Goes p1 (c ∷ cs) m e g h =
      Returns-if (c == close)
        (λ t.
          Goes-ret p (advance 1 p1)
            (Moves-trans p p1 (advance 1 p1) m (advance-Moves 1 p1 (rw e (omega arith)))) _)
        (λ t. Goes-after p p1 m _ (
          Goes-with_value p1 (parse p1) _ g (λ v q n l.
            Goes-after p1 q n _ (h v q (Moves-trans p p1 q m n) (omega (arith, m.ahead, l))))))

-- The parser goes on after a comma.
module _ (n count capacity : ℕ) (q : Parser) where
  next-Moves : Moves q (skip_comma (skip_whitespace (make_room n count capacity q).2))
  next-Moves =
      let q1 = (make_room n count capacity q).2 in
      Moves-trans q q1 _ (Moves-make_room n count capacity q q (Moves-self q))
        (Moves-skip_comma q1 (skip_whitespace q1) (skip_whitespace-Moves q1))

  store-Goes :
      (rest : Parsed)
      → Goes (skip_comma (skip_whitespace (make_room n count capacity q).2)) rest
      → Goes q (
          if not (make_room n count capacity q).0
          then failed_with (fail out_of_memory (make_room n count capacity q).2)
          else rest)
  store-Goes rest h =
      let q1 = (make_room n count capacity q).2 in
      let m1 = Moves-make_room n count capacity q q (Moves-self q) in
      Returns-if (not (make_room n count capacity q).0)
        (λ e.
          Goes-ret q (fail out_of_memory q1) (Moves-fail_at q q1 m1 q1.position out_of_memory) none)
        (λ e. Goes-after q _ next-Moves rest h)

store_item-Goes :
    (rounds : ℕ → Items → Parser → Parsed) (capacity : ℕ) (items : Items) (v : Json) (q : Parser)
    → ((k : ℕ) (vs : Items) (r : Parser) → length r.ahead ≤ length q.ahead → Goes r (rounds k vs r))
    → Goes q (store_item rounds capacity items v q)
unfolding store_item
store_item-Goes rounds capacity items v q h =
    store-Goes 1 (count_items items) capacity q _
      (h _ _ _ (next-Moves 1 (count_items items) capacity q).ahead)

store_field-Goes :
    (rounds : ℕ → Fields → Parser → Parsed) (capacity : ℕ) (entries : Fields) (k v : Json)
    (q : Parser)
    → ((n : ℕ) (fs : Fields) (r : Parser)
        → length r.ahead ≤ length q.ahead
        → Goes r (rounds n fs r))
    → Goes q (store_field rounds capacity entries k v q)
unfolding store_field
store_field-Goes rounds capacity entries k v q h =
    store-Goes 2 (count_fields entries) capacity q _
      (h _ _ _ (next-Moves 2 (count_fields entries) capacity q).ahead)

module _ (bound : ℕ) (parse : Parser → Parsed)
    (parses : (q : Parser) → length q.ahead < bound → Parses q (parse q)) where
  pub array_rounds-Goes :
      (fuel : ℕ) (flags : Flags) (capacity : ℕ) (items : Items) (p : Parser)
      → length p.ahead < fuel
      → length p.ahead < bound
      → Goes p (array_rounds fuel flags parse capacity items p)
  unfolding array_rounds
  array_rounds-Goes zero flags capacity items p h b = absurd (omega arith)
  array_rounds-Goes (suc fuel) flags capacity items p h b =
      Returns-bind (skip_blank-Returns (suc fuel) flags p h) (λ p1 m.
        round-Goes b']' (array capacity items) unterminated_array parse _ p p1 p1.ahead m refl
          (parses p1 (omega (arith, m.ahead)))
          (λ v q g l.
            store_item-Goes _ capacity items v q
              (λ k vs r less. array_rounds-Goes fuel flags k vs r (omega arith) (omega arith))))

  parse_member-Goes :
      (rounds : ℕ → Fields → Parser → Parsed) (capacity : ℕ) (entries : Fields) (key : Json)
      (p : Parser)
      → length p.ahead < bound
      → ((n : ℕ) (fs : Fields) (r : Parser)
          → length r.ahead ≤ length p.ahead
          → Goes r (rounds n fs r))
      → Goes p (parse_member parse rounds capacity entries key p)
  unfolding parse_member
  parse_member-Goes rounds capacity entries key p b h =
      Returns-if (not (is_string key))
        (λ e. Goes-ret p _ (Moves-fail_at p p (Moves-self p) p.position key_not_string) none)
        (λ e. colon (skip_whitespace p).ahead refl)
    where
      p1 : Parser
      p1 = skip_whitespace p

      w : Moves p p1
      w = skip_whitespace-Moves p

      wrong : Goes p (failed_with (fail expected_colon p1))
      wrong = Goes-ret p _ (Moves-fail_at p p1 w p1.position expected_colon) none

      colon :
          (l : List ℕ)
          → p1.ahead ≡ l
          → Goes p (elim l [
            | [] ↦ failed_with (fail expected_colon p1)
            | c ∷ cs ↦
                if not (c == b':')
                then failed_with (fail expected_colon p1)
                else with_value
                    (parse (advance 1 p1))
                    (λ value p2. store_field rounds capacity entries key value p2)
          ])
      colon [] e = wrong
      colon (c ∷ cs) e =
          let on = advance-Moves 1 p1 (rw e (omega arith)) in
          let q = advance 1 p1 in
          Returns-if (not (c == b':')) (λ t. wrong)
            (λ t. Goes-after p q (Moves-trans p p1 q w on) _ (
              Goes-with_value q _ _ (parses q (omega (arith, w.ahead, on.ahead))) (λ v r m l.
                Goes-after q r m _ (
                  store_field-Goes rounds capacity entries key v r
                    (λ n fs s less. h n fs s (omega (arith, w.ahead, on.ahead)))))))

  pub object_rounds-Goes :
      (fuel : ℕ) (flags : Flags) (capacity : ℕ) (entries : Fields) (p : Parser)
      → length p.ahead < fuel
      → length p.ahead < bound
      → Goes p (object_rounds fuel flags parse capacity entries p)
  unfolding object_rounds
  object_rounds-Goes zero flags capacity entries p h b = absurd (omega arith)
  object_rounds-Goes (suc fuel) flags capacity entries p h b =
      Returns-bind (skip_blank-Returns (suc fuel) flags p h) (λ p1 m.
        round-Goes b'}' (object capacity entries) unterminated_object parse _ p p1 p1.ahead m refl
          (parses p1 (omega (arith, m.ahead)))
          (λ key q g l.
            parse_member-Goes _ capacity entries key q (omega arith)
              (λ k fs r less. object_rounds-Goes fuel flags k fs r (omega arith) (omega arith))))
