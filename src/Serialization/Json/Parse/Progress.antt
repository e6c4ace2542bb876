-- ===== src/Serialization/Json/Parse/Progress.antt =====
-- How far the parser moves.
use micro_posix.Prelude.{
  ℕ, zero, suc, refl, sym, subst, Bool, true, false, not, Option, none, some, List, [], arith,
  length, drop, length-drop, ◌+◌, ◌-◌, ◌≤◌, ◌<◌, ◌≡◌, ◌∙◌, ◌&&◌, ◌∷◌, ◌==◌, if◌then◌else◌,
}
use micro_posix.Run.{Returns-map, Returns-if, Returns, returns}
use micro_posix.Serialization.Json.Value.{Json}
use micro_posix.Serialization.Json.Parser.{
  advance, Parsed, is_whitespace, span, skip_whitespace, longer, comment_end, skip_block,
  skip_comment, skip_comments, skip_all, skip_blank, string_end, Parser, Flags,
}

-- `p'` reads the same input as `p`, and is not behind it.
pub record Moves (p p' : Parser) : Type 0 where
  pub input : p'.input ≡ p.input
  pub ahead : length p'.ahead ≤ length p.ahead
  pub total : p'.position + length p'.ahead ≡ p.position + length p.ahead

pub Moves-self : (p : Parser) → Moves p p
Moves-self p = record { input = refl; ahead = omega arith; total = refl }

pub Moves-trans : (p q r : Parser) → Moves p q → Moves q r → Moves p r
Moves-trans p q r f g = record {
  input = g.input ∙ f.input;
  ahead = omega (arith, f.ahead, g.ahead);
  total = g.total ∙ f.total;
}

-- What parsing gives: the parser has moved, and by a byte at least where there is a value.
abbrev pub Advanced : Parser → Option Json → Parser → Type 0
Advanced p none p' = Moves p p'
Advanced p (some v) p' = Moves p p' × (length p'.ahead < length p.ahead)

abbrev pub Parses : Parser → Parsed → Type 0
Parses p = Returns (λ (out, p'). Advanced p out p')

pub advance-Moves : (n : ℕ) (p : Parser) → n ≤ length p.ahead → Moves p (advance n p)
advance-Moves n p h = record {
  input = refl;
  ahead = omega (arith, length-drop n p.ahead h);
  total = omega (arith, length-drop n p.ahead h);
}

pub length-advance :
    (n : ℕ) (p : Parser) → n ≤ length p.ahead → n + length (advance n p).ahead ≡ length p.ahead
length-advance n p h = length-drop n p.ahead h

pub span-le : (test : ℕ → Bool) (cs : List ℕ) → span test cs ≤ length cs
unfolding span
span-le test [] = omega arith
span-le test (c ∷ cs) = ground (arith, span-le test cs)

pub skip_whitespace-Moves : (p : Parser) → Moves p (skip_whitespace p)
unfolding skip_whitespace
skip_whitespace-Moves p =
    advance-Moves (span is_whitespace p.ahead) p (span-le is_whitespace p.ahead)

-- A length that a scan has found, where it has, is below a bound.
abbrev pub Below : ℕ → Option ℕ → Type 0
Below k none = Unit {0}
Below k (some n) = n < k

Below-longer : (j k l : ℕ) (o : Option ℕ) → j + k ≤ l → Below k o → Below l (longer j o)
Below-longer j k l none h w = record {}
Below-longer j k l (some n) h w = omega arith

Below-if :
    (b : Bool) (k : ℕ) (o o' : Option ℕ) → Below k o → Below k o' → Below k (if b then o else o')
Below-if true k o o' h h' = h
Below-if false k o o' h h' = h'

comment_end-Below : (cs : List ℕ) → Below (suc (length cs)) (comment_end cs)
unfolding comment_end
comment_end-Below [] = record {}
comment_end-Below (c ∷ []) = record {}
comment_end-Below (c ∷ d ∷ cs) =
    Below-if (c == b'*' && d == b'/') (suc (length (c ∷ d ∷ cs))) (some 2) _ (omega arith) (
      Below-longer 1 (suc (length (d ∷ cs))) (suc (length (c ∷ d ∷ cs))) (comment_end (d ∷ cs))
        (omega arith) (comment_end-Below (d ∷ cs)))

-- A string's closing quote is inside the input.
pub string_end-Below : (quote : ℕ) (cs : List ℕ) → Below (length cs) (string_end quote cs)
unfolding string_end
string_end-Below quote [] = record {}
string_end-Below quote (c ∷ []) = Below-if (c == quote) 1 (some 0) none (omega arith) (record {})
string_end-Below quote (c ∷ d ∷ cs) =
    let whole = length (c ∷ d ∷ cs) in
    Below-if (c == quote) whole (some 0) _ (omega arith) (
      Below-if (c == 0x5C) whole _ _
        (Below-longer 2 (length cs) whole (string_end quote cs) (omega arith)
          (string_end-Below quote cs))
        (Below-longer 1 (length (d ∷ cs)) whole (string_end quote (d ∷ cs)) (omega arith)
          (string_end-Below quote (d ∷ cs))))

skip_block-Moves :
    (o : Option ℕ) (p : Parser) → Below (suc (length p.ahead)) o → Moves p (skip_block o p).1
unfolding skip_block
skip_block-Moves (some n) p h = advance-Moves n p (omega arith)
skip_block-Moves none p h =
    let m = advance-Moves (length p.ahead - 1) p (omega arith) in
    record { input = m.input; ahead = m.ahead; total = m.total }

-- A comment that is skipped takes a byte at least.
abbrev pub Skips : Parser → Bool × Parser → Type 0
Skips p (found, p') = Moves p p' × (found ≡ true → length p'.ahead < length p.ahead)

Skips-if :
    (b : Bool) (p : Parser) (r r' : Bool × Parser)
    → Skips p r
    → Skips p r'
    → Skips p (if b then r else r')
Skips-if true p r r' h h' = h
Skips-if false p r r' h h' = h'

skip_comment-Skips : (p : Parser) (cs : List ℕ) → p.ahead ≡ cs → Skips p (skip_comment cs p)
unfolding skip_comment
skip_comment-Skips p [] e = (Moves-self p, λ f. cc)
skip_comment-Skips p (c ∷ []) e = (Moves-self p, λ f. cc)
skip_comment-Skips p (c ∷ d ∷ cs) e =
    Skips-if (c == b'/' && d == b'/') p (true, advance (2 + n) p) _
      (advance-Moves (2 + n) p long, λ f. omega (arith, length-advance (2 + n) p long))
      (Skips-if (c == b'/' && d == b'*') p (skip_block (comment_end cs) (advance 2 p)) (false, p)
        (
          Moves-trans p (advance 2 p) _ (advance-Moves 2 p (omega (arith, whole))) block,
          λ f. omega (arith, block.ahead, length-advance 2 p (omega (arith, whole)), whole),
        )
        (Moves-self p, λ f. cc))
  where
    n : ℕ
    n = span (λ b. not (b == 10)) cs

    whole : length p.ahead ≡ 2 + length cs
    whole = rw e (omega arith)

    long : 2 + n ≤ length p.ahead
    long = omega (arith, whole, span-le (λ b. not (b == 10)) cs)

    left : drop 2 p.ahead ≡ cs
    left = rw e

    block : Moves (advance 2 p) (skip_block (comment_end cs) (advance 2 p)).1
    block =
        skip_block-Moves (comment_end cs) (advance 2 p)
          (subst (λ l. Below (suc (length l)) (comment_end cs)) (sym left) (comment_end-Below cs))

skip_comments-Skips : (flags : Flags) (p : Parser) → Skips p (skip_comments flags p)
unfolding skip_comments
skip_comments-Skips flags p =
    Skips-if flags.allow_comments p (skip_comment p.ahead p) (false, p)
      (skip_comment-Skips p p.ahead refl) (Moves-self p, λ f. cc)

skip_all-Returns :
    (fuel : ℕ) (flags : Flags) (p : Parser)
    → length p.ahead < fuel
    → Returns (Moves p) (skip_all fuel flags p)
unfolding skip_all
skip_all-Returns zero flags p h = absurd (omega arith)
skip_all-Returns (suc fuel) flags p h =
    let (m, less) = skip_comments-Skips flags p in
    let p' = (skip_comments flags p).1 in
    let next = skip_whitespace p' in
    let w = skip_whitespace-Moves p' in
    Returns-if (skip_comments flags p).0
      (λ f.
        Returns-map (λ r g. Moves-trans p next r (Moves-trans p p' next m w) g)
          (skip_all-Returns fuel flags next (omega (arith, w.ahead, less f))))
      (λ f. returns m)

-- With more fuel than bytes are ahead the blanks and comments are skipped.
pub skip_blank-Returns :
    (fuel : ℕ) (flags : Flags) (p : Parser)
    → length p.ahead < fuel
    → Returns (Moves p) (skip_blank fuel flags p)
unfolding skip_blank
skip_blank-Returns fuel flags p h =
    let w = skip_whitespace-Moves p in
    Returns-map (λ r g. Moves-trans p (skip_whitespace p) r w g)
      (skip_all-Returns fuel flags (skip_whitespace p) (omega (arith, w.ahead)))
