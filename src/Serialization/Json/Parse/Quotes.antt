-- ===== src/Serialization/Json/Parse/Quotes.antt =====
-- The parser on an input that starts with a double quote.
use micro_posix.Prelude.{
  ℕ, suc, refl, Bool, true, false, Option, none, some, List, [], length, ◌^◌, ◌<◌, ◌≡◌, ◌∙◌, ◌⊎◌,
  ◌∷◌, ◌++◌, if◌then◌else◌,
}
use micro_posix.Run.{Returns-bind, Returns-map, Returns, ret, returns}
use micro_posix.Serialization.Json.Value.{Libc, Json, string}
use micro_posix.Serialization.Json.Parser.{
  fail, failed_with, span, skip_whitespace, skip_comment, skip_comments, skip_all, skip_blank,
  parse_string, Parser, Flags, expected_string,
}
use micro_posix.Serialization.Json.Parse.{dispatch, parse_value, finish, json_parse}
use micro_posix.Serialization.Json.Generator.{generate, Generator}
use micro_posix.Serialization.Json.Generator.Text.{escape_all, value_text}
use micro_posix.Serialization.Json.Generator.Refines.{generate-value_text}

-- No value, and the message that a string was expected.
abbrev pub Refused : Option Json × Parser → Type 0
Refused (out, p) = (out ≡ none) × (p.error ≡ some expected_string)

not_comment : (cs : List ℕ) (p : Parser) → skip_comment (0x22 ∷ cs) p ≡ (false, p)
unfolding skip_comment
not_comment [] p = refl
not_comment (d ∷ cs) p = refl

no_comment :
    (b : Bool) (cs : List ℕ) (p : Parser)
    → (if b then skip_comment (0x22 ∷ cs) p else (false, p)) ≡ (false, p)
no_comment true cs p = not_comment cs p
no_comment false cs p = refl

quoted_first : (cs : List ℕ) → Parser → Parser
quoted_first cs p = record p { ahead = 0x22 ∷ cs }

skip_blank-quoted :
    (fuel : ℕ) (flags : Flags) (p : Parser) (cs : List ℕ)
    → skip_blank (suc fuel) flags (quoted_first cs p) ≡ ret (skip_whitespace (quoted_first cs p))
unfolding skip_blank skip_all skip_comments skip_whitespace span quoted_first
skip_blank-quoted fuel flags p cs =
    let q = skip_whitespace (quoted_first cs p) in
    let e = no_comment flags.allow_comments cs q in rw e refl

parse_value-quoted :
    (fuel : ℕ) (libc : Libc) (flags : Flags) (p : Parser) (cs : List ℕ)
    → Returns Refused (parse_value (suc fuel) libc flags (quoted_first cs p))
unfolding parse_value dispatch parse_string skip_whitespace span quoted_first
parse_value-quoted fuel libc flags p cs =
    let e = skip_blank-quoted fuel flags p cs in
    rw e (
      returns {a = (none, fail expected_string (skip_whitespace (quoted_first cs p)))} (refl, refl))

-- The parser refuses each input that starts with a double quote, with the message that a string was
-- expected, whatever the flags and with any fuel but none.
pub json_parse-double_quote :
    (fuel : ℕ) (libc : Libc) (flags : Flags) (p : Parser) (cs : List ℕ)
    → p.input ≡ 0x22 ∷ cs
    → Returns Refused (json_parse (suc fuel) libc flags p)
unfolding json_parse quoted_first
json_parse-double_quote fuel libc flags p cs e =
    let start = record p { input = 0x22 ∷ cs; position = 0; error = none; error_position = 0 } in
    rw e (Returns-bind (parse_value-quoted fuel libc flags start cs) after)
  where
    after :
        (r : Option Json × Parser)
        → Refused r
        → Returns Refused
            (elim r.0 [ none ↦ failed_with r.1 | some v ↦ finish (suc fuel) flags v r.1 ])
    after (none, q) (h, g) = returns {a = (none, q)} (h, g)
    after (some v, q) (h, g) = cc

-- A string that the generator writes is not read back: where there is room for its text, `generate`
-- ends with bytes that `json_parse` refuses, with the message that a string was expected.
pub json_parse-generate_string :
    (fuel : ℕ) (libc : Libc) (flags : Flags) (s : List ℕ) (g : Generator)
    → length (value_text libc g.pretty_print g.indent_level (string s)) < 2 ^ 30
    → g.answers ≡ []
    → (length (value_text libc g.pretty_print g.indent_level (string s)) < g.capacity)
      ⊎ (g.has_realloc ≡ true)
    → Returns
        (λ g'.
          (p : Parser) → p.input ≡ g'.bytes → Returns Refused (json_parse (suc fuel) libc flags p))
        (generate libc (string s) g)
unfolding value_text
json_parse-generate_string fuel libc flags s g small answers fits =
    Returns-map
      (λ g' e p i. json_parse-double_quote fuel libc flags p (escape_all s ++ 0x22 ∷ []) (i ∙ e))
      (generate-value_text libc (string s) g (record {}) small answers fits)
