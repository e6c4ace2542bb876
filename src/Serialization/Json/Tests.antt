-- ===== src/Serialization/Json/Tests.antt =====
-- The theorems on JSON at the text `[1`, an object with one member and a growing buffer.
use micro_posix.Prelude.{
  ℕ, refl, inr, true, false, some, List, [], arith, length, ◌+◌, ◌-◌, ◌≡◌, ◌∷◌, ◌==◌,
}
use micro_posix.Run.{Returns}
use micro_posix.Serialization.Json.Value.{
  Libc, Json, null, boolean, string, object, no_fields, field,
}
use micro_posix.Serialization.Json.Parser.{Parser, Flags}
use micro_posix.Serialization.Json.Parse.{parser_init, json_parse}
use micro_posix.Serialization.Json.Parse.Ends.{json_parse-Returns}
use micro_posix.Serialization.Json.Parse.Quotes.{Refused, json_parse-generate_string}
use micro_posix.Serialization.Json.Generator.{generate, Generator}
use micro_posix.Serialization.Json.Generator.Text.{value_text}
use micro_posix.Serialization.Json.Generator.Refines.{generate-value_text}
use micro_posix.Serialization.Json.Api.{object_add_owning}
use micro_posix.Serialization.Json.Copy.{deep_copy}
use micro_posix.Serialization.Json.Copy.Same.{SameText}
use micro_posix.Serialization.Json.Copy.Loops.{Given, deep_copy-SameText}
use micro_posix.Serialization.Json.Api.Members.{Outcome, object_add_owning-Outcome}

-- Conversions that are right for the numbers from 0 to 9.
abbrev digits : Libc
digits = record {
  strtoll = λ s. elim s [ [] ↦ 0 | c ∷ cs ↦ c - b'0' ];
  strtod = λ s. 0;
  int_to_double = λ n. n;
  double_to_int = λ n. n;
  print_int = λ n. (b'0' + n) ∷ [];
  print_double = λ n. b'0' ∷ [];
  double_eq = λ m n. m == n;
}

abbrev strict : Flags
strict = record {
  allow_comments = false;
  allow_trailing_comma = false;
  allow_single_quotes = false;
  allow_unquoted_keys = false;
}

abbrev unclosed : List ℕ
unclosed = b'[' ∷ b'1' ∷ []

json_parse-Returns_example :
    Returns
      (λ (out, p). (p.input ≡ unclosed) × (p.position + length p.ahead ≡ 2))
      (json_parse 3 digits strict (parser_init unclosed []))
unfolding parser_init
json_parse-Returns_example =
    json_parse-Returns 3 digits strict (parser_init unclosed []) (omega arith)

abbrev key : Json
key = string (b'a' ∷ [])

abbrev one_member : Json
one_member = object 8 (field key (boolean true) no_fields)

abbrev growing_buffer : Generator
growing_buffer = record {
  bytes = [];
  capacity = 0;
  pretty_print = true;
  indent_level = 0;
  has_realloc = true;
  answers = [];
}

generate-value_text_example :
    Returns
      (λ g. g.bytes ≡ value_text digits true 0 one_member)
      (generate digits one_member growing_buffer)
unfolding value_text
generate-value_text_example =
    generate-value_text digits one_member growing_buffer (refl, record {}, record {}) (omega arith)
      refl (inr refl)

json_parse-generate_string_example :
    Returns
      (λ g. (p : Parser) → p.input ≡ g.bytes → Returns Refused (json_parse 1 digits strict p))
      (generate digits key growing_buffer)
unfolding value_text
json_parse-generate_string_example =
    json_parse-generate_string 0 digits strict (b'a' ∷ []) growing_buffer (omega arith) refl
      (inr refl)

object_add_owning-Outcome_example :
    Outcome 8
      (field key (boolean true) no_fields)
      (b'b' ∷ [])
      null
      []
      (object_add_owning one_member (b'b' ∷ []) (some null) []).0
object_add_owning-Outcome_example =
    object_add_owning-Outcome 8 (field key (boolean true) no_fields) (b'b' ∷ []) null []

deep_copy-SameText_example :
    Returns (Given (λ w. SameText digits w one_member)) (deep_copy digits one_member [])
deep_copy-SameText_example = deep_copy-SameText digits one_member (refl, record {}, record {})
