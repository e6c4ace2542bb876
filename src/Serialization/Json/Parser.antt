-- ===== src/Serialization/Json/Parser.antt =====
-- The parser of src/serialization/json.c. What `input` and `position` say is given by the bytes that
-- are ahead: `position >= length` where there are none. Memory that is freed is not modelled.
use micro_posix.Prelude.{
  ℕ, zero, suc, Bool, true, false, not, Option, none, some, List, [], leb, length, take, drop, ◌+◌,
  ◌-◌, ◌&&◌, ◌||◌, ◌∷◌, ◌==◌, if◌then◌else◌,
}
use micro_posix.Run.{Run, ret, hang}
use micro_posix.Serialization.Json.Value.{first_answer, Number, Libc, Json, number, string}

-- The texts that `error` can point to.
pub data Message : Type 0 where
  out_of_memory unterminated_comment expected_brace unterminated_object key_not_string : Message
  expected_colon expected_bracket unterminated_array unexpected_end expected_string : Message
  unterminated_string unexpected_character trailing_data : Message

-- `mp_json_parser_t`. `allocs` says of the calls of `alloc_fn` to come, in order, which give memory;
-- those beyond the list do.
pub record Parser : Type 0 where
  pub input : List ℕ
  pub ahead : List ℕ
  pub position : ℕ
  pub root : Option Json
  pub error : Option Message
  pub error_position : ℕ
  pub allocs : List Bool

-- The bits of `mp_json_parse_flags_t`.
pub record Flags : Type 0 where
  pub allow_comments : Bool
  pub allow_trailing_comma : Bool
  pub allow_single_quotes : Bool
  pub allow_unquoted_keys : Bool

-- `position += n`, where as many bytes are ahead.
abbrev pub advance : ℕ → Parser → Parser
advance n p = record p { ahead = drop n p.ahead; position = p.position + n }

abbrev pub fail_at : ℕ → Message → Parser → Parser
fail_at at m p = record p { error = some m; error_position = at }

abbrev pub fail : Message → Parser → Parser
fail m p = fail_at p.position m p

-- A call of `alloc_fn`.
abbrev pub alloc : Parser → Bool × Parser
alloc p = (first_answer p.allocs, record p { allocs = drop 1 p.allocs })

abbrev pub Parsed : Type 0
Parsed = Run (Option Json × Parser)

abbrev pub failed_with : Parser → Parsed
failed_with p = ret (none, p)

-- Space, tab, line feed and carriage return.
abbrev pub is_whitespace : ℕ → Bool
is_whitespace c = c == b' ' || c == 9 || c == 10 || c == 13

abbrev pub is_digit : ℕ → Bool
is_digit c = leb b'0' c && leb c b'9'

-- How many bytes at the front pass a test.
unfoldable pub span : (ℕ → Bool) → List ℕ → ℕ
span test [] = 0
span test (c ∷ cs) = let rest = suc (span test cs) in if test c then rest else 0

unfoldable pub skip_whitespace : Parser → Parser
skip_whitespace p = advance (span is_whitespace p.ahead) p

abbrev pub longer : ℕ → Option ℕ → Option ℕ
longer k none = none
longer k (some n) = some (k + n)

-- The bytes up to and with `*/`, or none where there is no such end.
unfoldable pub comment_end : List ℕ → Option ℕ
comment_end [] = none
comment_end (c ∷ []) = none
comment_end (c ∷ d ∷ cs) =
    let rest = comment_end (d ∷ cs) in if c == b'*' && d == b'/' then some 2 else longer 1 rest

-- The loop over a comment of several lines: without an end it stops at the last byte.
unfoldable pub skip_block : Option ℕ → Parser → Bool × Parser
skip_block (some n) p = (true, advance n p)
skip_block none p = let p' = advance (length p.ahead - 1) p in (false, fail unterminated_comment p')

unfoldable pub skip_comment : List ℕ → Parser → Bool × Parser
skip_comment [] p = (false, p)
skip_comment (c ∷ []) p = (false, p)
skip_comment (c ∷ d ∷ cs) p =
    if c == b'/' && d == b'/'
    then (true, advance (2 + span (λ b. not (b == 10)) cs) p)
    else if c == b'/' && d == b'*'
    then skip_block (comment_end cs) (advance 2 p)
    else (false, p)

unfoldable pub skip_comments : Flags → Parser → Bool × Parser
skip_comments flags p = if flags.allow_comments then skip_comment p.ahead p else (false, p)

-- `while (skip_comments(parser, flags)) skip_whitespace(parser);`
unfoldable pub skip_all : (fuel : ℕ) → Flags → Parser → Run Parser
skip_all zero flags p = hang
skip_all (suc fuel) flags p =
    let (found, p') = skip_comments flags p in
    let rest = skip_all fuel flags (skip_whitespace p') in if found then rest else ret p'

-- `skip_whitespace(parser);` and the loop above.
unfoldable pub skip_blank : (fuel : ℕ) → Flags → Parser → Run Parser
skip_blank fuel flags p = skip_all fuel flags (skip_whitespace p)

-- The length of a string up to its closing quote, if it has one; a backslash hides a byte.
unfoldable pub string_end : (quote : ℕ) → List ℕ → Option ℕ
string_end quote [] = none
string_end quote (c ∷ []) = if c == quote then some 0 else none
string_end quote (c ∷ d ∷ cs) =
    let plain = longer 1 (string_end quote (d ∷ cs)) in
    let hidden = longer 2 (string_end quote cs) in
    if c == quote then some 0 else if c == 0x5C then hidden else plain

-- The byte that a backslash and a byte stand for.
abbrev pub escaped : ℕ → ℕ
escaped d =
    if d == b'b'
    then 8
    else if d == b'f'
    then 12
    else if d == b'n'
    then 10
    else if d == b'r'
    then 13
    else if d == b't'
    then 9
    else d

-- The copy of a string; `verbatim` bytes of a unicode escape are still to be copied as they are.
unfoldable pub unescape : (verbatim : ℕ) → List ℕ → List ℕ
unescape verbatim [] = []
unescape (suc verbatim) (c ∷ cs) = c ∷ unescape verbatim cs
unescape zero (c ∷ []) = c ∷ []
unescape zero (c ∷ d ∷ cs) =
    let unicode = c ∷ unescape 5 (d ∷ cs) in
    let dropped = unescape 0 (d ∷ cs) in
    let one = escaped d ∷ unescape 0 cs in
    let plain = c ∷ unescape 0 (d ∷ cs) in
    if c == 0x5C
    then (if d == b'u' then (if leb 4 (length cs) then unicode else dropped) else one)
    else plain

-- `parse_string` from the creation of the value on; `n` is the length of the string.
unfoldable pub take_string : ℕ → Parser → Parsed
take_string n p =
    let (first, p1) = alloc (advance n p) in
    let (second, p2) = alloc p1 in
    if not first
    then failed_with (fail out_of_memory p1)
    else if not second
    then failed_with (fail out_of_memory p2)
    else ret (some (string (unescape 0 (take n p.ahead))), advance 1 p2)

unfoldable pub string_body : (quote : ℕ) → Parser → Parsed
string_body quote p = elim (string_end quote p.ahead) [
  | none ↦ failed_with (fail_at p.position unterminated_string (advance (length p.ahead) p))
  | some n ↦ take_string n p
]

-- The test of the quote is read as C reads it: `(quote != '"' && !single) || quote != '\''`.
unfoldable pub parse_string : Flags → Parser → Parsed
parse_string flags p = elim p.ahead [
  | [] ↦ failed_with (fail unexpected_end p)
  | quote ∷ cs ↦
      if (not (quote == 0x22) && not flags.allow_single_quotes) || not (quote == 0x27)
      then failed_with (fail expected_string p)
      else string_body quote (advance 1 p)
]

abbrev pub is_number_byte : ℕ → Bool
is_number_byte c = is_digit c || c == b'.' || c == b'e' || c == b'E' || c == b'+' || c == b'-'

abbrev pub is_integer_text : List ℕ → Bool
is_integer_text [] = true
is_integer_text (c ∷ cs) = not (c == b'.' || c == b'e' || c == b'E') && is_integer_text cs

abbrev pub number_of : Libc → List ℕ → Number
number_of libc text =
    if is_integer_text text
    then (record {
      value = libc.int_to_double (libc.strtoll text);
      is_integer = true;
      integer_value = libc.strtoll text;
    })
    else record {
      value = libc.strtod text;
      is_integer = false;
      integer_value = libc.double_to_int (libc.strtod text);
    }

unfoldable pub parse_number : Libc → Parser → Parsed
parse_number libc p =
    let n = span is_number_byte p.ahead in
    let (first, p1) = alloc (advance n p) in
    let (second, p2) = alloc p1 in
    if not first
    then failed_with (fail_at p.position out_of_memory p1)
    else if not second
    then failed_with (fail_at p.position out_of_memory p2)
    else ret (some (number (number_of libc (take n p.ahead))), p2)
