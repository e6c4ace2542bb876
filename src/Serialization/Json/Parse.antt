-- ===== src/Serialization/Json/Parse.antt =====
-- The recursive descent of src/serialization/json.c. A value is parsed on fuel, one unit for each
-- level of nesting; the loops over members get `parse_value` with less fuel.
pub mod Progress
pub mod Total
pub mod Rounds
pub mod Ends
pub mod Quotes
use micro_posix.Prelude.{
  ℕ, zero, suc, Bool, true, false, not, none, some, List, [], leb, length, ◌&&◌, ◌||◌, ◌∷◌, ◌==◌,
  if◌then◌else◌,
}
use micro_posix.Run.{ret, hang, ◌>>=◌}
use micro_posix.Serialization.Json.Value.{
  count_items, count_fields, add_item, add_field, is_string, grown, Libc, Items, Fields, Json, null,
  boolean, object, array, error, no_items, no_fields,
}
use micro_posix.Serialization.Json.Parser.{
  advance, fail, alloc, Parsed, failed_with, is_digit, skip_whitespace, skip_blank, parse_string,
  parse_number, Parser, Flags, out_of_memory, expected_brace, unterminated_object, key_not_string,
  expected_colon, expected_bracket, unterminated_array, unexpected_end, unexpected_character,
  trailing_data,
}

-- Whether the loop of an object or an array has to make room, and whether that fails; it asks `n`
-- times for memory.
abbrev pub alloc_all : (n : ℕ) → Parser → Bool × Parser
alloc_all zero p = (true, p)
alloc_all (suc n) p =
    let (first, p1) = alloc p in let (others, p2) = alloc_all n p1 in (first && others, p2)

abbrev pub make_room : (n count capacity : ℕ) → Parser → Bool × ℕ × Parser
make_room n count capacity p =
    let (given, p') = alloc_all n p in
    if leb capacity count
    then (given, if given then grown capacity else capacity, p')
    else (true, capacity, p)

abbrev pub skip_comma : Parser → Parser
skip_comma p = elim p.ahead [ [] ↦ p | c ∷ cs ↦ if c == b',' then advance 1 p else p ]

-- A loop that goes on with what parsing a part of its member has given: the error is there already if
-- that is none.
abbrev pub with_value : Parsed → (Json → Parser → Parsed) → Parsed
with_value m f = m >>= λ (out, p). elim out [ none ↦ failed_with p | some v ↦ f v p ]

-- The end of a round of `parse_object`: after the comma, which is not asked for, comes the next round.
unfoldable pub store_field :
    (rounds : ℕ → Fields → Parser → Parsed) (capacity : ℕ)
    → Fields
    → (key value : Json) → Parser
    → Parsed
store_field rounds capacity entries key value p =
    let (room, capacity', p') = make_room 2 (count_fields entries) capacity p in
    if not room
    then failed_with (fail out_of_memory p')
    else rounds capacity' (add_field entries key value) (skip_comma (skip_whitespace p'))

-- The colon and the value of a member, once its key is parsed.
unfoldable pub parse_member :
    (parse : Parser → Parsed) (rounds : ℕ → Fields → Parser → Parsed) (capacity : ℕ)
    → Fields
    → (key : Json) → Parser
    → Parsed
parse_member parse rounds capacity entries key p =
    let p1 = skip_whitespace p in
    if not (is_string key) then failed_with (fail key_not_string p) else elim p1.ahead [
      | [] ↦ failed_with (fail expected_colon p1)
      | c ∷ cs ↦
          if not (c == b':')
          then failed_with (fail expected_colon p1)
          else with_value (parse (advance 1 p1))
              (λ value p2. store_field rounds capacity entries key value p2)
    ]

-- The loop of `parse_object`, which ends without a closing brace too where the input ends.
unfoldable pub object_rounds :
    (fuel : ℕ) → Flags → (parse : Parser → Parsed) (capacity : ℕ) → Fields → Parser → Parsed
object_rounds zero flags parse capacity entries p = hang
object_rounds (suc fuel) flags parse capacity entries p =
    let rounds = λ (k : ℕ) (fs : Fields) (q : Parser). object_rounds fuel flags parse k fs q in
    skip_blank (suc fuel) flags p >>= λ p1. elim p1.ahead [
      | [] ↦ ret (some (object capacity entries), fail unterminated_object p1)
      | c ∷ cs ↦
          if c == b'}'
          then ret (some (object capacity entries), advance 1 p1)
          else with_value (parse p1) (λ key p2. parse_member parse rounds capacity entries key p2)
    ]

unfoldable pub parse_object : (fuel : ℕ) → Flags → (parse : Parser → Parsed) → Parser → Parsed
parse_object fuel flags parse p =
    let (given, p1) = alloc p in
    if not given then failed_with (fail out_of_memory p1) else elim p1.ahead [
      | [] ↦ failed_with (alloc (fail expected_brace p1)).1
      | c ∷ cs ↦
          if not (c == b'{')
          then failed_with (alloc (fail expected_brace p1)).1
          else object_rounds fuel flags parse 0 no_fields (advance 1 p1)
    ]

unfoldable pub store_item :
    (rounds : ℕ → Items → Parser → Parsed) (capacity : ℕ) → Items → Json → Parser → Parsed
store_item rounds capacity items element p =
    let (room, capacity', p') = make_room 1 (count_items items) capacity p in
    if not room
    then failed_with (fail out_of_memory p')
    else rounds capacity' (add_item items element) (skip_comma (skip_whitespace p'))

unfoldable pub array_rounds :
    (fuel : ℕ) → Flags → (parse : Parser → Parsed) (capacity : ℕ) → Items → Parser → Parsed
array_rounds zero flags parse capacity items p = hang
array_rounds (suc fuel) flags parse capacity items p =
    let rounds = λ (k : ℕ) (vs : Items) (q : Parser). array_rounds fuel flags parse k vs q in
    skip_blank (suc fuel) flags p >>= λ p1. elim p1.ahead [
      | [] ↦ ret (some (array capacity items), fail unterminated_array p1)
      | c ∷ cs ↦
          if c == b']'
          then ret (some (array capacity items), advance 1 p1)
          else with_value (parse p1) (λ element p2. store_item rounds capacity items element p2)
    ]

unfoldable pub parse_array : (fuel : ℕ) → Flags → (parse : Parser → Parsed) → Parser → Parsed
parse_array fuel flags parse p =
    let (given, p1) = alloc p in
    if not given then failed_with (fail out_of_memory p1) else elim p1.ahead [
      | [] ↦ failed_with (fail expected_bracket p1)
      | c ∷ cs ↦
          if not (c == b'[')
          then failed_with (fail expected_bracket p1)
          else array_rounds fuel flags parse 0 no_items (advance 1 p1)
    ]

-- `memcmp` with a word, and that it is inside the input.
abbrev pub starts_with : (word : List ℕ) → List ℕ → Bool
starts_with [] bs = true
starts_with (w ∷ ws) [] = false
starts_with (w ∷ ws) (b ∷ bs) = b == w && starts_with ws bs

-- `null`, `true` and `false`.
unfoldable pub parse_word : (word : List ℕ) → Json → Parser → Parsed
parse_word word v p =
    let (given, p1) = alloc (advance (length word) p) in
    if not (starts_with word p.ahead)
    then failed_with (fail unexpected_character p)
    else if given
    then ret (some v, p1)
    else failed_with (fail out_of_memory p1)

abbrev pub null_word : List ℕ
null_word = b'n' ∷ b'u' ∷ b'l' ∷ b'l' ∷ []

abbrev pub true_word : List ℕ
true_word = b't' ∷ b'r' ∷ b'u' ∷ b'e' ∷ []

abbrev pub false_word : List ℕ
false_word = b'f' ∷ b'a' ∷ b'l' ∷ b's' ∷ b'e' ∷ []

-- The cases of the switch on the first byte; `parse` parses with less fuel.
unfoldable pub dispatch :
    (fuel : ℕ) → Libc → Flags → (parse : Parser → Parsed) → (c : ℕ) → Parser → Parsed
dispatch fuel libc flags parse c p =
    if c == b'{'
    then parse_object fuel flags parse p
    else if c == b'['
    then parse_array fuel flags parse p
    else if c == 0x22 || c == 0x27
    then parse_string flags p
    else if c == b'n'
    then parse_word null_word null p
    else if c == b't'
    then parse_word true_word (boolean true) p
    else if c == b'f'
    then parse_word false_word (boolean false) p
    else if c == b'-' || c == b'+' || c == b'.' || is_digit c
    then parse_number libc p
    else if flags.allow_unquoted_keys
    then parse_string flags p
    else failed_with (fail unexpected_character p)

unfoldable pub parse_value : (fuel : ℕ) → Libc → Flags → Parser → Parsed
parse_value zero libc flags p = hang
parse_value (suc fuel) libc flags p =
    let parse = λ (q : Parser). parse_value fuel libc flags q in
    skip_blank (suc fuel) flags p >>= λ p1. elim p1.ahead [
      | [] ↦ failed_with (fail unexpected_end p1)
      | c ∷ cs ↦ dispatch fuel libc flags parse c p1
    ]

-- The end of `mp_json_parse`, once a value is parsed.
unfoldable pub finish : (fuel : ℕ) → Flags → Json → Parser → Parsed
finish fuel flags v p = skip_blank fuel flags p >>= λ p1. elim p1.ahead [
  | [] ↦ ret (some v, record p1 { root = some v })
  | c ∷ cs ↦ failed_with (fail trailing_data p1)
]

unfoldable pub parser_init : (input : List ℕ) (allocs : List Bool) → Parser
parser_init input allocs = record {
  input = input;
  ahead = input;
  position = 0;
  root = none;
  error = none;
  error_position = 0;
  allocs = allocs;
}

unfoldable pub json_parse : (fuel : ℕ) → Libc → Flags → Parser → Parsed
json_parse fuel libc flags p =
    with_value
      (parse_value fuel libc flags
        (record p { ahead = p.input; position = 0; error = none; error_position = 0 }))
      (finish fuel flags)
