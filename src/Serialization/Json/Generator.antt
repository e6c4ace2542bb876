-- ===== src/Serialization/Json/Generator.antt =====
-- The generator of src/serialization/json.c. The calls of its functions that write give a fault where
-- the code writes beyond the buffer.
pub mod Text
pub mod Writes
pub mod Says
pub mod Refines
use micro_posix.Prelude.{
  ℕ, zero, suc, Bool, true, false, Option, none, some, List, [], ltb, leb, size_mod, length, drop,
  ◌+◌, ◌-◌, ◌*◌, ◌/◌, ◌%◌, ◌||◌, ◌∷◌, ◌++◌, ◌==◌, if◌then◌else◌,
}
use micro_posix.Run.{Run, ret, fault, hang, ◌>>=◌}
use micro_posix.Serialization.Json.Value.{
  first_answer, Number, Libc, Items, Fields, Json, null, boolean, number, string, object, array,
  error, no_items, item, no_fields, field,
}

-- `mp_json_generator_t`. `bytes` are the first `position` bytes of the buffer, which is NULL where
-- `capacity` is 0. `answers` says of the calls that ask for memory to come, in order, which get it;
-- those beyond the list do. `indent_level` is not negative.
pub record Generator : Type 0 where
  pub bytes : List ℕ
  pub capacity : ℕ
  pub pretty_print : Bool
  pub indent_level : ℕ
  pub has_realloc : Bool
  pub answers : List Bool

abbrev pub Written : Type 0
Written = Run Generator

unfoldable pub generator_init : (capacity : ℕ) → Generator
generator_init capacity = record {
  bytes = [];
  capacity = capacity;
  pretty_print = false;
  indent_level = 0;
  has_realloc = false;
  answers = [];
}

-- The result is whether the code returns 0; the generator has no buffer where it does not.
unfoldable pub generator_init_with_allocator :
    (capacity : ℕ) (answers : List Bool) → Bool × Generator
generator_init_with_allocator capacity answers =
    let empty : Generator = record {
      bytes = [];
      capacity = 0;
      pretty_print = false;
      indent_level = 0;
      has_realloc = true;
      answers = answers;
    } in
    if capacity == 0 then (true, empty) else (
      first_answer answers,
      record empty {
        capacity = if first_answer answers then capacity else 0;
        answers = drop 1 answers;
      },
    )

unfoldable pub set_flags : (pretty : Bool) → Generator → Generator
set_flags pretty g = record g { pretty_print = pretty }

unfoldable pub set_indent : (indent : ℕ) → Generator → Generator
set_indent indent g = record g { indent_level = indent }

unfoldable pub generator_reset : Generator → Generator
generator_reset g = record g { bytes = [] }

-- `while (position + needed >= new_capacity) new_capacity *= 2;`, which does not end once the capacity
-- has wrapped to 0; after 32 rounds it has.
unfoldable pub double : (rounds needed new_capacity : ℕ) → Run ℕ
double zero needed new_capacity = hang
double (suc rounds) needed new_capacity =
    let rest = double rounds needed (new_capacity * 2 % size_mod) in
    if leb new_capacity needed then rest else ret new_capacity

-- `realloc_fn` for a larger buffer.
unfoldable pub resize : ℕ → Generator → Generator
resize new_capacity g =
    if g.has_realloc
    then record g {
      capacity = if first_answer g.answers then new_capacity else g.capacity;
      answers = drop 1 g.answers;
    }
    else g

unfoldable pub first_capacity : ℕ → ℕ
first_capacity capacity = if capacity == 0 then 256 else capacity * 2 % size_mod

unfoldable pub ensure_capacity : (needed : ℕ) → Generator → Written
ensure_capacity needed g =
    let total = (length g.bytes + needed) % size_mod in
    let grow =
      double 33 total (first_capacity g.capacity) >>= λ new_capacity. ret (resize new_capacity g) in
    if ltb total g.capacity then ret g else grow

-- Bytes and a NUL after them, put at the end of what is written.
unfoldable pub put : List ℕ → Generator → Written
put bytes g =
    if ltb (length g.bytes + length bytes) g.capacity
    then ret (record g { bytes = g.bytes ++ bytes })
    else fault

unfoldable pub write_char : ℕ → Generator → Written
write_char c g = ensure_capacity 1 g >>= λ g1.
    if ltb (length g1.bytes) g1.capacity then put (c ∷ []) g1 else ret g1

unfoldable pub write_string : List ℕ → Generator → Written
write_string str g = ensure_capacity (length str) g >>= λ g1.
    if ltb ((length g1.bytes + length str) % size_mod) g1.capacity then put str g1 else ret g1

unfoldable pub write_spaces : (level : ℕ) → Generator → Written
write_spaces zero g = ret g
write_spaces (suc level) g = write_string (b' ' ∷ b' ' ∷ []) g >>= λ g1. write_spaces level g1

unfoldable pub write_indent : Generator → Written
write_indent g = if g.pretty_print then write_spaces g.indent_level g else ret g

unfoldable pub write_newline : Generator → Written
write_newline g = if g.pretty_print then write_char 10 g else ret g

-- One digit of `%04x`.
abbrev pub hex_digit : ℕ → ℕ
hex_digit n = if ltb n 10 then b'0' + n else b'a' + (n - 10)

-- One byte of a string.
unfoldable pub write_escaped : ℕ → Generator → Written
write_escaped c g =
    if c == 0x22
    then write_string (0x5C ∷ 0x22 ∷ []) g
    else if c == 0x5C
    then write_string (0x5C ∷ 0x5C ∷ []) g
    else if c == 8
    then write_string (0x5C ∷ b'b' ∷ []) g
    else if c == 12
    then write_string (0x5C ∷ b'f' ∷ []) g
    else if c == 10
    then write_string (0x5C ∷ b'n' ∷ []) g
    else if c == 13
    then write_string (0x5C ∷ b'r' ∷ []) g
    else if c == 9
    then write_string (0x5C ∷ b't' ∷ []) g
    else if ltb c 32
    then write_string (0x5C ∷ b'u' ∷ b'0' ∷ b'0' ∷ hex_digit (c / 16) ∷ hex_digit (c % 16) ∷ []) g
    else write_char c g

unfoldable pub write_all_escaped : List ℕ → Generator → Written
write_all_escaped [] g = ret g
write_all_escaped (c ∷ cs) g = write_escaped c g >>= λ g1. write_all_escaped cs g1

unfoldable pub write_escaped_string : List ℕ → Generator → Written
write_escaped_string str g =
    write_char 0x22 g >>= λ g1. write_all_escaped str g1 >>= λ g2. write_char 0x22 g2

-- What comes before each member but the first, and before each member.
unfoldable pub write_separator : (first : Bool) → Generator → Written
write_separator first g =
    (if first then ret g else write_char b',' g >>= λ g1. write_newline g1) >>= λ g2.
    write_indent g2

-- The brackets and braces.
unfoldable pub write_opening : ℕ → Generator → Written
write_opening c g = write_char c g >>= λ g1. write_newline g1 >>= λ g2.
    ret (record g2 {
      indent_level = if g2.pretty_print then g2.indent_level + 1 else g2.indent_level;
    })

unfoldable pub write_closing : ℕ → Generator → Written
write_closing c g = write_newline g >>= λ g1.
    write_indent (record g1 {
      indent_level = if g1.pretty_print then g1.indent_level - 1 else g1.indent_level;
    })
    >>= λ g2. write_char c g2

unfoldable pub write_between : (start end : ℕ) (members : Generator → Written) → Generator → Written
write_between start end members g =
    write_opening start g >>= λ g1. members g1 >>= λ g2. write_closing end g2

-- The text of a number.
abbrev pub number_text : Libc → Number → List ℕ
number_text libc n =
    if n.is_integer || libc.double_eq n.value (libc.int_to_double n.integer_value)
    then libc.print_int n.integer_value
    else libc.print_double n.value

abbrev pub null_text : List ℕ
null_text = b'n' ∷ b'u' ∷ b'l' ∷ b'l' ∷ []

abbrev pub boolean_text : Bool → List ℕ
boolean_text true = b't' ∷ b'r' ∷ b'u' ∷ b'e' ∷ []
boolean_text false = b'f' ∷ b'a' ∷ b'l' ∷ b's' ∷ b'e' ∷ []

-- The bytes of a C string, up to its NUL.
abbrev pub c_string : List ℕ → List ℕ
c_string [] = []
c_string (c ∷ cs) = if c == 0 then [] else c ∷ c_string cs

-- `mp_json_to_string` without pretty printing, which a key that is not a string goes through: the text
-- is written to a buffer that starts with 256 bytes and then copied. Where the memory for either is
-- missing the caller reads through NULL.
unfoldable pub key_text :
    (generate : Generator → Written) (answers : List Bool) → Run (List ℕ × List Bool)
key_text generate answers =
    let (given, g) = generator_init_with_allocator 256 answers in
    let copy = generate g >>= λ g1.
    if first_answer g1.answers then ret (c_string g1.bytes, drop 1 g1.answers) else fault in
    if given then copy else fault

unfoldable pub write_key_text : (generate : Generator → Written) → Generator → Written
write_key_text generate g = key_text generate g.answers >>= λ (text, answers).
    write_escaped_string text (record g { answers = answers })

unfoldable pub write_colon : Generator → Written
write_colon g = write_char b':' g >>= λ g1. if g1.pretty_print then write_char b' ' g1 else ret g1

-- `generate_value`, `generate_array` and `generate_object`, which return 0 wherever they return.
unfoldable mutual
  pub generate_value : Libc → Json → Generator → Written
  generate_value libc null g = write_string null_text g
  generate_value libc (boolean b) g = write_string (boolean_text b) g
  generate_value libc (number n) g = write_string (number_text libc n) g
  generate_value libc (string s) g = write_escaped_string s g
  generate_value libc (object capacity entries) g =
      write_between b'{' b'}' (λ g1. generate_members libc true entries g1) g
  generate_value libc (array capacity items) g =
      write_between b'[' b']' (λ g1. generate_elements libc true items g1) g
  generate_value libc error g = write_string null_text g

  pub generate_elements : Libc → (first : Bool) → Items → Generator → Written
  generate_elements libc first no_items g = ret g
  generate_elements libc first (item v vs) g = write_separator first g >>= λ g1.
      generate_value libc v g1 >>= λ g2. generate_elements libc false vs g2

  pub generate_key : Libc → Json → Generator → Written
  generate_key libc (string s) g = write_escaped_string s g
  generate_key libc null g = write_key_text (λ g1. write_string null_text g1) g
  generate_key libc (boolean b) g = write_key_text (λ g1. write_string (boolean_text b) g1) g
  generate_key libc (number n) g = write_key_text (λ g1. write_string (number_text libc n) g1) g
  generate_key libc (object capacity entries) g =
      write_key_text
        (λ g1. write_between b'{' b'}' (λ g2. generate_members libc true entries g2) g1) g
  generate_key libc (array capacity items) g =
      write_key_text (λ g1. write_between b'[' b']' (λ g2. generate_elements libc true items g2) g1)
        g
  generate_key libc error g = write_key_text (λ g1. write_string null_text g1) g

  pub generate_members : Libc → (first : Bool) → Fields → Generator → Written
  generate_members libc first no_fields g = ret g
  generate_members libc first (field key v entries) g = write_separator first g >>= λ g1.
      generate_key libc key g1 >>= λ g2. write_colon g2 >>= λ g3.
      generate_value libc v g3 >>= λ g4. generate_members libc false entries g4

unfoldable pub generate : Libc → Json → Generator → Written
generate libc v g = generate_value libc v (record g { bytes = [] })

-- `mp_json_to_string`, or none where memory is missing.
unfoldable pub json_to_string :
    Libc → (pretty : Bool) → Json → (answers : List Bool) → Run (Option (List ℕ))
json_to_string libc pretty v answers =
    let (given, g) = generator_init_with_allocator 256 answers in
    let copy = generate libc v (record g { pretty_print = pretty }) >>= λ g1.
    ret (if first_answer g1.answers then some (c_string g1.bytes) else none) in
    if given then copy else ret none
