-- ===== src/Serialization/Json/Generator/Text.antt =====
-- The text that stands for a value.
use micro_posix.Prelude.{
  ℕ, zero, suc, Bool, true, false, List, [], ltb, ◌+◌, ◌/◌, ◌%◌, ◌≡◌, ◌∷◌, ◌++◌, ◌==◌,
  if◌then◌else◌,
}
use micro_posix.Serialization.Json.Value.{
  is_string, Libc, Items, Fields, Json, null, boolean, number, string, object, array, error,
  no_items, item, no_fields, field,
}
use micro_posix.Serialization.Json.Generator.{hex_digit, number_text, null_text, boolean_text}

-- A line's end and the indentation of the next, when printing is pretty.
abbrev pub newline : (pretty : Bool) → List ℕ
newline pretty = if pretty then 10 ∷ [] else []

abbrev pub blanks : (level : ℕ) → List ℕ
blanks zero = []
blanks (suc level) = b' ' ∷ b' ' ∷ blanks level

abbrev pub indentation : (pretty : Bool) (level : ℕ) → List ℕ
indentation pretty level = if pretty then blanks level else []

abbrev pub escape : ℕ → List ℕ
escape c =
    if c == 0x22
    then 0x5C ∷ 0x22 ∷ []
    else if c == 0x5C
    then 0x5C ∷ 0x5C ∷ []
    else if c == 8
    then 0x5C ∷ b'b' ∷ []
    else if c == 12
    then 0x5C ∷ b'f' ∷ []
    else if c == 10
    then 0x5C ∷ b'n' ∷ []
    else if c == 13
    then 0x5C ∷ b'r' ∷ []
    else if c == 9
    then 0x5C ∷ b't' ∷ []
    else if ltb c 32
    then 0x5C ∷ b'u' ∷ b'0' ∷ b'0' ∷ hex_digit (c / 16) ∷ hex_digit (c % 16) ∷ []
    else c ∷ []

abbrev pub escape_all : List ℕ → List ℕ
escape_all [] = []
escape_all (c ∷ cs) = escape c ++ escape_all cs

abbrev pub quoted : List ℕ → List ℕ
quoted s = 0x22 ∷ escape_all s ++ 0x22 ∷ []

-- Members in their brackets.
abbrev pub between : (pretty : Bool) (level start end : ℕ) → List ℕ → List ℕ
between pretty level start end members =
    start
    ∷ (newline pretty ++ (members ++ (newline pretty ++ (indentation pretty level ++ (end ∷ [])))))

abbrev pub separator : (pretty : Bool) (level : ℕ) (first : Bool) → List ℕ
separator pretty level first =
    (if first then [] else b',' ∷ newline pretty) ++ indentation pretty level

abbrev pub colon : (pretty : Bool) → List ℕ
colon pretty = b':' ∷ (if pretty then b' ' ∷ [] else [])

abbrev pub deeper : (pretty : Bool) (level : ℕ) → ℕ
deeper pretty level = if pretty then level + 1 else level

-- The text of a value at a level of indentation. A key that is not a string is left out of it.
unfoldable mutual
  pub value_text : Libc → (pretty : Bool) (level : ℕ) → Json → List ℕ
  value_text libc pretty level null = null_text
  value_text libc pretty level (boolean b) = boolean_text b
  value_text libc pretty level (number n) = number_text libc n
  value_text libc pretty level (string s) = quoted s
  value_text libc pretty level (object capacity entries) =
      between pretty level b'{' b'}' (members_text libc pretty (deeper pretty level) true entries)
  value_text libc pretty level (array capacity items) =
      between pretty level b'[' b']' (elements_text libc pretty (deeper pretty level) true items)
  value_text libc pretty level error = null_text

  pub elements_text : Libc → (pretty : Bool) (level : ℕ) (first : Bool) → Items → List ℕ
  elements_text libc pretty level first no_items = []
  elements_text libc pretty level first (item v vs) =
      separator pretty level first
      ++ (value_text libc pretty level v ++ elements_text libc pretty level false vs)

  pub members_text : Libc → (pretty : Bool) (level : ℕ) (first : Bool) → Fields → List ℕ
  members_text libc pretty level first no_fields = []
  members_text libc pretty level first (field key v entries) =
      separator pretty level first
      ++ (key_of key
          ++ (colon pretty
              ++ (value_text libc pretty level v ++ members_text libc pretty level false entries)))

  pub key_of : Json → List ℕ
  key_of (string s) = quoted s
  key_of null = []
  key_of (boolean b) = []
  key_of (number n) = []
  key_of (object capacity entries) = []
  key_of (array capacity items) = []
  key_of error = []

-- Each key of an object is a string, at every depth.
abbrev mutual
  pub StringKeys : Json → Type 0
  StringKeys null = Unit {0}
  StringKeys (boolean b) = Unit {0}
  StringKeys (number n) = Unit {0}
  StringKeys (string s) = Unit {0}
  StringKeys (object capacity entries) = MemberKeys entries
  StringKeys (array capacity items) = ElementKeys items
  StringKeys error = Unit {0}

  pub ElementKeys : Items → Type 0
  ElementKeys no_items = Unit {0}
  ElementKeys (item v vs) = StringKeys v × ElementKeys vs

  pub MemberKeys : Fields → Type 0
  MemberKeys no_fields = Unit {0}
  MemberKeys (field key v entries) = (is_string key ≡ true) × StringKeys v × MemberKeys entries
