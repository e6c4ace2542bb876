-- ===== src/Serialization/Json/Value.antt =====
-- The values of src/serialization/json.c, and what it takes from the C library.
use micro_posix.Prelude.{
  ℕ, suc, Bool, true, false, List, [], size_mod, ◌*◌, ◌%◌, ◌∷◌, ◌==◌, if◌then◌else◌,
}

-- `mp_json_number_t`: the bit patterns of a double and of an int64_t.
pub record Number : Type 0 where
  pub value : ℕ
  pub is_integer : Bool
  pub integer_value : ℕ

-- `mp_json_value_t`. A string is given by its bytes, and its memory is its own. An object and an array
-- have the number of elements that their memory has room for, and their elements in order.
mutual
  pub data Json : Type 0 where
    null : Json
    boolean : Bool → Json
    number : Number → Json
    string : List ℕ → Json
    object : (capacity : ℕ) → Fields → Json
    array : (capacity : ℕ) → Items → Json
    error : Json

  pub data Items : Type 0 where
    no_items : Items
    item : Json → Items → Items

  pub data Fields : Type 0 where
    no_fields : Fields
    field : (key value : Json) → Fields → Fields

abbrev pub count_items : Items → ℕ
count_items no_items = 0
count_items (item v vs) = suc (count_items vs)

abbrev pub count_fields : Fields → ℕ
count_fields no_fields = 0
count_fields (field k v fs) = suc (count_fields fs)

-- `elements[count++] = v`, and the same for a key and its value.
abbrev pub add_item : Items → Json → Items
add_item no_items v = item v no_items
add_item (item w vs) v = item w (add_item vs v)

abbrev pub add_field : Fields → (key value : Json) → Fields
add_field no_fields k v = field k v no_fields
add_field (field j w fs) k v = field j w (add_field fs k v)

-- Whether the type is MP_JSON_STRING.
abbrev pub is_string : Json → Bool
is_string (string s) = true
is_string _ = false

-- The conversions of numbers that json.c calls: bit patterns of an int64_t or a double, and texts.
pub record Libc : Type 0 where
  pub strtoll : List ℕ → ℕ
  pub strtod : List ℕ → ℕ
  pub int_to_double : ℕ → ℕ
  pub double_to_int : ℕ → ℕ
  pub print_int : ℕ → List ℕ
  pub print_double : ℕ → List ℕ
  pub double_eq : ℕ → ℕ → Bool

-- `capacity == 0 ? 8 : capacity * 2`, in 32 bits.
abbrev pub grown : ℕ → ℕ
grown capacity = if capacity == 0 then 8 else capacity * 2 % size_mod

-- Whether the next call that asks for memory gets it; the calls beyond the list do.
abbrev pub first_answer : List Bool → Bool
first_answer [] = true
first_answer (b ∷ bs) = b
