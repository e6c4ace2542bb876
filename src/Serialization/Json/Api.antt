-- ===== src/Serialization/Json/Api.antt =====
-- The functions of src/serialization/json.c on values. `answers` says of the calls that ask for memory
-- to come, in order, which get it; those beyond the list do. A pointer that may be NULL is an Option.
pub mod Members
use micro_posix.Prelude.{
  ℕ, zero, suc, Bool, true, false, not, Option, none, some, List, leb, bytes_equal, drop, ◌&&◌,
  ◌==◌, ◌||◌, if◌then◌else◌,
}
use micro_posix.Serialization.Json.Value.{
  count_items, count_fields, add_item, add_field, grown, first_answer, Libc, Items, Fields, Json,
  null, boolean, number, string, object, array, error, no_items, item, no_fields, field,
}
use micro_posix.Serialization.Json.Generator.{c_string}

-- A value that is created, and the answers that are left.
abbrev pub Created : Type 0
Created = Option Json × List Bool

unfoldable pub create : Json → List Bool → Created
create v answers = (if first_answer answers then some v else none, drop 1 answers)

unfoldable pub json_null : List Bool → Created
json_null answers = create null answers

unfoldable pub json_boolean : Bool → List Bool → Created
json_boolean b answers = create (boolean b) answers

unfoldable pub json_number : Libc → ℕ → List Bool → Created
json_number libc val answers =
    create
      (number (record { value = val; is_integer = false; integer_value = libc.double_to_int val }))
      answers

unfoldable pub json_integer : Libc → ℕ → List Bool → Created
json_integer libc val answers =
    create
      (number (record { value = libc.int_to_double val; is_integer = true; integer_value = val }))
      answers

-- Two blocks of memory: the value and the copy of the bytes.
unfoldable pub json_string_with_length : List ℕ → List Bool → Created
json_string_with_length bytes answers =
    let copied = create (string bytes) (drop 1 answers) in
    if first_answer answers then copied else (none, drop 1 answers)

unfoldable pub json_string : Option (List ℕ) → List Bool → Created
json_string none answers = json_null answers
json_string (some val) answers = json_string_with_length (c_string val) answers

unfoldable pub json_string_owning : List ℕ → List Bool → Created
json_string_owning bytes answers = create (string bytes) answers

unfoldable pub json_object : List Bool → Created
json_object answers = create (object 0 no_fields) answers

unfoldable pub json_array : List Bool → Created
json_array answers = create (array 0 no_items) answers

-- What a call that adds to an object or an array leaves: the value is in it, it is as before, or its
-- arrays are freed while it still points to them.
pub data Added : Type 0 where
  added : Json → Added
  refused : Json → Added
  dangling : Added

-- The end of `mp_json_object_add_owning`, with room for a member.
unfoldable pub append_member :
    (capacity : ℕ) → Fields → (key : List ℕ) (value : Json) → List Bool → Added × List Bool
append_member capacity entries key value answers =
    let (k, answers') = json_string (some key) answers in
    (
      elim k [
        | none ↦ refused (object capacity entries)
        | some name ↦ added (object capacity (add_field entries name value))
      ],
      answers',
    )

-- With capacity 0 the arrays are NULL, and a `realloc` of one frees nothing of the object's.
unfoldable pub add_to_object :
    (capacity : ℕ) → Fields → (key : List ℕ) (value : Json) → List Bool → Added × List Bool
add_to_object capacity entries key value answers =
    let keys = first_answer answers in
    let values = first_answer (drop 1 answers) in
    if not (leb capacity (count_fields entries))
    then append_member capacity entries key value answers
    else if keys && values
    then append_member (grown capacity) entries key value (drop 2 answers)
    else if not (capacity == 0) && (keys || values)
    then (dangling, drop 2 answers)
    else (refused (object capacity entries), drop 2 answers)

unfoldable pub object_add_owning :
    Json → (key : List ℕ) → Option Json → List Bool → Added × List Bool
object_add_owning v key none answers = (refused v, answers)
object_add_owning (object capacity entries) key (some value) answers =
    add_to_object capacity entries key value answers
object_add_owning null key (some value) answers = (refused null, answers)
object_add_owning (boolean b) key (some value) answers = (refused (boolean b), answers)
object_add_owning (number n) key (some value) answers = (refused (number n), answers)
object_add_owning (string s) key (some value) answers = (refused (string s), answers)
object_add_owning (array capacity items) key (some value) answers =
    (refused (array capacity items), answers)
object_add_owning error key (some value) answers = (refused error, answers)

abbrev is_object : Json → Bool
is_object (object capacity entries) = true
is_object _ = false

-- `mp_json_object_add`, with the string that it makes and does not use.
unfoldable pub object_add :
    Json → (key : Option (List ℕ)) → Option Json → List Bool → Added × List Bool
object_add v none value answers = (refused v, answers)
object_add v (some key) value answers =
    let (unused, answers') = json_string (some key) answers in
    if not (is_object v) then (refused v, answers) else elim unused [
      | none ↦ (refused v, answers')
      | some s ↦ object_add_owning v key value answers'
    ]

-- `strcmp` with a key, which has to be a string.
abbrev pub key_matches : (key : List ℕ) → Json → Bool
key_matches key (string s) = bytes_equal (c_string s) (c_string key)
key_matches key _ = false

unfoldable pub find_member : (key : List ℕ) → Fields → Option Json
find_member key no_fields = none
find_member key (field k v entries) =
    let rest = find_member key entries in if key_matches key k then some v else rest

unfoldable pub object_get : Json → (key : List ℕ) → Option Json
object_get (object capacity entries) key = find_member key entries
object_get _ key = none

unfoldable pub object_has : Json → (key : List ℕ) → Bool
object_has v key = elim (object_get v key) [ none ↦ false | some w ↦ true ]

-- The members without the first whose key matches.
unfoldable pub remove_member : (key : List ℕ) → Fields → Fields
remove_member key no_fields = no_fields
remove_member key (field k v entries) =
    let rest = field k v (remove_member key entries) in if key_matches key k then entries else rest

-- The value that is taken out, and the object after that.
unfoldable pub object_remove : Json → (key : List ℕ) → Option Json × Json
object_remove (object capacity entries) key =
    (find_member key entries, object capacity (remove_member key entries))
object_remove v key = (none, v)

unfoldable pub object_size : Json → ℕ
object_size (object capacity entries) = count_fields entries
object_size _ = 0

unfoldable pub add_to_array : (capacity : ℕ) → Items → Json → List Bool → Added × List Bool
add_to_array capacity items value answers =
    if not (leb capacity (count_items items))
    then (added (array capacity (add_item items value)), answers)
    else if first_answer answers
    then (added (array (grown capacity) (add_item items value)), drop 1 answers)
    else (refused (array capacity items), drop 1 answers)

unfoldable pub array_add : Json → Option Json → List Bool → Added × List Bool
array_add v none answers = (refused v, answers)
array_add (array capacity items) (some value) answers = add_to_array capacity items value answers
array_add null (some value) answers = (refused null, answers)
array_add (boolean b) (some value) answers = (refused (boolean b), answers)
array_add (number n) (some value) answers = (refused (number n), answers)
array_add (string s) (some value) answers = (refused (string s), answers)
array_add (object capacity entries) (some value) answers =
    (refused (object capacity entries), answers)
array_add error (some value) answers = (refused error, answers)

unfoldable pub nth_item : Items → ℕ → Option Json
nth_item no_items index = none
nth_item (item v vs) zero = some v
nth_item (item v vs) (suc index) = nth_item vs index

unfoldable pub array_get : Json → (index : ℕ) → Option Json
array_get (array capacity items) index = nth_item items index
array_get _ index = none

unfoldable pub array_size : Json → ℕ
array_size (array capacity items) = count_items items
array_size _ = 0

unfoldable pub get_boolean : Json → Bool
get_boolean (boolean b) = b
get_boolean _ = false

-- 0 is the bit pattern of 0.0 too.
unfoldable pub get_number : Json → ℕ
get_number (number n) = n.value
get_number _ = 0

unfoldable pub get_integer : Json → ℕ
get_integer (number n) = n.integer_value
get_integer _ = 0

unfoldable pub get_string : Json → Option (List ℕ)
get_string (string s) = some s
get_string _ = none
