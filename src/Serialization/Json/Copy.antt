-- ===== src/Serialization/Json/Copy.antt =====
-- `mp_json_deep_copy` and `mp_json_equal` of src/serialization/json.c. A fault is the use of a value as
-- a string that is none, or of memory that is freed.
pub mod Same
pub mod Loops
use micro_posix.Prelude.{
  ℕ, Bool, true, false, not, Option, none, some, List, bytes_equal, ◌&&◌, ◌==◌, if◌then◌else◌,
}
use micro_posix.Run.{Run, ret, fault, ◌>>=◌}
use micro_posix.Serialization.Json.Value.{
  count_items, count_fields, Number, Libc, Items, Fields, Json, null, boolean, number, string,
  object, array, error, no_items, item, no_fields, field,
}
use micro_posix.Serialization.Json.Generator.{c_string}
use micro_posix.Serialization.Json.Api.{
  Created, json_null, json_boolean, json_number, json_integer, json_string_with_length, json_object,
  json_array, object_add_owning, object_get, array_add, Added, added, refused, dangling,
}

abbrev pub Copied : Type 0
Copied = Run Created

-- The loop goes on with what it has added to; after a call of `mp_json_object_add_owning` that fails,
-- the value is freed twice.
unfoldable pub after_member : (next : Json → List Bool → Copied) → Added × List Bool → Copied
after_member next (added v, answers) = next v answers
after_member next (refused v, answers) = fault
after_member next (dangling, answers) = fault

unfoldable pub after_element : (next : Json → List Bool → Copied) → Added × List Bool → Copied
after_element next (added v, answers) = next v answers
after_element next (refused v, answers) = ret (none, answers)
after_element next (dangling, answers) = fault

-- A member whose key and value are copied.
unfoldable pub add_copies :
    (next : Json → List Bool → Copied)
    → (copy : Json) (key value : Option Json) → List Bool
    → Copied
add_copies next copy none value answers = ret (none, answers)
add_copies next copy (some key) none answers = ret (none, answers)
add_copies next copy (some (string name)) (some value) answers =
    after_member next (object_add_owning copy (c_string name) (some value) answers)
add_copies next copy (some _) (some value) answers = fault

unfoldable pub start_copy : (loop : Json → List Bool → Copied) → Created → Copied
start_copy loop (none, answers) = ret (none, answers)
start_copy loop (some v, answers) = loop v answers

unfoldable mutual
  pub deep_copy : Libc → Json → List Bool → Copied
  deep_copy libc null answers = ret (json_null answers)
  deep_copy libc (boolean b) answers = ret (json_boolean b answers)
  deep_copy libc (number n) answers =
      if n.is_integer
      then ret (json_integer libc n.integer_value answers)
      else ret (json_number libc n.value answers)
  deep_copy libc (string s) answers = ret (json_string_with_length s answers)
  deep_copy libc (object capacity entries) answers =
      start_copy (λ copy answers'. copy_members libc copy entries answers') (json_object answers)
  deep_copy libc (array capacity items) answers =
      start_copy (λ copy answers'. copy_elements libc copy items answers') (json_array answers)
  deep_copy libc error answers = ret (none, answers)

  pub copy_elements : Libc → (copy : Json) → Items → List Bool → Copied
  copy_elements libc copy no_items answers = ret (some copy, answers)
  copy_elements libc copy (item v vs) answers = deep_copy libc v answers >>= λ (out, answers').
      elim out [
        | none ↦ ret (none, answers')
        | some w ↦
            after_element (λ copy' more. copy_elements libc copy' vs more)
              (array_add copy (some w) answers')
      ]

  pub copy_members : Libc → (copy : Json) → Fields → List Bool → Copied
  copy_members libc copy no_fields answers = ret (some copy, answers)
  copy_members libc copy (field key v entries) answers =
      deep_copy libc key answers >>= λ (k, answers'). deep_copy libc v answers' >>= λ (w, more).
      add_copies (λ copy' rest. copy_members libc copy' entries rest) copy k w more

abbrev is_null : Json → Bool
is_null null = true
is_null _ = false

abbrev equal_boolean : Bool → Json → Bool
equal_boolean true (boolean b) = b
equal_boolean false (boolean b) = not b
equal_boolean a _ = false

abbrev equal_number : Libc → Number → Json → Bool
equal_number libc m (number n) =
    if m.is_integer && n.is_integer
    then m.integer_value == n.integer_value
    else libc.double_eq m.value n.value
equal_number libc m _ = false

abbrev equal_string : List ℕ → Json → Bool
equal_string s (string t) = bytes_equal s t
equal_string s _ = false

-- An object that has as many members; an array that has as many elements, with its elements.
abbrev same_size_object : ℕ → Json → Bool
same_size_object n (object capacity entries) = n == count_fields entries
same_size_object n _ = false

abbrev same_size_items : ℕ → Json → Option Items
same_size_items n (array capacity items) = if n == count_items items then some items else none
same_size_items n _ = none

abbrev and_then : Run Bool → Run Bool → Run Bool
and_then m rest = m >>= λ b. if b then rest else ret false

-- A member of `b` that is equal to one of `a`, where there is one.
abbrev when_found : (equal : Json → Run Bool) → Option Json → Run Bool
when_found equal none = ret false
when_found equal (some w) = equal w

unfoldable mutual
  pub json_equal : Libc → (a b : Json) → Run Bool
  json_equal libc null b = ret (is_null b)
  json_equal libc (boolean x) b = ret (equal_boolean x b)
  json_equal libc (number n) b = ret (equal_number libc n b)
  json_equal libc (string s) b = ret (equal_string s b)
  json_equal libc (object capacity entries) b =
      and_then (ret (same_size_object (count_fields entries) b)) (equal_members libc entries b)
  json_equal libc (array capacity items) b = elim (same_size_items (count_items items) b) [
    | none ↦ ret false
    | some others ↦ equal_elements libc items others
  ]
  json_equal libc error b = ret false

  pub equal_elements : Libc → (items others : Items) → Run Bool
  equal_elements libc no_items others = ret true
  equal_elements libc (item v vs) no_items = ret true
  equal_elements libc (item v vs) (item w ws) =
      and_then (json_equal libc v w) (equal_elements libc vs ws)

  pub equal_members : Libc → Fields → (b : Json) → Run Bool
  equal_members libc no_fields b = ret true
  equal_members libc (field (string key) v entries) b =
      and_then (when_found (λ w. json_equal libc v w) (object_get b key))
        (equal_members libc entries b)
  equal_members libc (field _ v entries) b = fault
