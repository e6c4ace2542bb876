-- ===== src/Serialization/Json/Copy/Loops.antt =====
-- A deep copy has the text of the value.
use micro_posix.Prelude.{
  ℕ, refl, sym, ap, subst, inl, inr, Bool, true, false, not, none, some, List, [], leb, ◌≡◌, ◌∙◌,
  ◌||◌, ◌∷◌, if◌then◌else◌,
}
use micro_posix.Run.{Returns-bind, Returns-map, Returns-if, Returns, ret, returns}
use micro_posix.Serialization.Json.Value.{
  count_items, count_fields, add_item, add_field, grown, Number, Libc, Items, Fields, Json, null,
  boolean, number, string, object, array, error, no_items, item, no_fields, field,
}
use micro_posix.Serialization.Json.Generator.{number_text, c_string}
use micro_posix.Serialization.Json.Generator.Text.{
  between, deeper, value_text, elements_text, members_text,
}
use micro_posix.Serialization.Json.Api.{
  Created, create, json_null, json_boolean, json_number, json_integer, json_string_with_length,
  json_string, json_object, json_array, append_member, add_to_object, object_add_owning,
  add_to_array, array_add, Added, added,
}
use micro_posix.Serialization.Json.Copy.{
  Copied, after_member, after_element, add_copies, start_copy, deep_copy, copy_elements,
  copy_members,
}
use micro_posix.Serialization.Json.Copy.Same.{
  IsNumber, IsCopyable, AreElements, AreMembers, SameText, SameItems, SameFields, join_items,
  join_fields, SameItems-step, SameFields-step,
}

-- The call gives a value, of which `P` holds, with memory given for all that is asked.
abbrev pub Given : (Json → Type 0) → Created → Type 0
Given P (none, answers) = ⊥
Given P (some w, []) = P w
Given P (some w, a ∷ answers) = ⊥

module _ (libc : Libc) where
  IsArray : Items → Json → Type 0
  IsArray xs w =
      (capacity : ℕ) × (items : Items) × (w ≡ array capacity items) × SameItems libc items xs

  IsObject : Fields → Json → Type 0
  IsObject xs w =
      (capacity : ℕ) × (entries : Fields) × (w ≡ object capacity entries)
      × SameFields libc entries xs

  -- With memory an element and a member are added.
  array_add-room :
      (capacity : ℕ) (done : Items) (w : Json)
      → (room : ℕ) × (array_add (array capacity done) (some w) []
          ≡ (added (array room (add_item done w)), []))
  unfolding array_add add_to_array
  array_add-room capacity done w = pick (leb capacity (count_items done))
    where
      pick :
          (b : Bool)
          → (room : ℕ) × (◌≡◌ {A = Added × List Bool}
              (if not b
                then (added (array capacity (add_item done w)), [])
                else (added (array (grown capacity) (add_item done w)), []))
              (added (array room (add_item done w)), []))
      pick true = (grown capacity, refl)
      pick false = (capacity, refl)

  object_add_owning-room :
      (capacity : ℕ) (done : Fields) (key : List ℕ) (w : Json)
      → c_string key ≡ key
      → (room : ℕ) × (object_add_owning (object capacity done) (c_string key) (some w) []
          ≡ (added (object room (add_field done (string key) w)), []))
  unfolding object_add_owning add_to_object append_member json_string json_string_with_length create
  object_add_owning-room capacity done key w e = rw (e, e) (pick (leb capacity (count_fields done)))
    where
      pick :
          (b : Bool)
          → (room : ℕ) × (◌≡◌ {A = Added × List Bool}
              (if not b
                then (added (object capacity (add_field done (string key) w)), [])
                else (added (object (grown capacity) (add_field done (string key) w)), []))
              (added (object room (add_field done (string key) w)), []))
      pick true = (grown capacity, refl)
      pick false = (capacity, refl)

  number-SameText :
      (n : Number)
      → IsNumber libc n
      → Returns (Given (λ w. SameText libc w (number n))) (deep_copy libc (number n) [])
  unfolding deep_copy json_integer json_number create value_text
  number-SameText n h =
      let same = libc.double_eq n.value (libc.int_to_double n.integer_value) in
      Returns-if n.is_integer
        (λ e.
          let m : Number = record {
            value = libc.int_to_double n.integer_value;
            is_integer = true;
            integer_value = n.integer_value;
          } in
          returns {a = (some (number m), [])} (λ pretty level. sym (
            ap
              (λ b. if b || same then libc.print_int n.integer_value else libc.print_double n.value)
              e)))
        (λ e.
          let m : Number = record {
            value = n.value;
            is_integer = false;
            integer_value = libc.double_to_int n.value;
          } in
          returns {a = (some (number m), [])} (λ pretty level. float_text e h))
    where
      float_text :
          n.is_integer ≡ false
          → IsNumber libc n
          → number_text libc (record {
            value = n.value;
            is_integer = false;
            integer_value = libc.double_to_int n.value;
          })
            ≡ number_text libc n
      float_text e (inl k) = cc
      float_text e (inr k) =
          ap
            (λ i.
              if libc.double_eq n.value (libc.int_to_double i)
              then libc.print_int i
              else libc.print_double n.value)
            (sym k)
          ∙ sym (
              ap
                (λ b.
                  if b || libc.double_eq n.value (libc.int_to_double n.integer_value)
                  then libc.print_int n.integer_value
                  else libc.print_double n.value)
                e)

  Given-map :
      {P Q : Json → Type 0} → ((w : Json) → P w → Q w) → (c : Created) → Given P c → Given Q c
  Given-map f (none, answers) g = absurd g
  Given-map f (some w, []) g = f w g
  Given-map f (some w, a ∷ answers) g = absurd g

  join_items-no_items : (xs : Items) → join_items xs no_items ≡ xs
  unfolding join_items
  join_items-no_items no_items = refl
  join_items-no_items (item v vs) = ap (item v) (join_items-no_items vs)

  join_fields-no_fields : (xs : Fields) → join_fields xs no_fields ≡ xs
  unfolding join_fields
  join_fields-no_fields no_fields = refl
  join_fields-no_fields (field k v vs) = ap (field k v) (join_fields-no_fields vs)

  -- A round of the loops, with the rest of the loop as `next`.
  element-IsArray :
      (done vs : Items) (v : Json) (capacity : ℕ) (next : Json → List Bool → Copied)
      → ((room : ℕ) (w : Json)
          → Returns
              (Given (IsArray (join_items (add_item done w) vs)))
              (next (array room (add_item done w)) []))
      → (c : Created) → Given (λ w. SameText libc w v) c
      → Returns (Given (IsArray (join_items done (item v vs)))) (elim c.0 [
        | none ↦ ret (none, c.1)
        | some w ↦ after_element next (array_add (array capacity done) (some w) c.1)
      ])
  unfolding after_element IsArray
  element-IsArray done vs v capacity next h (none, answers) g = absurd g
  element-IsArray done vs v capacity next h (some w, a ∷ answers) g = absurd g
  element-IsArray done vs v capacity next h (some w, []) g =
      let (room, e) = array_add-room capacity done w in
      subst (λ r. Returns (Given (IsArray (join_items done (item v vs)))) (after_element next r))
        (sym e)
        (Returns-map
          (λ c.
            Given-map
              (λ u (n, items, q, same). (n, items, q, SameItems-step libc done vs items v w g same))
              c)
          (h room w))

  member-IsObject :
      (done entries : Fields) (key : List ℕ) (v : Json) (capacity : ℕ)
      (next : Json → List Bool → Copied)
      → c_string key ≡ key
      → ((room : ℕ) (w : Json)
          → Returns
              (Given (IsObject (join_fields (add_field done (string key) w) entries)))
              (next (object room (add_field done (string key) w)) []))
      → (c : Created) → Given (λ w. SameText libc w v) c
      → Returns
          (Given (IsObject (join_fields done (field (string key) v entries))))
          (add_copies next (object capacity done) (some (string key)) c.0 c.1)
  unfolding add_copies after_member IsObject
  member-IsObject done entries key v capacity next e h (none, answers) g = absurd g
  member-IsObject done entries key v capacity next e h (some w, a ∷ answers) g = absurd g
  member-IsObject done entries key v capacity next e h (some w, []) g =
      let (room, q) = object_add_owning-room capacity done key w e in
      subst
        (λ r.
          Returns (Given (IsObject (join_fields done (field (string key) v entries))))
            (after_member next r))
        (sym q)
        (Returns-map
          (λ c.
            Given-map
              (λ u (n, xs, p, same).
                (n, xs, p, SameFields-step libc done entries xs (string key) v w g same))
              c)
          (h room w))

  array-SameText :
      (capacity : ℕ) (items : Items) (w : Json)
      → IsArray items w
      → SameText libc w (array capacity items)
  unfolding IsArray SameItems value_text
  array-SameText capacity items w (n, xs, e, same) = λ pretty level.
      ap (value_text libc pretty level) e
      ∙ ap (between pretty level b'[' b']') (same pretty (deeper pretty level) true)

  object-SameText :
      (capacity : ℕ) (entries : Fields) (w : Json)
      → IsObject entries w
      → SameText libc w (object capacity entries)
  unfolding IsObject SameFields value_text
  object-SameText capacity entries w (n, xs, e, same) = λ pretty level.
      ap (value_text libc pretty level) e
      ∙ ap (between pretty level b'{' b'}') (same pretty (deeper pretty level) true)

  mutual
    unfolding deep_copy start_copy json_null json_boolean json_string_with_length json_array
        json_object create IsArray IsObject SameItems SameFields join_items join_fields

    value-SameText :
        (v : Json)
        → IsCopyable libc v
        → Returns (Given (λ w. SameText libc w v)) (deep_copy libc v [])
    value-SameText null h = returns {a = (some null, [])} (λ pretty level. refl)
    value-SameText (boolean b) h = returns {a = (some (boolean b), [])} (λ pretty level. refl)
    value-SameText (number n) h = number-SameText n h
    value-SameText (string s) h = returns {a = (some (string s), [])} (λ pretty level. refl)
    value-SameText (object capacity entries) h =
        Returns-map (λ c. Given-map (λ w. object-SameText capacity entries w) c)
          (copy_members-IsObject entries 0 no_fields h)
    value-SameText (array capacity items) h =
        Returns-map (λ c. Given-map (λ w. array-SameText capacity items w) c)
          (copy_elements-IsArray items 0 no_items h)
    value-SameText error h = absurd h

    copy_elements-IsArray :
        (vs : Items) (capacity : ℕ) (done : Items)
        → AreElements libc vs
        → Returns
            (Given (IsArray (join_items done vs)))
            (copy_elements libc (array capacity done) vs [])
    copy_elements-IsArray no_items capacity done h =
        returns {a = (some (array capacity done), [])} (
          capacity,
          done,
          refl,
          λ pretty level first.
              ap (elements_text libc pretty level first) (sym (join_items-no_items done)),
        )
    copy_elements-IsArray (item v vs) capacity done (h, hs) = Returns-bind (value-SameText v h) (
        element-IsArray done vs v capacity (λ copy more. copy_elements libc copy vs more)
          (λ room w. copy_elements-IsArray vs room (add_item done w) hs))

    copy_members-IsObject :
        (entries : Fields) (capacity : ℕ) (done : Fields)
        → AreMembers libc entries
        → Returns
            (Given (IsObject (join_fields done entries)))
            (copy_members libc (object capacity done) entries [])
    copy_members-IsObject no_fields capacity done h =
        returns {a = (some (object capacity done), [])} (
          capacity,
          done,
          refl,
          λ pretty level first.
              ap (members_text libc pretty level first) (sym (join_fields-no_fields done)),
        )
    copy_members-IsObject (field (string key) v entries) capacity done (e, h, hs) =
        Returns-bind (value-SameText v h) (
          member-IsObject done entries key v capacity
            (λ copy rest. copy_members libc copy entries rest) e
            (λ room w. copy_members-IsObject entries room (add_field done (string key) w) hs))
    copy_members-IsObject (field null v entries) capacity done (e, h, hs) = absurd e
    copy_members-IsObject (field (boolean b) v entries) capacity done (e, h, hs) = absurd e
    copy_members-IsObject (field (number n) v entries) capacity done (e, h, hs) = absurd e
    copy_members-IsObject (field (object c es) v entries) capacity done (e, h, hs) = absurd e
    copy_members-IsObject (field (array c vs) v entries) capacity done (e, h, hs) = absurd e
    copy_members-IsObject (field error v entries) capacity done (e, h, hs) = absurd e

-- A deep copy of a value whose keys are C strings, with no error in it, and whose numbers that are no
-- integers have the integer of their double, ends with a value of the same text, plain and pretty, at
-- each level of indentation, where memory is given for all that is asked.
pub deep_copy-SameText :
    (libc : Libc) (v : Json)
    → IsCopyable libc v
    → Returns (Given (λ w. SameText libc w v)) (deep_copy libc v [])
deep_copy-SameText libc v h = value-SameText libc v h
