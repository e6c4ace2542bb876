-- ===== src/Serialization/Json/Copy/Same.antt =====
-- What a value has to be for a deep copy, and lists of members with the same text.
use micro_posix.Prelude.{ℕ, refl, ap, Bool, true, false, ◌≡◌, ◌∙◌, ◌⊎◌, ◌++◌}
use micro_posix.Serialization.Json.Value.{
  add_item, add_field, Number, Libc, Items, Fields, Json, null, boolean, number, string, object,
  array, error, no_items, item, no_fields, field,
}
use micro_posix.Serialization.Json.Generator.{c_string}
use micro_posix.Serialization.Json.Generator.Text.{
  separator, colon, value_text, elements_text, members_text, key_of,
}

-- A value that `mp_json_deep_copy` is for: keys are C strings, a number that is no integer has the
-- integer that its double converts to, and there is no error in it.
abbrev pub IsNumber : Libc → Number → Type 0
IsNumber libc n = (n.is_integer ≡ true) ⊎ (n.integer_value ≡ libc.double_to_int n.value)

abbrev pub IsKey : Json → Type 0
IsKey (string s) = c_string s ≡ s
IsKey null = ⊥
IsKey (boolean b) = ⊥
IsKey (number n) = ⊥
IsKey (object capacity entries) = ⊥
IsKey (array capacity items) = ⊥
IsKey error = ⊥

abbrev mutual
  pub IsCopyable : Libc → Json → Type 0
  IsCopyable libc null = Unit {0}
  IsCopyable libc (boolean b) = Unit {0}
  IsCopyable libc (number n) = IsNumber libc n
  IsCopyable libc (string s) = Unit {0}
  IsCopyable libc (object capacity entries) = AreMembers libc entries
  IsCopyable libc (array capacity items) = AreElements libc items
  IsCopyable libc error = ⊥

  pub AreElements : Libc → Items → Type 0
  AreElements libc no_items = Unit {0}
  AreElements libc (item v vs) = IsCopyable libc v × AreElements libc vs

  pub AreMembers : Libc → Fields → Type 0
  AreMembers libc no_fields = Unit {0}
  AreMembers libc (field key v entries) = IsKey key × IsCopyable libc v × AreMembers libc entries

-- The same text, plain and pretty, at each level of indentation.
abbrev pub SameText : Libc → (w v : Json) → Type 0
SameText libc w v =
    (pretty : Bool) (level : ℕ) → value_text libc pretty level w ≡ value_text libc pretty level v

unfoldable pub SameItems : Libc → (xs ys : Items) → Type 0
SameItems libc xs ys =
    (pretty : Bool) (level : ℕ) (first : Bool)
    → elements_text libc pretty level first xs ≡ elements_text libc pretty level first ys

unfoldable pub SameFields : Libc → (xs ys : Fields) → Type 0
SameFields libc xs ys =
    (pretty : Bool) (level : ℕ) (first : Bool)
    → members_text libc pretty level first xs ≡ members_text libc pretty level first ys

unfoldable pub join_items : Items → Items → Items
join_items no_items ys = ys
join_items (item v vs) ys = item v (join_items vs ys)

unfoldable pub join_fields : Fields → Fields → Fields
join_fields no_fields ys = ys
join_fields (field k v vs) ys = field k v (join_fields vs ys)

join_items-add_item :
    (xs ys : Items) (v : Json) → join_items (add_item xs v) ys ≡ join_items xs (item v ys)
unfolding join_items
join_items-add_item no_items ys v = refl
join_items-add_item (item x xs) ys v = ap (item x) (join_items-add_item xs ys v)

join_fields-add_field :
    (xs ys : Fields) (k v : Json)
    → join_fields (add_field xs k v) ys ≡ join_fields xs (field k v ys)
unfolding join_fields
join_fields-add_field no_fields ys k v = refl
join_fields-add_field (field j x xs) ys k v = ap (field j x) (join_fields-add_field xs ys k v)

module _ (libc : Libc) where
  SameItems-join :
      (xs ys zs : Items)
      → SameItems libc ys zs
      → SameItems libc (join_items xs ys) (join_items xs zs)
  unfolding SameItems join_items value_text
  SameItems-join no_items ys zs h = h
  SameItems-join (item v vs) ys zs h = λ pretty level first.
      ap (λ t. separator pretty level first ++ (value_text libc pretty level v ++ t))
        (SameItems-join vs ys zs h pretty level false)

  SameFields-join :
      (xs ys zs : Fields)
      → SameFields libc ys zs
      → SameFields libc (join_fields xs ys) (join_fields xs zs)
  unfolding SameFields join_fields value_text
  SameFields-join no_fields ys zs h = h
  SameFields-join (field k v vs) ys zs h = λ pretty level first.
      ap
        (λ t.
          separator pretty level first
          ++ (key_of k ++ (colon pretty ++ (value_text libc pretty level v ++ t))))
        (SameFields-join vs ys zs h pretty level false)

  -- The first of the values that are left is copied and added.
  pub SameItems-step :
      (done vs xs : Items) (v w : Json)
      → SameText libc w v
      → SameItems libc xs (join_items (add_item done w) vs)
      → SameItems libc xs (join_items done (item v vs))
  unfolding SameItems value_text
  SameItems-step done vs xs v w same h = λ pretty level first.
      h pretty level first
      ∙ ap (elements_text libc pretty level first) (join_items-add_item done vs w)
      ∙ SameItems-join done (item w vs) (item v vs)
          (λ p l f. ap (λ t. separator p l f ++ (t ++ elements_text libc p l false vs)) (same p l))
          pretty level first

  pub SameFields-step :
      (done entries xs : Fields) (k v w : Json)
      → SameText libc w v
      → SameFields libc xs (join_fields (add_field done k w) entries)
      → SameFields libc xs (join_fields done (field k v entries))
  unfolding SameFields value_text
  SameFields-step done entries xs k v w same h = λ pretty level first.
      h pretty level first
      ∙ ap (members_text libc pretty level first) (join_fields-add_field done entries k w)
      ∙ SameFields-join done (field k w entries) (field k v entries)
          (λ p l f.
            ap
              (λ t.
                separator p l f
                ++ (key_of k ++ (colon p ++ (t ++ members_text libc p l false entries))))
              (same p l))
          pretty level first
