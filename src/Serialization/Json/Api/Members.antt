-- ===== src/Serialization/Json/Api/Members.antt =====
-- The members of an object of src/serialization/json.c.
use micro_posix.Prelude.{
  ℕ, suc, refl, ap, Bool, true, false, not, Option, none, some, List, [], arith, leb, bytes_equal,
  drop, ◌≡◌, ◌∙◌, ◌&&◌, ◌||◌, ◌∷◌, ◌==◌, if◌then◌else◌,
}
use micro_posix.Serialization.Json.Value.{
  count_fields, add_field, grown, first_answer, Fields, Json, string, object, no_fields, field,
}
use micro_posix.Serialization.Json.Generator.{c_string}
use micro_posix.Serialization.Json.Api.{
  added, refused, dangling, create, json_string_with_length, json_string, append_member,
  add_to_object, object_add_owning, key_matches, find_member, object_get, object_size, Added,
}

-- The first of two values that is there.
abbrev pub or_else : Option Json → Option Json → Option Json
or_else none q = q
or_else (some v) q = some v

abbrev pub when : Bool → Json → Option Json
when true v = some v
when false v = none

find_member-add_field :
    (k : List ℕ) (entries : Fields) (name value : Json)
    → find_member k (add_field entries name value)
      ≡ or_else (find_member k entries) (when (key_matches k name) value)
unfolding find_member
find_member-add_field k no_fields name value = by_match (key_matches k name)
  where
    by_match : (b : Bool) → (if b then some value else none) ≡ when b value
    by_match true = refl
    by_match false = refl
find_member-add_field k (field j w entries) name value =
    by_match (key_matches k j) _ _ (find_member-add_field k entries name value)
  where
    by_match :
        {p : Option Json} (b : Bool) (q r : Option Json)
        → p ≡ or_else q r
        → (if b then some w else p) ≡ or_else (if b then some w else q) r
    by_match true q r e = refl
    by_match false q r e = e

count_fields-add_field :
    (entries : Fields) (name value : Json)
    → count_fields (add_field entries name value) ≡ suc (count_fields entries)
count_fields-add_field no_fields name value = refl
count_fields-add_field (field j w entries) name value =
    ap suc (count_fields-add_field entries name value)

c_string-c_string : (s : List ℕ) → c_string (c_string s) ≡ c_string s
c_string-c_string [] = refl
c_string-c_string (c ∷ cs) = by_end (c == 0) refl (c_string-c_string cs)
  where
    by_end :
        (b : Bool)
        → (c == 0) ≡ b
        → c_string (c_string cs) ≡ c_string cs
        → c_string (if b then [] else c ∷ c_string cs) ≡ (if b then [] else c ∷ c_string cs)
    by_end true e h = refl
    by_end false e h = rw e (ap (λ s. c ∷ s) h)

-- No memory is missing: for the key and, where the object has no room, for its two arrays.
unfoldable pub granted : (capacity : ℕ) → Fields → List Bool → Bool
granted capacity entries answers =
    if not (leb capacity (count_fields entries))
    then first_answer answers && first_answer (drop 1 answers)
    else first_answer answers
      && first_answer (drop 1 answers)
      && (first_answer (drop 2 answers) && first_answer (drop 1 (drop 2 answers)))

-- The object has arrays and no room, and one of them is moved and the other not.
unfoldable pub halved : (capacity : ℕ) → Fields → List Bool → Bool
halved capacity entries answers =
    leb capacity (count_fields entries)
    && not (capacity == 0)
    && (first_answer answers || first_answer (drop 1 answers))
    && not (first_answer answers && first_answer (drop 1 answers))

-- What adding a member comes to. Where memory is given for all that is asked, it is added: the value is
-- found by each key that is equal to the new one as a C string, where no member was found before, and
-- what was found before is found still. Where one of the object's arrays is moved and the other not,
-- the object is left with freed arrays. Else the members are as before.
abbrev pub Outcome :
    (capacity : ℕ) → Fields → (key : List ℕ) → Json → (answers : List Bool) → Added → Type 0
Outcome capacity entries key value answers (added w) =
    (granted capacity entries answers ≡ true)
    × (object_size w ≡ suc (count_fields entries))
    × ((k : List ℕ)
        → object_get w k
          ≡ or_else (find_member k entries) (when (bytes_equal (c_string key) (c_string k)) value))
Outcome capacity entries key value answers (refused w) =
    (granted capacity entries answers ≡ false)
    × (halved capacity entries answers ≡ false)
    × ((room : ℕ) × (w ≡ object room entries))
Outcome capacity entries key value answers dangling = halved capacity entries answers ≡ true

module _ (capacity : ℕ) (entries : Fields) (key : List ℕ) (value : Json) (answers : List Bool) where
  Outcome-if :
      (b : Bool) (x y : Added × List Bool)
      → (b ≡ true → Outcome capacity entries key value answers x.0)
      → (b ≡ false → Outcome capacity entries key value answers y.0)
      → Outcome capacity entries key value answers (if b then x else y).0
  Outcome-if true x y f g = f refl
  Outcome-if false x y f g = g refl

  added-Outcome :
      (room : ℕ)
      → granted capacity entries answers ≡ true
      → Outcome capacity entries key value answers
          (added (object room (add_field entries (string (c_string key)) value)))
  unfolding object_size object_get
  added-Outcome room given = (
    given,
    count_fields-add_field entries (string (c_string key)) value,
    λ k.
        find_member-add_field k entries (string (c_string key)) value
        ∙ ap (λ s. or_else (find_member k entries) (when (bytes_equal s (c_string k)) value))
            (c_string-c_string key),
  )

  append_member-Outcome :
      (room : ℕ) (later : List Bool)
      → granted capacity entries answers ≡ (first_answer later && first_answer (drop 1 later))
      → halved capacity entries answers ≡ false
      → Outcome capacity entries key value answers (append_member room entries key value later).0
  unfolding append_member json_string json_string_with_length create
  append_member-Outcome room later given whole =
      by_memory (first_answer later) (first_answer (drop 1 later)) given
    where
      by_memory :
          (b c : Bool)
          → granted capacity entries answers ≡ (b && c)
          → Outcome capacity entries key value answers
              (elim (if◌then◌else◌ {A = Option Json × List Bool} b
                (if c then some (string (c_string key)) else none, drop 1 (drop 1 later))
                (none, drop 1 later)).0 [
                  | none ↦ refused (object room entries)
                  | some name ↦ added (object room (add_field entries name value))
                ])
      by_memory true true e = added-Outcome room e
      by_memory true false e = (e, whole, (room, refl))
      by_memory false c e = (e, whole, (room, refl))

  -- `object_add_owning` on an object, whatever memory is given. Where memory is given for all that is
  -- asked, it adds the member: the object has one member more; each key that is equal to the new one as
  -- a C string finds the value, unless a member was found for it before, and every other key finds what
  -- it found. Where the object has arrays and no room and memory is given for one of the two arrays
  -- only, it is left with pointers to freed arrays. In all other cases its members are as before.
  pub object_add_owning-Outcome :
      Outcome capacity entries key value answers
        (object_add_owning (object capacity entries) key (some value) answers).0
  unfolding object_add_owning add_to_object granted halved
  object_add_owning-Outcome =
      Outcome-if (not (leb capacity (count_fields entries))) _ _
        (λ e. append_member-Outcome capacity answers (rw e refl) (ground (arith, e)))
        (λ e.
          Outcome-if (first_answer answers && first_answer (drop 1 answers)) _ _
            (λ e'.
              append_member-Outcome (grown capacity) (drop 2 answers) (ground (arith, e, e'))
                (ground (arith, e')))
            (λ e'.
              Outcome-if
                (not (capacity == 0) && (first_answer answers || first_answer (drop 1 answers)))
                (dangling, drop 2 answers) _ (λ e''. ground (arith, e, e', e''))
                (λ e''. (ground (arith, e, e'), ground (arith, e, e', e''), (capacity, refl)))))
