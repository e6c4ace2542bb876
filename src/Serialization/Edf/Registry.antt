-- ===== src/Serialization/Edf/Registry.antt =====
-- The schema registry of src/serialization/edf.c. A schema is a pointer, and `name_of` gives what the
-- `name` field of the schema leads to; a null name is `none`.
use micro_posix.Prelude.{
  ℕ, refl, inl, inr, Bool, false, Option, none, some, List, [], arith, leb, le→leb, leb-false,
  Bool-cases, bytes_equal, Status, ok, failed, length, length-append, ◌≤◌, ◌<◌, ◌≡◌, ◌∙◌, ◌∷◌, ◌++◌,
  if◌then◌else◌,
}
use micro_posix.Prelude.Chain.{has, IsDistinct, has-append}
use native.Mathlib.Decide.{dec_lt}

-- `registered_schemas[0]` to `registered_schemas[registered_schema_count - 1]`.
abbrev pub Registry : Type 0
Registry = List ℕ

abbrev max_registered_schemas : ℕ
max_registered_schemas = 64

unfoldable pub register_schema : (schema : Option ℕ) → Registry → Status × Registry
register_schema none registry = (failed, registry)
register_schema (some schema) registry =
    if leb max_registered_schemas (length registry)
    then (failed, registry)
    else if has schema registry
    then (ok, registry)
    else (ok, registry ++ (schema ∷ []))

-- `mp_edf_get_schema`, which ignores the identifier.
unfoldable pub get_schema : (schema_id : ℕ) → Option ℕ
get_schema schema_id = none

-- `schema->name && strcmp(schema->name, name) == 0`
abbrev pub is_named : (name_of : ℕ → Option (List ℕ)) (name : List ℕ) (schema : ℕ) → Bool
is_named name_of name schema = elim (name_of schema) [
  | none ↦ false
  | some text ↦ bytes_equal text name
]

unfoldable pub find_name : (name_of : ℕ → Option (List ℕ)) → List ℕ → Registry → Option ℕ
find_name name_of name [] = none
find_name name_of name (schema ∷ rest) =
    let later = find_name name_of name rest in
    if is_named name_of name schema then some schema else later

unfoldable pub get_schema_by_name :
    (name_of : ℕ → Option (List ℕ)) → (name : Option (List ℕ)) → Registry → Option ℕ
get_schema_by_name name_of none registry = none
get_schema_by_name name_of (some name) registry = find_name name_of name registry

-- The registry after some calls, and their results.
abbrev pub register_all : List (Option ℕ) → Registry → Registry
register_all [] registry = registry
register_all (s ∷ rest) registry = register_all rest (register_schema s registry).1

-- Distinct schemas, at most 64.
abbrev pub IsRegistry : Registry → Type 0
IsRegistry registry = IsDistinct registry × (length registry ≤ 64)

IsDistinct-append :
    (xs : List ℕ) (a : ℕ) → IsDistinct xs → has a xs ≡ false → IsDistinct (xs ++ (a ∷ []))
IsDistinct-append [] a d out = (refl, tt)
IsDistinct-append (x ∷ xs) a (fresh, d) out = (
  has-append x xs (a ∷ []) ∙ ground (arith, fresh, out),
  IsDistinct-append xs a d (ground (arith, out)),
)

register_schema-IsRegistry :
    (s : Option ℕ) (registry : Registry)
    → IsRegistry registry
    → IsRegistry (register_schema s registry).1
unfolding register_schema
register_schema-IsRegistry none registry h = h
register_schema-IsRegistry (some s) registry (d, le) = elim (dec_lt (length registry) 64) [
  | no full ↦ rw (le→leb 64 (length registry) (omega arith)) (d, le)
  | yes free ↦ rw (leb-false 64 (length registry) free) (elim (Bool-cases (has s registry)) [
    | inl known ↦ rw known (d, le)
    | inr fresh ↦
        rw fresh
          ((IsDistinct-append registry s d fresh, omega (arith, length-append registry (s ∷ []))))
  ])
]

-- After any calls of `mp_edf_register_schema` on an empty registry the schemas in it are distinct, and
-- at most 64.
pub register_all-IsRegistry : (calls : List (Option ℕ)) → IsRegistry (register_all calls [])
register_all-IsRegistry calls = from calls [] (tt, omega arith)
  where
    from :
        (calls : List (Option ℕ)) (registry : Registry)
        → IsRegistry registry
        → IsRegistry (register_all calls registry)
    from [] registry h = h
    from (s ∷ rest) registry h =
        from rest (register_schema s registry).1 (register_schema-IsRegistry s registry h)

-- The older schema of a name before a newer one.
abbrev pub or_else : Option ℕ → Option ℕ → Option ℕ
or_else none later = later
or_else (some s) later = some s

find_name-append :
    (name_of : ℕ → Option (List ℕ)) (name : List ℕ) (xs ys : Registry)
    → find_name name_of name (xs ++ ys)
      ≡ or_else (find_name name_of name xs) (find_name name_of name ys)
unfolding find_name
find_name-append name_of name [] ys = refl
find_name-append name_of name (x ∷ xs) ys = elim (Bool-cases (is_named name_of name x)) [
  | inl e ↦ rw e refl
  | inr e ↦ rw e (find_name-append name_of name xs ys)
]

-- With fewer than 64 schemas registered, `mp_edf_register_schema` of a schema that is not among them
-- returns 0, and `mp_edf_get_schema_by_name` then gives for any name what it gave before, or, if it
-- gave null, the new schema where it has that name.
pub get_schema_by_name-register_schema :
    (name_of : ℕ → Option (List ℕ)) (name : List ℕ) (s : ℕ) (registry : Registry)
    → length registry < 64
    → has s registry ≡ false
    → ((register_schema (some s) registry).0 ≡ ok)
      × (get_schema_by_name name_of (some name) (register_schema (some s) registry).1
          ≡ or_else
              (get_schema_by_name name_of (some name) registry)
              (if is_named name_of name s then some s else none))
unfolding register_schema get_schema_by_name find_name
get_schema_by_name-register_schema name_of name s registry room fresh =
    rw (leb-false 64 (length registry) room, fresh)
      (refl, find_name-append name_of name registry (s ∷ []))
