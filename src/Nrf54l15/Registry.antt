-- ===== src/Nrf54l15/Registry.antt =====
-- The registry of threads in platform/nrf54l15/shared/shared_memory.c, which both cores see.
use micro_posix.Prelude.{
  ℕ, refl, ap, subst, inl, inr, Bool, true, false, Option, none, some, List, [], ==-refl,
  Bool-cases, Option-cases, size_mod, map-eq-some, Status, ok, failed, take, ◌+◌, ◌-◌, ◌%◌, ◌≡◌,
  ◌⊎◌, ◌&&◌, ◌∷◌, ◌==◌, if◌then◌else◌,
}
use mathlib.Core.Option

-- `shared_thread_entry_t`; the name is without its final 0.
pub record Entry : Type 0 where
  pub tcb : Option ℕ
  pub core_id : ℕ
  pub global_thread_id : ℕ
  pub local_thread_id : ℕ
  pub state : ℕ
  pub priority : ℕ
  pub name : List ℕ
  pub is_active : Bool

-- `shared_thread_registry_t`, with the slots of the array.
pub record ThreadRegistry : Type 0 where
  pub threads : List Entry
  pub thread_count : ℕ
  pub next_global_id : ℕ

-- What the function reads of a thread control block.
pub record Block : Type 0 where
  pub address : ℕ
  pub id : ℕ
  pub state : ℕ
  pub priority : ℕ

abbrev pub name_size : ℕ
name_size = 16

abbrev pub entry_of : Block → (core_id global_id : ℕ) (name : List ℕ) → Entry
entry_of b core_id global_id name = record {
  tcb = some b.address;
  core_id = core_id;
  global_thread_id = global_id;
  local_thread_id = b.id;
  state = b.state;
  priority = b.priority;
  name = take (name_size - 1) name;
  is_active = true;
}

-- Puts an entry into the first slot that is not active.
unfoldable pub place : Entry → List Entry → Option (List Entry)
place e [] = none
place e (x ∷ xs) =
    let later = Option.map (λ ys. x ∷ ys) (place e xs) in
    if x.is_active then later else some (e ∷ xs)

-- The result is the global identifier, or `none` for -1.
unfoldable pub register_shared_thread :
    Block → (core_id : ℕ) (name : List ℕ) → ThreadRegistry → Option ℕ × ThreadRegistry
register_shared_thread b core_id name r =
    elim (place (entry_of b core_id r.next_global_id name) r.threads) [
      | none ↦ (none, r)
      | some slots ↦ (
        some r.next_global_id,
        record {
          threads = slots;
          thread_count = (r.thread_count + 1) % size_mod;
          next_global_id = (r.next_global_id + 1) % size_mod;
        },
      )
    ]

abbrev pub is_entry : (global_id : ℕ) → Entry → Bool
is_entry global_id e = e.global_thread_id == global_id && e.is_active

unfoldable pub find_entry : (global_id : ℕ) → List Entry → Option Entry
find_entry global_id [] = none
find_entry global_id (x ∷ xs) =
    let later = find_entry global_id xs in if is_entry global_id x then some x else later

unfoldable pub lookup_shared_thread : (global_id : ℕ) → ThreadRegistry → Option Entry
lookup_shared_thread global_id r = find_entry global_id r.threads

-- Closes the first entry of the identifier.
unfoldable pub close : (global_id : ℕ) → List Entry → Option (List Entry)
close global_id [] = none
close global_id (x ∷ xs) =
    let later = Option.map (λ ys. x ∷ ys) (close global_id xs) in
    if is_entry global_id x then some (record x { is_active = false; tcb = none } ∷ xs) else later

unfoldable pub unregister_shared_thread : (global_id : ℕ) → ThreadRegistry → Status × ThreadRegistry
unregister_shared_thread global_id r = elim (close global_id r.threads) [
  | none ↦ (failed, r)
  | some slots ↦
      (ok, record r { threads = slots; thread_count = (r.thread_count + size_mod - 1) % size_mod })
]

place_inv :
    (active : Bool) (e : Entry) (xs : List Entry) (later : Option (List Entry)) (ys : List Entry)
    → (if active then later else some (e ∷ xs)) ≡ some ys
    → (later ≡ some ys) ⊎ (e ∷ xs ≡ ys)
place_inv true e xs later ys h = inl h
place_inv false e xs later ys h = inr (cc h)

find-place :
    (g : ℕ) (e : Entry) (xs ys : List Entry)
    → is_entry g e ≡ true
    → find_entry g xs ≡ none
    → place e xs ≡ some ys
    → find_entry g ys ≡ some e
unfolding find_entry place
find-place g e [] ys own fresh h = absurd (cc h)
find-place g e (x ∷ xs) ys own fresh h = elim (Bool-cases (is_entry g x)) [
  | inl mine ↦ absurd (cc (rw mine at fresh))
  | inr other ↦ elim (place_inv x.is_active e xs (Option.map (λ zs. x ∷ zs) (place e xs)) ys h) [
    | inl put ↦
        let (zs, placed, same) = map-eq-some (λ zs. x ∷ zs) (place e xs) ys put in
        let found = find-place g e xs zs own (rw other at fresh) placed in
        subst (λ l. find_entry g l ≡ some e) same (rw other found)
    | inr same ↦ subst (λ l. find_entry g l ≡ some e) same (rw own refl)
  ]
]

-- Where `mp_hal_nrf54l15_register_shared_thread` gives an identifier that no thread of the registry has,
-- `mp_hal_nrf54l15_lookup_shared_thread` of it then finds the entry of the new thread.
pub lookup-register :
    (b : Block) (core_id g : ℕ) (name : List ℕ) (r r' : ThreadRegistry)
    → register_shared_thread b core_id name r ≡ (some g, r')
    → lookup_shared_thread g r ≡ none
    → lookup_shared_thread g r' ≡ some (entry_of b core_id g name)
unfolding register_shared_thread lookup_shared_thread
lookup-register b core_id g name r r' e fresh =
    elim (Option-cases (place (entry_of b core_id r.next_global_id name) r.threads)) [
      | inl full ↦ absurd (cc (rw (full, register_shared_thread) at e))
      | inr (slots, placed) ↦
          (let q = rw (placed, register_shared_thread) at e in
            let id : r.next_global_id ≡ g =
              ap (λ (p : Option ℕ × ThreadRegistry). elim p.0 [ none ↦ 0 | some n ↦ n ]) q in
            let same : slots ≡ r'.threads = ap (λ (p : Option ℕ × ThreadRegistry). p.1.threads) q in
            subst (λ l. find_entry g l ≡ some (entry_of b core_id g name)) same
              (find-place g (entry_of b core_id g name) r.threads slots (rw (==-refl g) refl) fresh
                (subst (λ (n : ℕ). place (entry_of b core_id n name) r.threads ≡ some slots) id
                  placed)))
    ]
