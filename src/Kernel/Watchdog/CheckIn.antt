-- ===== src/Kernel/Watchdog/CheckIn.antt =====
-- What a check-in is worth.
use micro_posix.Prelude.{
  ℕ, refl, inl, inr, false, List, [], arith, ==_iff, Bool-cases, size_mod, ◌+◌, ◌-◌, ◌%◌, ◌≤◌, ◌<◌,
  ◌≡◌, ◌∙◌, ◌&&◌, ◌||◌, ◌∷◌, ◌==◌, if◌then◌else◌,
}
use micro_posix.Prelude.Chain.{has}
use micro_posix.Kernel.Watchdog.{check_in_at, late, late_ids, Entry}

-- The active entries of a thread in a table.
abbrev pub entries_of : ℕ → List Entry → ℕ
entries_of id [] = 0
entries_of id (e ∷ es) = (if e.active && (e.thread_id == id) then 1 else 0) + entries_of id es

late_ids-nil : (now timeout id : ℕ) → has id (late_ids now timeout []) ≡ false
unfolding late_ids
late_ids-nil now timeout id = refl

late_ids-cons :
    (now timeout id : ℕ) (e : Entry) (es : List Entry)
    → has id (late_ids now timeout (e ∷ es))
      ≡ ((late now timeout e && (id == e.thread_id)) || has id (late_ids now timeout es))
unfolding late_ids
late_ids-cons now timeout id e es = elim (Bool-cases (late now timeout e)) [
  | inl y ↦ rw y
  | inr n ↦ rw n
]

-- An entry that is not the thread's, or is not active, does not make it logged.
skipped :
    (now timeout id : ℕ) (e : Entry) (es : List Entry)
    → e.active && (e.thread_id == id) ≡ false
    → has id (late_ids now timeout es) ≡ false
    → has id (late_ids now timeout (e ∷ es)) ≡ false
skipped now timeout id e es h rest =
    late_ids-cons now timeout id e es ∙ ground (arith, ==_iff id e.thread_id, ==_iff e.thread_id id)

-- A thread without an active entry is not logged.
absent :
    (now timeout id : ℕ) (es : List Entry)
    → entries_of id es ≡ 0
    → has id (late_ids now timeout es) ≡ false
absent now timeout id [] h = late_ids-nil now timeout id
absent now timeout id (e ∷ es) h =
    skipped now timeout id e es (ground arith) (absent now timeout id es (ground arith))

fresh :
    (now later timeout id : ℕ) (e : Entry) (es : List Entry)
    → now ≤ later
    → later ≤ now + timeout
    → later < size_mod
    → has id (late_ids later timeout es) ≡ false
    → has id (late_ids later timeout (record e { last_check_in = now % size_mod } ∷ es)) ≡ false
fresh now later timeout id e es le near lt rest =
    let e' : Entry = record e { last_check_in = now % size_mod } in
    let gap : (later % size_mod + size_mod - now % size_mod) % size_mod ≤ timeout = omega arith in
    let calm : late later timeout e' ≡ false = ground (arith, gap) in
    late_ids-cons later timeout id e' es ∙ rw (calm, rest)

-- A thread with one active entry at most that checks in is not logged by a supervisor tick that
-- comes at most the timeout later, while the clock stays below `2 ^ 32`.
pub check_in_lem :
    (now later timeout id : ℕ) (es : List Entry)
    → entries_of id es ≤ 1
    → now ≤ later
    → later ≤ now + timeout
    → later < size_mod
    → has id (late_ids later timeout (check_in_at now id es)) ≡ false
unfolding check_in_at
check_in_lem now later timeout id [] one le near lt = late_ids-nil later timeout id
check_in_lem now later timeout id (e ∷ es) one le near lt =
    elim (Bool-cases (e.active && (e.thread_id == id))) [
      | inl own ↦
          rw own
            (fresh now later timeout id e es le near lt (absent later timeout id es (ground arith)))
      | inr other ↦ rw other (
          skipped later timeout id e (check_in_at now id es) other
            (check_in_lem now later timeout id es (ground arith) le near lt))
    ]
