-- ===== src/Kernel/Watchdog.antt =====
-- src/kernel/watchdog.c: the table of threads that have to check in. The log line of a timeout is
-- given by the thread's identifier.
pub mod CheckIn
mod Tests
use micro_posix.Prelude.{
  ℕ, Bool, true, false, not, List, [], ltb, size_mod, ◌+◌, ◌-◌, ◌%◌, ◌&&◌, ◌∷◌, ◌==◌, if◌then◌else◌,
}

-- `mp_wdt_entry_t`
pub record Entry : Type 0 where
  pub thread_id : ℕ
  pub last_check_in : ℕ
  pub active : Bool

-- The static variables; the table has MAX_WDT_ENTRIES, 32, entries.
pub record Watchdog : Type 0 where
  pub wdt_table : List Entry
  pub wdt_timeout_ms : ℕ

deactivate : List Entry → List Entry
deactivate [] = []
deactivate (e ∷ es) = record e { active = false } ∷ deactivate es

unfoldable pub init : Watchdog → (timeout_ms : ℕ) → Watchdog
unfolding deactivate
init w timeout_ms = record { wdt_table = deactivate w.wdt_table; wdt_timeout_ms = timeout_ms }

-- The 64-bit clock is stored in 32 bits.
unfoldable pub register_in : (now thread_id : ℕ) → List Entry → List Entry
register_in now id [] = []
register_in now id (e ∷ es) =
    if not e.active
    then record { thread_id = id; last_check_in = now % size_mod; active = true } ∷ es
    else e ∷ register_in now id es

unfoldable pub register : (now : ℕ) → Watchdog → (thread_id : ℕ) → Watchdog
register now w id = record w { wdt_table = register_in now id w.wdt_table }

unfoldable pub check_in_at : (now thread_id : ℕ) → List Entry → List Entry
check_in_at now id [] = []
check_in_at now id (e ∷ es) =
    if e.active && (e.thread_id == id)
    then record e { last_check_in = now % size_mod } ∷ es
    else e ∷ check_in_at now id es

unfoldable pub check_in : (now : ℕ) → Watchdog → (thread_id : ℕ) → Watchdog
check_in now w id = record w { wdt_table = check_in_at now id w.wdt_table }

-- `now - last_check_in > wdt_timeout_ms`, in 32 bits.
abbrev pub late : (now timeout : ℕ) → Entry → Bool
late now timeout e =
    e.active && ltb timeout ((now % size_mod + size_mod - e.last_check_in) % size_mod)

unfoldable pub late_ids : (now timeout : ℕ) → List Entry → List ℕ
late_ids now timeout [] = []
late_ids now timeout (e ∷ es) =
    let rest = late_ids now timeout es in if late now timeout e then e.thread_id ∷ rest else rest

-- The threads that are logged.
unfoldable pub supervisor_tick : (now : ℕ) → Watchdog → List ℕ
supervisor_tick now w = late_ids now w.wdt_timeout_ms w.wdt_table
