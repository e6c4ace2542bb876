-- ===== src/Kernel/Watchdog/Tests.antt =====
-- The check-in of thread 7 at a table of two entries.
use micro_posix.Prelude.{true, false, List, [], arith, ◌≡◌, ◌∷◌}
use micro_posix.Prelude.Chain.{has}
use micro_posix.Kernel.Watchdog.{check_in_at, late_ids, Entry}
use micro_posix.Kernel.Watchdog.CheckIn.{check_in_lem}

abbrev table : List Entry
table =
    record { thread_id = 5; last_check_in = 10; active = true }
    ∷ record { thread_id = 7; last_check_in = 10; active = true }
    ∷ []

check_in_lem_example : has 7 (late_ids 6000 5000 (check_in_at 2000 7 table)) ≡ false
check_in_lem_example =
    check_in_lem 2000 6000 5000 7 table (omega arith) (omega arith) (omega arith) (omega arith)
