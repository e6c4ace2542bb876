-- ===== src/Kernel/Timer/Tests.antt =====
-- The theorems on timers at the list of the timers 1 and 2.
use micro_posix.Prelude.{refl, true, false, none, some, [], arith, ◌≡◌, ◌∷◌, ◌==◌, if◌then◌else◌}
use micro_posix.Prelude.Chain.{IsChain, IsDistinct}
use micro_posix.Kernel.Timer.{next, start, stop_timer, Timer, Timers}
use micro_posix.Kernel.Timer.Active.{stop_timer-start}

abbrev idle_timer : Timer
idle_timer = record {
  expiry_ms = 9;
  period_ms = 5;
  periodic = true;
  callback = none;
  arg = 0;
  link = none;
}

abbrev timers : Timers
timers = record {
  timer = λ a. if a == 1 then record idle_timer { link = some 2 } else idle_timer;
  timer_list = some 1;
}

-- Timer 3 is started, and timer 2 stopped.
stop_timer-start_example :
    (s1 : Timers) × (s2 : Timers) × (start 3 timers 3 ≡ some s1)
    × IsDistinct (3 ∷ 1 ∷ 2 ∷ [])
    × IsChain (next s1) s1.timer_list (3 ∷ 1 ∷ 2 ∷ [])
    × (stop_timer 3 s1 2 ≡ some s2)
    × ((3 == 2) ≡ true → IsChain (next s2) s2.timer_list (1 ∷ 2 ∷ []))
    × ((3 == 2) ≡ false → IsChain (next s2) s2.timer_list (3 ∷ 1 ∷ []))
stop_timer-start_example =
    stop_timer-start 3 3 2 (1 ∷ 2 ∷ []) timers (omega arith) (refl, (refl, record {})) refl
      (refl, (refl, refl))
