-- ===== src/Kernel/Mq/Tests.antt =====
-- The theorems on queues at a queue of two messages of two bytes, in a buffer of five bytes; one
-- message is in its second slot.
use micro_posix.Prelude.{ℕ, refl, List, [], arith, ◌≡◌, ◌∷◌}
use micro_posix.Kernel.Mq.{put, get, fresh, run, Mq, Call}
use micro_posix.Kernel.Mq.Inv.{IsValid}
use micro_posix.Kernel.Mq.Refine.{run_refines}
use micro_posix.Kernel.Mq.Fifo

abbrev bytes : List ℕ
bytes = 1 ∷ 2 ∷ 3 ∷ 4 ∷ 5 ∷ []

abbrev one : Mq
one = record (fresh bytes 2 2) { cur_msgs = 1; tail = 1 }

one-IsValid : IsValid one
one-IsValid = record {
  storage = omega arith;
  addressable = omega arith;
  small = omega arith;
  tail_in = omega arith;
  cur_in = omega arith;
  head_at = refl;
}

abbrev script : List Call
script = put (8 ∷ 9 ∷ []) ∷ put (6 ∷ 7 ∷ []) ∷ get ∷ get ∷ get ∷ []

run_refines_example : run one script ≡ Fifo.run 2 ((3 ∷ 4 ∷ []) ∷ []) script
run_refines_example =
    run_refines one script one-IsValid
      (refl, (refl, (record {}, (record {}, (record {}, record {})))))
