-- ===== src/Kernel/Mq/Fifo.antt =====
-- The specification of a message queue: messages in order of arrival, at most `max` of them.
use micro_posix.Prelude.{
  ℕ, Option, none, some, List, [], ◌∷◌, ◌++◌, Status, ok, failed, leb, if◌then◌else◌, length,
}
use micro_posix.Kernel.Mq.{Call, put, get, Reply}

unfoldable pub send : ℕ → List (List ℕ) → List ℕ → Status × List (List ℕ)
send max xs msg = if leb max (length xs) then (failed, xs) else (ok, xs ++ (msg ∷ []))

unfoldable pub receive : List (List ℕ) → Status × Option (List ℕ) × List (List ℕ)
receive [] = (failed, none, [])
receive (x ∷ xs) = (ok, some x, xs)

unfoldable pub run : ℕ → List (List ℕ) → List Call → List Reply
run max xs [] = []
run max xs (put msg ∷ calls) = let (s, ys) = send max xs msg in (s, none) ∷ run max ys calls
run max xs (get ∷ calls) = let (s, out, ys) = receive xs in (s, out) ∷ run max ys calls
