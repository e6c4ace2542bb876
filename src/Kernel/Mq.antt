-- ===== src/Kernel/Mq.antt =====
-- src/kernel/mq.c and `mp_mq_t` of include/microposix/kernel/ipc.h: a ring of messages of one size
-- in a buffer of bytes that the caller owns. `size_t` has 32 bits. `none` is a null pointer.
pub mod Fifo
pub mod Inv
pub mod Refine
mod Tests
use micro_posix.Prelude.{
  ℕ, ◌+◌, ◌-◌, ◌*◌, ◌%◌, Bool, Option, none, some, List, [], ◌∷◌, leb, ◌==◌, if◌then◌else◌, Status,
  ok, failed, size_mod, take, store_bytes, load_bytes,
}

pub record Mq : Type 0 where
  pub buffer : List ℕ
  pub msg_size : ℕ
  pub max_msgs : ℕ
  pub cur_msgs : ℕ
  pub head : ℕ
  pub tail : ℕ
  pub waiting_send : Option ℕ
  pub waiting_recv : Option ℕ

-- The queue that `mp_mq_init` writes through `mq`.
abbrev pub fresh : List ℕ → ℕ → ℕ → Mq
fresh buffer msg_size max_msgs = record {
  buffer = buffer;
  msg_size = msg_size;
  max_msgs = max_msgs;
  cur_msgs = 0;
  head = 0;
  tail = 0;
  waiting_send = none;
  waiting_recv = none;
}

pub init : Option Mq → Option (List ℕ) → ℕ → ℕ → Status × Option Mq
init none buffer msg_size max_msgs = (failed, none)
init (some mq) none msg_size max_msgs = (failed, some mq)
init (some mq) (some buffer) msg_size max_msgs = (ok, some (fresh buffer msg_size max_msgs))

-- The byte offset of a slot, computed in `size_t`.
abbrev pub offset : Mq → ℕ → ℕ
offset q slot = slot * q.msg_size % size_mod

-- The list `msg` is what the pointer leads to; `memcpy` reads its first `msg_size` bytes.
pub send : Mq → (msg : List ℕ) (timeout_ms : ℕ) → Status × Mq
send q msg timeout_ms = if leb q.max_msgs q.cur_msgs then (failed, q) else (
  ok,
  record q {
    buffer = store_bytes q.buffer (offset q q.head) (take q.msg_size msg);
    head = (q.head + 1) % size_mod % q.max_msgs;
    cur_msgs = (q.cur_msgs + 1) % size_mod;
  },
)

-- The option is what is copied out through `msg`. `cur_msgs--` runs only at a number that is not 0.
pub receive : Mq → (timeout_ms : ℕ) → Status × Option (List ℕ) × Mq
receive q timeout_ms = if q.cur_msgs == 0 then (failed, none, q) else (
  ok,
  some (load_bytes q.buffer (offset q q.tail) q.msg_size),
  record q { tail = (q.tail + 1) % size_mod % q.max_msgs; cur_msgs = q.cur_msgs - 1 },
)

-- A client's call, what it sees of it, and a run of calls.
pub data Call : Type 0 where
  put : List ℕ → Call
  get : Call

abbrev pub Reply : Type 0
Reply = Status × Option (List ℕ)

pub run : Mq → List Call → List Reply
run q [] = []
run q (put msg ∷ calls) = let (s, q') = send q msg 0 in (s, none) ∷ run q' calls
run q (get ∷ calls) = let (s, out, q') = receive q 0 in (s, out) ∷ run q' calls
