-- ===== src/Kernel/Mq/Inv.antt =====
-- The representation invariant of `mp_mq_t`: no `size_t` computation wraps, and every copy stays
-- inside the buffer.
use micro_posix.Prelude.{
  ℕ, refl, sym, ap, some, List, arith, size_mod, ok, length, take, length-store_bytes, ◌+◌, ◌-◌,
  ◌*◌, ◌%◌, ◌≤◌, ◌<◌, ◌≡◌, ◌∙◌,
}
use micro_posix.Kernel.Mq.{fresh, init, offset, send, receive, Mq}
use native.Mathlib.Nat.{mod-eq_of_lt, mod-lt, mod-add-mod, add_assoc}

pub record IsValid (q : Mq) : Type 0 where
  pub storage : q.max_msgs * q.msg_size ≤ length q.buffer
  pub addressable : length q.buffer < size_mod
  pub small : q.max_msgs < size_mod
  pub tail_in : q.tail < q.max_msgs
  pub cur_in : q.cur_msgs ≤ q.max_msgs
  pub head_at : q.head ≡ (q.tail + q.cur_msgs) % q.max_msgs

-- A slot below `max_msgs` lies inside any buffer that holds them all.
pub slot_in : (slot size max : ℕ) → slot < max → slot * size + size ≤ max * size
slot_in slot size max h = grind arith

pub head_in : {q : Mq} → IsValid q → q.head < q.max_msgs
head_in v = grind arith

-- The bytes of slot `i` of a valid queue are inside its buffer, and their offset does not wrap.
pub offset_in :
    (q : Mq) (slot : ℕ)
    → IsValid q
    → slot < q.max_msgs
    → (offset q slot ≡ slot * q.msg_size) × (slot * q.msg_size + q.msg_size ≤ length q.buffer)
offset_in q slot v h = omega (arith, slot_in slot q.msg_size q.max_msgs h, v.storage, v.addressable)

-- The slot after the next one, counted from either.
pub next_slot : (t n max : ℕ) → t < max → ((t + 1) % max + n) % max ≡ (t + (n + 1)) % max
next_slot t n max h = mod-add-mod (t + 1) max n ∙ ap (λ k. k % max) (omega arith)

-- `mp_mq_init` with a buffer that holds `max_msgs` messages, at least one, and is addressable in
-- `size_t`, returns 0 and a queue that satisfies the invariant.
pub init-IsValid :
    (old : Mq) (buffer : List ℕ) (msg_size max_msgs : ℕ)
    → max_msgs * msg_size ≤ length buffer
    → length buffer < size_mod
    → max_msgs < size_mod
    → 0 < max_msgs
    → (q : Mq) × (init (some old) (some buffer) msg_size max_msgs ≡ (ok, some q)) × IsValid q
unfolding init
init-IsValid old buffer msg_size max_msgs st ad sm pos = (
  fresh buffer msg_size max_msgs,
  refl,
  record {
    storage = st;
    addressable = ad;
    small = sm;
    tail_in = pos;
    cur_in = omega arith;
    head_at = sym (mod-eq_of_lt pos);
  },
)

-- With room left the new indices do not wrap, and the next head is one slot on.
pub next_head :
    {q : Mq}
    → IsValid q
    → (q.head + 1) % size_mod % q.max_msgs ≡ (q.tail + (q.cur_msgs + 1)) % q.max_msgs
next_head {q} v = ground (
  arith,
  head_in v,
  mod-eq_of_lt {n = q.head + 1} {m = size_mod},
  mod-add-mod (q.tail + q.cur_msgs) q.max_msgs 1,
  add_assoc q.tail q.cur_msgs 1,
)

-- `mp_mq_send` keeps the invariant.
pub send-IsValid : (q : Mq) (msg : List ℕ) (ms : ℕ) → IsValid q → IsValid (send q msg ms).1
unfolding send
send-IsValid q msg ms v =
    ground (arith, length-store_bytes q.buffer (offset q q.head) (take q.msg_size msg), next_head v)

-- `mp_mq_receive` keeps the invariant.
pub receive-IsValid : (q : Mq) (ms : ℕ) → IsValid q → IsValid (receive q ms).2
unfolding receive
receive-IsValid q ms v = ground (
  arith,
  mod-eq_of_lt {n = q.tail + 1} {m = size_mod},
  mod-lt (q.tail + 1) {m = q.max_msgs},
  next_slot q.tail (q.cur_msgs - 1) q.max_msgs,
)
