-- ===== src/Kernel/Mq/Refine.antt =====
-- A valid queue behaves as a bounded first-in-first-out queue of whole messages.
use micro_posix.Prelude.{
  ℕ, zero, suc, ◌+◌, ◌-◌, ◌*◌, ◌%◌, ◌≤◌, ◌<◌, ◌≡◌, ◌≢◌, ◌⊎◌, inl, inr, refl, sym, ap, ap₂, subst,
  ◌∙◌, List, [], ◌∷◌, ◌++◌, size_mod, arith, length, take, take-append, append-nil, store_bytes,
  load_bytes, load_bytes-store_bytes, load_bytes-store_bytes_apart, All,
}
use micro_posix.Kernel.Mq.{Mq, Call, put, get, send, receive, run}
use micro_posix.Kernel.Mq.Fifo
use micro_posix.Kernel.Mq.Inv.{
  IsValid, slot_in, next_slot, offset_in, head_in, send-IsValid, receive-IsValid,
}
use native.Mathlib.Nat.{mod-eq_of_lt, mod-lt, mod-eq-sub-mod, add-zero}
use native.Mathlib.Decide.{dec_lt}

module _ (buf : List ℕ) (size max : ℕ) where
  -- The messages in `n` slots from slot `t` on, going round at `max`.
  abbrev pub messages : ℕ → ℕ → List (List ℕ)
  messages t zero = []
  messages t (suc n) = load_bytes buf (t * size) size ∷ messages ((t + 1) % max) n

  length-messages : (t n : ℕ) → length (messages t n) ≡ n
  length-messages t zero = refl
  length-messages t (suc n) = ap suc (length-messages ((t + 1) % max) n)

  messages_of_pos :
      (t n : ℕ)
      → n ≢ 0
      → messages t n ≡ load_bytes buf (t * size) size ∷ messages ((t + 1) % max) (n - 1)
  messages_of_pos t zero h = absurd (h refl)
  messages_of_pos t (suc n) h = ap (λ k. messages t (suc k)) (omega arith)

abbrev pub contents : Mq → List (List ℕ)
contents q = messages q.buffer q.msg_size q.max_msgs q.tail q.cur_msgs

-- Different slots have no byte in common.
slot_apart : (s t size : ℕ) → s ≢ t → (s * size + size ≤ t * size) ⊎ (t * size + size ≤ s * size)
slot_apart s t size h = elim (dec_lt s t) [
  | yes p ↦ inl (slot_in s size t p)
  | no p ↦ inr (slot_in t size s (omega arith))
]

-- Fewer than `max` steps round the ring do not come back to the start.
not_round : (t n max : ℕ) → t < max → suc n < max → (t + suc n) % max ≢ t
not_round t n max ht hn = elim (dec_lt (t + suc n) max) [
  | yes p ↦ omega (arith, mod-eq_of_lt p)
  | no p ↦ omega (
    arith,
    mod-eq-sub-mod {n = t + suc n} {m = max} (omega arith),
    mod-eq_of_lt {n = t + suc n - max} {m = max} (omega arith),
  )
]

-- Storing a message in the slot behind the last one appends it.
messages-store_bytes :
    (buf : List ℕ) (max : ℕ) (msg : List ℕ) (n t h : ℕ)
    → max * length msg ≤ length buf
    → t < max
    → n < max
    → h ≡ (t + n) % max
    → messages (store_bytes buf (h * length msg) msg) (length msg) max t (suc n)
      ≡ messages buf (length msg) max t n ++ (msg ∷ [])
messages-store_bytes buf max msg zero t h st ht hn e =
    rw (e, add-zero, mod-eq_of_lt ht)
      (ap (λ m. m ∷ []) (load_bytes-store_bytes buf (t * length msg) msg (in_buf t ht)))
  where
    in_buf : (t : ℕ) → t < max → t * length msg + length msg ≤ length buf
    in_buf t ht = omega (arith, slot_in t (length msg) max ht)
messages-store_bytes buf max msg (suc n) t h st ht hn e =
    ap₂ ◌∷◌
      (load_bytes-store_bytes_apart buf (h * length msg) msg (t * length msg) (length msg)
        (slot_apart t h (length msg) (λ p. not_round t n max ht hn (sym (p ∙ e)))))
      (messages-store_bytes buf max msg n ((t + 1) % max) h st (mod-lt (t + 1) (omega arith))
        (omega arith) (e ∙ ap (λ k. (t + k) % max) (omega arith) ∙ sym (next_slot t n max ht)))

-- The same with the size of a slot named, and for the bytes that `memcpy` takes of `msg`.
messages-send :
    (buf : List ℕ) (max size : ℕ) (msg : List ℕ) (n t h : ℕ)
    → length msg ≡ size
    → max * size ≤ length buf
    → t < max
    → n < max
    → h ≡ (t + n) % max
    → messages (store_bytes buf (h * size) (take size msg)) size max t (suc n)
      ≡ messages buf size max t n ++ (msg ∷ [])
messages-send buf max size msg n t h e =
    subst
      (λ k.
        max * k ≤ length buf
        → t < max
        → n < max
        → h ≡ (t + n) % max
        → messages (store_bytes buf (h * k) (take k msg)) k max t (suc n)
          ≡ messages buf k max t n ++ (msg ∷ []))
      e
      (λ st ht hn e.
        subst
          (λ b.
            messages (store_bytes buf (h * length msg) b) (length msg) max t (suc n)
            ≡ messages buf (length msg) max t n ++ (msg ∷ []))
          (sym (whole msg)) (messages-store_bytes buf max msg n t h st ht hn e))
  where
    whole : (xs : List ℕ) → take (length xs) xs ≡ xs
    whole xs = rw append-nil at (take-append xs [])

-- `mp_mq_send` of a message of `msg_size` bytes is the send of the bounded queue.
pub send_refines :
    (q : Mq) (msg : List ℕ) (ms : ℕ)
    → IsValid q
    → length msg ≡ q.msg_size
    → let (s, q') = send q msg ms in (s, contents q') ≡ Fifo.send q.max_msgs (contents q) msg
unfolding send Fifo.send
send_refines q msg ms v e = ground (
  arith,
  length-messages q.buffer q.msg_size q.max_msgs q.tail q.cur_msgs,
  offset_in q q.head v,
  head_in v,
  messages-send q.buffer q.max_msgs q.msg_size msg q.cur_msgs q.tail q.head,
)

pub receive_refines :
    (q : Mq) (ms : ℕ)
    → IsValid q
    → let (s, out, q') = receive q ms in (s, out, contents q') ≡ Fifo.receive (contents q)
unfolding receive Fifo.receive
receive_refines q ms v = ground (
  arith,
  messages_of_pos q.buffer q.msg_size q.max_msgs q.tail q.cur_msgs,
  offset_in q q.tail v,
  mod-eq_of_lt {n = q.tail + 1} {m = size_mod},
)

-- Every `put` carries a whole message.
abbrev pub IsSized : ℕ → Call → Type 0
IsSized size (put msg) = length msg ≡ size
IsSized size get = Unit {0}

-- The sizes are fixed from `mp_mq_init` on.
sizes-send :
    (q : Mq) (msg : List ℕ) (ms : ℕ)
    → ((send q msg ms).1.max_msgs ≡ q.max_msgs) × ((send q msg ms).1.msg_size ≡ q.msg_size)
unfolding send
sizes-send q msg ms = ground arith

sizes-receive :
    (q : Mq) (ms : ℕ)
    → ((receive q ms).2.max_msgs ≡ q.max_msgs) × ((receive q ms).2.msg_size ≡ q.msg_size)
unfolding receive
sizes-receive q ms = ground arith

run_refines_at :
    (max size : ℕ) (q : Mq) (calls : List Call)
    → q.max_msgs ≡ max
    → q.msg_size ≡ size
    → IsValid q
    → All (IsSized size) calls
    → run q calls ≡ Fifo.run max (contents q) calls
unfolding run Fifo.run
run_refines_at max size q [] em es v h = refl
run_refines_at max size q (put msg ∷ calls) em es v (h, hs) =
    let e = send_refines q msg 0 v (h ∙ sym es) in
    cc (
      e,
      ap (λ k. Fifo.send k (contents q) msg) em,
      run_refines_at max size (send q msg 0).1 calls ((sizes-send q msg 0).0 ∙ em)
          ((sizes-send q msg 0).1 ∙ es) (send-IsValid q msg 0 v) hs,
    )
run_refines_at max size q (get ∷ calls) em es v (h, hs) = cc (
  receive_refines q 0 v,
  run_refines_at max size (receive q 0).2 calls ((sizes-receive q 0).0 ∙ em)
      ((sizes-receive q 0).1 ∙ es) (receive-IsValid q 0 v) hs,
)

-- No sequence of calls, each put of a whole message, tells a valid queue from the bounded
-- first-in-first-out queue of its contents: every status and every message received is the same.
pub run_refines :
    (q : Mq) (calls : List Call)
    → IsValid q
    → All (IsSized q.msg_size) calls
    → run q calls ≡ Fifo.run q.max_msgs (contents q) calls
run_refines q calls v h = run_refines_at q.max_msgs q.msg_size q calls refl refl v h
