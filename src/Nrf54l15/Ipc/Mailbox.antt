-- ===== src/Nrf54l15/Ipc/Mailbox.antt =====
-- The mailbox of platform/nrf54l15/shared/ipc.c.
use micro_posix.Prelude.{
  ℕ, zero, suc, bit_xor, refl, sym, ap, inl, inr, Bool, false, Option, none, some, arith, ==_iff,
  Bool-cases, size_mod, ok, failed, ◌+◌, ◌/◌, ◌%◌, ◌^◌, ◌<◌, ◌≡◌, ◌∙◌, ◌==◌, if◌then◌else◌,
}
use micro_posix.Prelude.Bits.{bit_xor-equal}
use micro_posix.Nrf54l15.Ipc.{
  Pauses, calculate_checksum, validate_checksum, event_set, retry, blocking_timeout, try_send,
  send_blocking, try_receive, receive_blocking, receive_nonblocking, Message, Ipc,
}

-- A message that holds nothing, or only the type of an earlier one.
abbrev pub blank : (type : ℕ) → Message
blank type = record {
  type = type;
  sender_core = 0;
  receiver_core = 0;
  param1 = 0;
  param2 = 0;
  param3 = 0;
  checksum = 0;
}

checksum_pos : (w : ℕ) → 0 < w → w < size_mod → validate_checksum (blank w) ≡ false
unfolding validate_checksum calculate_checksum
checksum_pos w pos lt = elim (Bool-cases (0 == calculate_checksum (blank w))) [
  | inr e ↦ e
  | inl e ↦
      let sum : (w + 0 + 0 + 0 + 0 + 0) % size_mod ≡ w = omega arith in
      let zero_sum : calculate_checksum (blank w) ≡ 0 =
        omega (arith, (==_iff 0 (calculate_checksum (blank w))).0 e) in
      let same : w ≡ w / 2 ^ 16 =
        bit_xor-equal w (w / 2 ^ 16)
          (ap (λ (x : ℕ). bit_xor x (x / 2 ^ 16)) (sym sum) ∙ zero_sum) in
      absurd (omega arith)
]

-- The state in front of round `k` of a loop that has not returned before, which has `timeout` rounds.
unfoldable pub paused : Pauses → (timeout k : ℕ) → Ipc → Ipc
paused pauses timeout zero s = s
paused pauses zero (suc k) s = s
paused pauses (suc timeout) (suc k) s = paused pauses timeout k (pauses timeout s)

retry_first :
    {A : Type 0} (pauses : Pauses) (attempt : Ipc → Option A) (timeout k : ℕ) (a : A) (s : Ipc)
    → k < timeout
    → ((j : ℕ) → j < k → attempt (paused pauses timeout j s) ≡ none)
    → attempt (paused pauses timeout k s) ≡ some a
    → retry pauses attempt timeout s ≡ inl a
unfolding retry paused
retry_first pauses attempt zero k a s lt before here = absurd (omega arith)
retry_first pauses attempt (suc timeout) zero a s lt before here = rw (here, retry) refl
retry_first pauses attempt (suc timeout) (suc k) a s lt before here =
    rw (before 0 (omega arith), retry)
      (retry_first pauses attempt timeout k a (pauses timeout s) (omega arith)
        (λ j h. before (suc j) (omega arith)) here)

retry_last :
    {A : Type 0} (pauses : Pauses) (attempt : Ipc → Option A) (timeout : ℕ) (s : Ipc)
    → ((j : ℕ) → j < timeout → attempt (paused pauses timeout j s) ≡ none)
    → retry pauses attempt timeout s ≡ inr (paused pauses timeout timeout s)
unfolding retry paused
retry_last pauses attempt zero s before = refl
retry_last pauses attempt (suc timeout) s before =
    rw (before 0 (omega arith), retry)
      (retry_last pauses attempt timeout (pauses timeout s) (λ j h. before (suc j) (omega arith)))

try_send_full : (m : Message) (s : Ipc) → (s.sender == 0) ≡ false → try_send m s ≡ none
unfolding try_send
try_send_full m s e = rw e refl

try_send_free :
    (m : Message) (s : Ipc) → s.sender ≡ 0 → try_send m s ≡ some (record s { sender = m.type })
unfolding try_send
try_send_free m s e =
    ap (λ (b : Bool). if b then some (record s { sender = m.type }) else none)
      ((==_iff s.sender 0).1 e)

-- If the mailbox is free in front of one of the 1000000 rounds of
-- `mp_hal_nrf54l15_ipc_send_blocking`, and full in front of all the rounds before, the call returns 0;
-- it has put the message's type into the mailbox as it was then, and the event is set after one more
-- pause. If it is full in front of every round, the call returns -1 and has changed nothing itself.
pub send_blocking_lem :
    (pauses : Pauses) (m : Message) (s : Ipc)
    → ((k : ℕ)
        → k < blocking_timeout
        → ((j : ℕ) → j < k → ((paused pauses blocking_timeout j s).sender == 0) ≡ false)
        → (paused pauses blocking_timeout k s).sender ≡ 0
        → send_blocking pauses m s ≡ (
          ok,
          event_set 1 (
              pauses blocking_timeout
                (record (paused pauses blocking_timeout k s) { sender = m.type })),
        ))
      × (((j : ℕ)
            → j < blocking_timeout
            → ((paused pauses blocking_timeout j s).sender == 0) ≡ false)
          → send_blocking pauses m s ≡ (failed, paused pauses blocking_timeout blocking_timeout s))
unfolding send_blocking
send_blocking_lem pauses m s = (
  λ k lt before free.
      ap
        (λ r. elim r [
          | inl s1 ↦ (ok, event_set 1 (pauses blocking_timeout s1))
          | inr s1 ↦ (failed, s1)
        ])
        (retry_first pauses (try_send m) blocking_timeout k _ s lt
          (λ j h. try_send_full m _ (before j h)) (try_send_free m _ free)),
  λ before.
      ap
        (λ r. elim r [
          | inl s1 ↦ (ok, event_set 1 (pauses blocking_timeout s1))
          | inr s1 ↦ (failed, s1)
        ])
        (retry_last pauses (try_send m) blocking_timeout s (λ j h. try_send_full m _ (before j h))),
)

-- A message in the mailbox is received into memory that holds nothing, or only the type of an earlier
-- one: `mp_hal_nrf54l15_ipc_receive_nonblocking` and `mp_hal_nrf54l15_ipc_receive_blocking` return -1,
-- whatever happens in the pauses, with the type of the new message in the memory, and leave the mailbox
-- full.
pub receive-blank :
    (pauses : Pauses) (t : ℕ) (s : Ipc)
    → 0 < s.receiver
    → s.receiver < size_mod
    → (receive_nonblocking (blank t) s ≡ (failed, blank s.receiver, s))
      × (receive_blocking pauses (blank t) s ≡ (failed, blank s.receiver, s))
unfolding receive_nonblocking receive_blocking try_receive paused
receive-blank pauses t s pos lt =
    let full : (s.receiver == 0) ≡ false = ground arith in
    let bad = checksum_pos s.receiver pos lt in
    let one : try_receive (blank t) s ≡ some (failed, blank s.receiver, s) =
      rw (full, bad, try_receive) refl in
    (
      ap (λ o. elim o [ none ↦ (failed, blank t, s) | some received ↦ received ]) one,
      ap (λ r. elim r [ inl received ↦ received | inr s1 ↦ (failed, blank t, s1) ])
          (retry_first pauses (try_receive (blank t)) blocking_timeout 0 _ s (omega arith)
            (λ j h. absurd (omega arith)) one),
    )
