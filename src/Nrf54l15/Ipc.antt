-- ===== src/Nrf54l15/Ipc.antt =====
-- platform/nrf54l15/shared/ipc.c: messages, semaphores and events between the cores, as one core sees
-- them. A critical section masks this core's interrupts. What the other core, the hardware and this
-- core's other code do between two critical sections is a parameter, the pauses. `id` is what
-- `mp_hal_nrf54l15_get_core_id` gives on the core: 0 by m33/cpu.c, and 1 by rv32/cpu.c.
pub mod Mailbox
pub mod Ready
pub mod Semaphores
use micro_posix.Prelude.{
  ℕ, zero, suc, bit_and, bit_or, bit_xor, inl, inr, Bool, true, false, not, Option, none, some, ltb,
  leb, size_mod, Status, ok, failed, ◌+◌, ◌-◌, ◌/◌, ◌%◌, ◌^◌, ◌⊎◌, ◌&&◌, ◌==◌, if◌then◌else◌,
}
use micro_posix.Run.{Run, ret, hang}

-- `ipc_message_t`
pub record Message : Type 0 where
  pub type : ℕ
  pub sender_core : ℕ
  pub receiver_core : ℕ
  pub param1 : ℕ
  pub param2 : ℕ
  pub param3 : ℕ
  pub checksum : ℕ

-- The registers, and the array of ipc.c.
pub record Ipc : Type 0 where
  pub sender : ℕ
  pub receiver : ℕ
  pub semaphore : ℕ → ℕ
  pub event_send : ℕ
  pub event_receive : ℕ
  pub core_start : ℕ
  pub core_ready : ℕ → Bool

abbrev pub put {ℓ} : {A : Type ℓ} → (ℕ → A) → ℕ → A → ℕ → A
put f i a j = if j == i then a else f j

-- The n-th pause.
abbrev pub Pauses : Type 0
Pauses = ℕ → Ipc → Ipc

abbrev event_mailbox_received : ℕ
event_mailbox_received = 1

abbrev event_semaphore_available : ℕ
event_semaphore_available = 2

abbrev event_core_ready : ℕ
event_core_ready = 4

abbrev type_core_ready : ℕ
type_core_ready = 1

unfoldable pub calculate_checksum : Message → ℕ
calculate_checksum m =
    let sum =
      (m.type + m.sender_core + m.receiver_core + m.param1 + m.param2 + m.param3) % size_mod in
    bit_xor sum (sum / 2 ^ 16)

unfoldable pub validate_checksum : Message → Bool
validate_checksum m = m.checksum == calculate_checksum m

abbrev pub get_other_core_id : (id : ℕ) → ℕ
get_other_core_id id = if id == 0 then 1 else 0

unfoldable pub init_message : (id type : ℕ) → Message
init_message id type = record m { checksum = calculate_checksum m }
  where
    m : Message
    m = record {
      type = type;
      sender_core = id;
      receiver_core = get_other_core_id id;
      param1 = 0;
      param2 = 0;
      param3 = 0;
      checksum = 0;
    }

-- `enable` is what the core's own file does to enable its interrupts.
unfoldable pub init : (id : ℕ) → (enable : Ipc → Ipc) → Ipc → Ipc
init id enable s = let s1 = enable s in record s1 { core_ready = put s1.core_ready id false }

unfoldable pub event_set : (event : ℕ) → Ipc → Ipc
event_set event s = record s { event_send = bit_or s.event_send event }

abbrev complement : ℕ → ℕ
complement bits = bit_xor (size_mod - 1) bits

unfoldable pub event_clear : (event : ℕ) → Ipc → Ipc
event_clear event s = record s { event_send = bit_and s.event_send (complement event) }

unfoldable pub event_check : (event : ℕ) → Ipc → Bool
event_check event s = not (bit_and s.event_receive event == 0)

-- `while (timeout-- > 0)`: a critical section that may return, and a pause.
unfoldable pub retry :
    {A : Type 0} → Pauses → (attempt : Ipc → Option A) → (timeout : ℕ) → Ipc → A ⊎ Ipc
retry pauses attempt zero s = inr s
retry pauses attempt (suc timeout) s = elim (attempt s) [
  | none ↦ retry pauses attempt timeout (pauses timeout s)
  | some a ↦ inl a
]

-- `IPC_BLOCKING_TIMEOUT_CYCLES`
abbrev pub blocking_timeout : ℕ
blocking_timeout = 1000000

-- The first word of a message is its type.
unfoldable pub try_send : Message → Ipc → Option Ipc
try_send m s = if s.sender == 0 then some (record s { sender = m.type }) else none

abbrev notify : (event : ℕ) → (pause : Ipc → Ipc) → Ipc → Ipc
notify event pause s = event_set event (pause s)

unfoldable pub send_blocking : Pauses → Message → Ipc → Status × Ipc
send_blocking pauses m s = elim (retry pauses (try_send m) blocking_timeout s) [
  | inl s1 ↦ (ok, notify event_mailbox_received (pauses blocking_timeout) s1)
  | inr s1 ↦ (failed, s1)
]

unfoldable pub send_nonblocking : (pause : Ipc → Ipc) → Message → Ipc → Status × Ipc
send_nonblocking pause m s = elim (try_send m s) [
  | none ↦ (failed, s)
  | some s1 ↦ (ok, notify event_mailbox_received pause s1)
]

-- The result, what the caller's message holds then, and the state.
abbrev pub Received : Type 0
Received = Status × Message × Ipc

-- `m` is what the caller's message held before.
unfoldable pub try_receive : (m : Message) → Ipc → Option Received
try_receive m s =
    if s.receiver == 0
    then none
    else some (
        if validate_checksum (record m { type = s.receiver })
        then (ok, record m { type = s.receiver }, record s { receiver = 0 })
        else (failed, record m { type = s.receiver }, s))

unfoldable pub receive_blocking : Pauses → Message → Ipc → Received
receive_blocking pauses m s = elim (retry pauses (try_receive m) blocking_timeout s) [
  | inl received ↦ received
  | inr s1 ↦ (failed, m, s1)
]

unfoldable pub receive_nonblocking : Message → Ipc → Received
receive_nonblocking m s = elim (try_receive m s) [
  | none ↦ (failed, m, s)
  | some received ↦ received
]

unfoldable pub message_available : Ipc → Bool
message_available s = not (s.receiver == 0)

abbrev pub semaphore_count : ℕ
semaphore_count = 4

unfoldable pub semaphore_give : (pause : Ipc → Ipc) → (sem_id : ℕ) → Ipc → Ipc
semaphore_give pause sem_id s =
    if ltb sem_id semaphore_count
    then notify event_semaphore_available pause (record s { semaphore = put s.semaphore sem_id 1 })
    else s

unfoldable pub try_take : (sem_id : ℕ) → Ipc → Option Ipc
try_take sem_id s =
    if s.semaphore sem_id == 0
    then none
    else some (record s { semaphore = put s.semaphore sem_id 0 })

unfoldable pub semaphore_take : Pauses → (sem_id : ℕ) → Ipc → Ipc
semaphore_take pauses sem_id s =
    if ltb sem_id semaphore_count
    then elim (retry pauses (try_take sem_id) blocking_timeout s) [ inl s1 ↦ s1 | inr s1 ↦ s1 ]
    else s

unfoldable pub semaphore_try_take : (sem_id : ℕ) → Ipc → Bool × Ipc
semaphore_try_take sem_id s =
    if ltb sem_id semaphore_count
    then elim (try_take sem_id s) [ none ↦ (false, s) | some s1 ↦ (true, s1) ]
    else (false, s)

unfoldable pub try_wait : (events : ℕ) (clear_on_exit : Bool) → Ipc → Option Ipc
try_wait events clear_on_exit s =
    if bit_and s.event_receive events == events
    then some (
        if clear_on_exit
        then record s { event_receive = bit_and s.event_receive (complement events) }
        else s)
    else none

unfoldable pub event_wait : Pauses → (events : ℕ) (clear_on_exit : Bool) → Ipc → Ipc
event_wait pauses events clear_on_exit s =
    elim (retry pauses (try_wait events clear_on_exit) blocking_timeout s) [
      | inl s1 ↦ s1
      | inr s1 ↦ s1
    ]

unfoldable pub start_other_core : Ipc → Ipc
start_other_core s = record s { core_start = 1 }

-- The pauses are the one inside the send and the one in front of the event.
unfoldable pub signal_core_ready : (id : ℕ) → Pauses → Ipc → Ipc
signal_core_ready id pauses s =
    let s1 = record s { core_ready = put s.core_ready id true } in
    notify event_core_ready (pauses 1)
      (send_nonblocking (pauses 0) (init_message id type_core_ready) s1).1

-- The loop from round `k` on; `ticks n` is what the n-th call of `mp_hal_get_ticks` gives, and
-- `mp_scheduler_yield` is a pause.
unfoldable pub wait_ready :
    (fuel id : ℕ) → Pauses → (ticks : ℕ → ℕ) → (timeout_ms k : ℕ) → Ipc → Run (Bool × Ipc)
wait_ready zero id pauses ticks timeout_ms k s = hang
wait_ready (suc fuel) id pauses ticks timeout_ms k s =
    let rest = wait_ready fuel id pauses ticks timeout_ms (suc k) (pauses k s) in
    let elapsed = (ticks (suc k) + size_mod - ticks 0) % size_mod in
    if s.core_ready (get_other_core_id id)
    then ret (true, s)
    else if ltb 0 timeout_ms && leb timeout_ms elapsed
    then ret (false, s)
    else rest

unfoldable pub wait_for_other_core_ready :
    (fuel id : ℕ) → Pauses → (ticks : ℕ → ℕ) → (timeout_ms : ℕ) → Ipc → Run (Bool × Ipc)
wait_for_other_core_ready fuel id pauses ticks timeout_ms s =
    wait_ready fuel id pauses ticks timeout_ms 0 s
