-- ===== src/Nrf54l15/Ipc/Ready/Flags.antt =====
-- Which core's flag the functions of platform/nrf54l15/shared/ipc.c write.
use micro_posix.Prelude.{
  ℕ, zero, suc, bit_and, bit_xor, refl, ap, inl, inr, Bool, true, false, Option, none, some, arith,
  ltb, Bool-cases, size_mod, ok, failed, ◌-◌, ◌≡◌, ◌∙◌, ◌⊎◌, ◌==◌, if◌then◌else◌,
}
use micro_posix.Nrf54l15.Ipc.{
  put, Pauses, validate_checksum, get_other_core_id, init_message, init, event_set, event_clear,
  retry, blocking_timeout, try_send, send_blocking, send_nonblocking, Received, try_receive,
  receive_blocking, receive_nonblocking, semaphore_count, semaphore_give, try_take, semaphore_take,
  semaphore_try_take, try_wait, event_wait, start_other_core, signal_core_ready, Message, Ipc,
}
use micro_posix.Nrf54l15.Ipc.Ready.Calls.{
  Runs, done, calls, Call, registers, initialises, signals, sends, tries_send, receives,
  tries_receive, gives, takes, tries_take, sets, clears, waits, starts,
}

-- The other core's flag is not set by a pause.
abbrev pub KeepFlag : (id : ℕ) → Pauses → Type 0
KeepFlag id pauses =
    (n : ℕ) (s : Ipc)
    → s.core_ready (get_other_core_id id) ≡ false
    → (pauses n s).core_ready (get_other_core_id id) ≡ false

other_apart : (id : ℕ) → (get_other_core_id id == id) ≡ false
other_apart id = elim (Bool-cases (id == 0)) [
  | inl e ↦ rw e (ground (arith, e))
  | inr e ↦ rw e (ground (arith, e))
]

abbrev Unset : ℕ → Ipc → Type 0
Unset id s = s.core_ready (get_other_core_id id) ≡ false

-- The own flag is written.
own_flag :
    (id : ℕ) (b : Bool) (s : Ipc)
    → Unset id s
    → Unset id (record s { core_ready = put s.core_ready id b })
own_flag id b s e = rw (other_apart id) e

-- A section that gives nothing, or something whose state has the flag unset.
abbrev Keeps : {A : Type 0} → ℕ → (A → Ipc) → (Ipc → Option A) → Type 0
Keeps {A} id state attempt =
    (s : Ipc)
    → Unset id s
    → (attempt s ≡ none) ⊎ ((a : A) × (attempt s ≡ some a) × Unset id (state a))

try_send-Keeps : (id : ℕ) (m : Message) → Keeps id (λ s. s) (try_send m)
unfolding try_send
try_send-Keeps id m s e = elim (Bool-cases (s.sender == 0)) [
  | inl q ↦ inr (record s { sender = m.type }, rw q refl, e)
  | inr q ↦ inl (rw q refl)
]

try_receive-Keeps : (id : ℕ) (m : Message) → Keeps id (λ (r : Received). r.2) (try_receive m)
unfolding try_receive
try_receive-Keeps id m s e = elim (Bool-cases (s.receiver == 0)) [
  | inl q ↦ inl (rw q refl)
  | inr q ↦ elim (Bool-cases (validate_checksum (record m { type = s.receiver }))) [
    | inl valid ↦
        inr ((ok, record m { type = s.receiver }, record s { receiver = 0 }), rw (q, valid) refl, e)
    | inr wrong ↦ inr ((failed, record m { type = s.receiver }, s), rw (q, wrong) refl, e)
  ]
]

try_take-Keeps : (id sem_id : ℕ) → Keeps id (λ s. s) (try_take sem_id)
unfolding try_take
try_take-Keeps id sem_id s e = elim (Bool-cases (s.semaphore sem_id == 0)) [
  | inl q ↦ inl (rw q refl)
  | inr q ↦ inr (record s { semaphore = put s.semaphore sem_id 0 }, rw q refl, e)
]

try_wait-Keeps :
    (id events : ℕ) (clear_on_exit : Bool) → Keeps id (λ s. s) (try_wait events clear_on_exit)
unfolding try_wait
try_wait-Keeps id events clear_on_exit s e =
    elim (Bool-cases (bit_and s.event_receive events == events)) [
      | inl q ↦ inr (taken clear_on_exit, rw q refl, by_clear clear_on_exit)
      | inr q ↦ inl (rw q refl)
    ]
  where
    taken : Bool → Ipc
    taken b =
        if b
        then record s { event_receive = bit_and s.event_receive (bit_xor (size_mod - 1) events) }
        else s

    by_clear : (b : Bool) → Unset id (taken b)
    by_clear true = e
    by_clear false = e

retry-Unset :
    {A : Type 0} (id : ℕ) (state : A → Ipc) (pauses : Pauses) (attempt : Ipc → Option A)
    (timeout : ℕ) (s : Ipc)
    → KeepFlag id pauses
    → Keeps id state attempt
    → Unset id s
    → ((a : A) × (retry pauses attempt timeout s ≡ inl a) × Unset id (state a))
      ⊎ ((s' : Ipc) × (retry pauses attempt timeout s ≡ inr s') × Unset id s')
unfolding retry
retry-Unset id state pauses attempt zero s keep keeps e = inr (s, refl, e)
retry-Unset id state pauses attempt (suc timeout) s keep keeps e = elim (keeps s e) [
  | inl q ↦
      rw (q, retry)
        (retry-Unset id state pauses attempt timeout (pauses timeout s) keep keeps
          (keep timeout s e))
  | inr (a, q, u) ↦ inl (a, rw (q, retry) refl, u)
]

-- Each call, with pauses that do not set the flag.
module _ (id : ℕ) (pauses : Pauses) (keep : KeepFlag id pauses) (s : Ipc) (e : Unset id s) where
  send_blocking-Unset : (m : Message) → Unset id (send_blocking pauses m s).1
  unfolding send_blocking event_set
  send_blocking-Unset m =
      elim (retry-Unset id (λ t. t) pauses (try_send m) blocking_timeout s keep
        (try_send-Keeps id m) e) [
          | inl (t, q, u) ↦ rw (q, send_blocking) (keep blocking_timeout t u)
          | inr (t, q, u) ↦ rw (q, send_blocking) u
        ]

  send_nonblocking-Unset : (m : Message) → Unset id (send_nonblocking (pauses 0) m s).1
  unfolding send_nonblocking event_set
  send_nonblocking-Unset m = elim (try_send-Keeps id m s e) [
    | inl q ↦ rw (q, send_nonblocking) e
    | inr (t, q, u) ↦ rw (q, send_nonblocking) (keep 0 t u)
  ]

  receive_blocking-Unset : (m : Message) → Unset id (receive_blocking pauses m s).2
  unfolding receive_blocking
  receive_blocking-Unset m =
      elim (retry-Unset id (λ (r : Received). r.2) pauses (try_receive m) blocking_timeout s keep
        (try_receive-Keeps id m) e) [
          | inl (r, q, u) ↦ rw (q, receive_blocking) u
          | inr (t, q, u) ↦ rw (q, receive_blocking) u
        ]

  receive_nonblocking-Unset : (m : Message) → Unset id (receive_nonblocking m s).2
  unfolding receive_nonblocking
  receive_nonblocking-Unset m = elim (try_receive-Keeps id m s e) [
    | inl q ↦ rw (q, receive_nonblocking) e
    | inr (r, q, u) ↦ rw (q, receive_nonblocking) u
  ]

  semaphore_give-Unset : (sem_id : ℕ) → Unset id (semaphore_give (pauses 0) sem_id s)
  unfolding semaphore_give event_set
  semaphore_give-Unset sem_id = elim (Bool-cases (ltb sem_id semaphore_count)) [
    | inl q ↦ rw (q, semaphore_give) (keep 0 _ e)
    | inr q ↦ rw (q, semaphore_give) e
  ]

  semaphore_take-Unset : (sem_id : ℕ) → Unset id (semaphore_take pauses sem_id s)
  unfolding semaphore_take
  semaphore_take-Unset sem_id = elim (Bool-cases (ltb sem_id semaphore_count)) [
    | inr out ↦ rw (out, semaphore_take) e
    | inl inside ↦
        elim (retry-Unset id (λ t. t) pauses (try_take sem_id) blocking_timeout s keep
          (try_take-Keeps id sem_id) e) [
            | inl (t, q, u) ↦ rw (inside, q, semaphore_take) u
            | inr (t, q, u) ↦ rw (inside, q, semaphore_take) u
          ]
  ]

  semaphore_try_take-Unset : (sem_id : ℕ) → Unset id (semaphore_try_take sem_id s).1
  unfolding semaphore_try_take
  semaphore_try_take-Unset sem_id = elim (Bool-cases (ltb sem_id semaphore_count)) [
    | inr out ↦ rw (out, semaphore_try_take) e
    | inl inside ↦ elim (try_take-Keeps id sem_id s e) [
      | inl q ↦ rw (inside, q, semaphore_try_take) e
      | inr (t, q, u) ↦ rw (inside, q, semaphore_try_take) u
    ]
  ]

  event_wait-Unset :
      (events : ℕ) (clear_on_exit : Bool) → Unset id (event_wait pauses events clear_on_exit s)
  unfolding event_wait
  event_wait-Unset events clear_on_exit =
      elim (retry-Unset id (λ t. t) pauses (try_wait events clear_on_exit) blocking_timeout s keep
        (try_wait-Keeps id events clear_on_exit) e) [
          | inl (t, q, u) ↦ rw (q, event_wait) u
          | inr (t, q, u) ↦ rw (q, event_wait) u
        ]

signal_core_ready-Unset :
    (id : ℕ) (pauses : Pauses) (s : Ipc)
    → KeepFlag id pauses
    → Unset id s
    → Unset id (signal_core_ready id pauses s)
unfolding signal_core_ready event_set
signal_core_ready-Unset id pauses s keep e =
    keep 1 _ (send_nonblocking-Unset id pauses keep _ (own_flag id true s e) (init_message id 1))

mutual
  unfolding init event_set event_clear start_other_core

  -- No run sets the other core's flag.
  pub Runs-flag : {id : ℕ} {s t : Ipc} → Runs id s t → Unset id s → Unset id t
  Runs-flag done e = e
  Runs-flag (calls r c) e = Call-flag c (Runs-flag r e)

  Call-flag : {id : ℕ} {s t : Ipc} → Call id s t → Unset id s → Unset id t
  Call-flag {id} (registers q) e = ap (λ f. f (get_other_core_id id)) q ∙ e
  Call-flag {id} {s} (initialises enable between) e =
      own_flag id false (enable s) (Runs-flag (between s) e)
  Call-flag {id} {s} (signals pauses between) e =
      signal_core_ready-Unset id pauses s (λ n t. Runs-flag (between n t)) e
  Call-flag {id} {s} (sends pauses m between) e =
      send_blocking-Unset id pauses (λ n t. Runs-flag (between n t)) s e m
  Call-flag {id} {s} (tries_send pauses m between) e =
      send_nonblocking-Unset id pauses (λ n t. Runs-flag (between n t)) s e m
  Call-flag {id} {s} (receives pauses m between) e =
      receive_blocking-Unset id pauses (λ n t. Runs-flag (between n t)) s e m
  Call-flag {id} {s} (tries_receive m) e =
      receive_nonblocking-Unset id (λ n t. t) (λ n t u. u) s e m
  Call-flag {id} {s} (gives pauses sem_id between) e =
      semaphore_give-Unset id pauses (λ n t. Runs-flag (between n t)) s e sem_id
  Call-flag {id} {s} (takes pauses sem_id between) e =
      semaphore_take-Unset id pauses (λ n t. Runs-flag (between n t)) s e sem_id
  Call-flag {id} {s} (tries_take sem_id) e =
      semaphore_try_take-Unset id (λ n t. t) (λ n t u. u) s e sem_id
  Call-flag (sets event) e = e
  Call-flag (clears event) e = e
  Call-flag {id} {s} (waits pauses events clear_on_exit between) e =
      event_wait-Unset id pauses (λ n t. Runs-flag (between n t)) s e events clear_on_exit
  Call-flag starts e = e
