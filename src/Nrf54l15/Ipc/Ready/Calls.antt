-- ===== src/Nrf54l15/Ipc/Ready/Calls.antt =====
-- Runs of the functions of platform/nrf54l15/shared/ipc.c on one core.
use micro_posix.Prelude.{ℕ, Bool, ◌≡◌}
use micro_posix.Nrf54l15.Ipc.{
  Pauses, init, event_set, event_clear, send_blocking, send_nonblocking, receive_blocking,
  receive_nonblocking, semaphore_give, semaphore_take, semaphore_try_take, event_wait,
  start_other_core, signal_core_ready, Message, Ipc,
}

mutual
  -- Calls on the core `id`, one behind the other.
  pub data Runs (id : ℕ) : Ipc → Ipc → Type 0 where
    done : {s : Ipc} → Runs id s s
    calls : {s t u : Ipc} → Runs id s t → Call id t u → Runs id s u

  -- A call, in whose pauses other calls may run, or what the hardware and the other core do to the
  -- registers; the flags are an array of this core's image.
  pub data Call (id : ℕ) : Ipc → Ipc → Type 0 where
    registers : {s s' : Ipc} → s'.core_ready ≡ s.core_ready → Call id s s'
    initialises :
        {s : Ipc} (enable : Ipc → Ipc)
        → ((t : Ipc) → Runs id t (enable t))
        → Call id s (init id enable s)
    signals :
        {s : Ipc} (pauses : Pauses)
        → ((n : ℕ) (t : Ipc) → Runs id t (pauses n t))
        → Call id s (signal_core_ready id pauses s)
    sends :
        {s : Ipc} (pauses : Pauses) (m : Message)
        → ((n : ℕ) (t : Ipc) → Runs id t (pauses n t))
        → Call id s (send_blocking pauses m s).1
    tries_send :
        {s : Ipc} (pauses : Pauses) (m : Message)
        → ((n : ℕ) (t : Ipc) → Runs id t (pauses n t))
        → Call id s (send_nonblocking (pauses 0) m s).1
    receives :
        {s : Ipc} (pauses : Pauses) (m : Message)
        → ((n : ℕ) (t : Ipc) → Runs id t (pauses n t))
        → Call id s (receive_blocking pauses m s).2
    tries_receive : {s : Ipc} (m : Message) → Call id s (receive_nonblocking m s).2
    gives :
        {s : Ipc} (pauses : Pauses) (sem_id : ℕ)
        → ((n : ℕ) (t : Ipc) → Runs id t (pauses n t))
        → Call id s (semaphore_give (pauses 0) sem_id s)
    takes :
        {s : Ipc} (pauses : Pauses) (sem_id : ℕ)
        → ((n : ℕ) (t : Ipc) → Runs id t (pauses n t))
        → Call id s (semaphore_take pauses sem_id s)
    tries_take : {s : Ipc} (sem_id : ℕ) → Call id s (semaphore_try_take sem_id s).1
    sets : {s : Ipc} (event : ℕ) → Call id s (event_set event s)
    clears : {s : Ipc} (event : ℕ) → Call id s (event_clear event s)
    waits :
        {s : Ipc} (pauses : Pauses) (events : ℕ) (clear_on_exit : Bool)
        → ((n : ℕ) (t : Ipc) → Runs id t (pauses n t))
        → Call id s (event_wait pauses events clear_on_exit s)
    starts : {s : Ipc} → Call id s (start_other_core s)
