-- ===== src/Lib.antt =====
-- microPOSIX, a small operating system for microcontrollers in C: its kernel, its memory managers,
-- its Protocol Buffers, EDF and JSON formats, and what the two cores of the nRF54L15 share.
--
-- Files and what they model:
--   Kernel/Sched      src/kernel/scheduler.c: thread control blocks, the ready list, the timer tick and
--                     the choice of the next thread. A control block is named by a number, and the
--                     ready list goes through the fields `link`. Sched/Pick, Tick, Wake, Idle, Queue and
--                     Blocked are its proofs.
--   Kernel/Thread     src/kernel/thread.c: creation, yield, sleep and exit over the scheduler.
--   Kernel/Ipc        src/kernel/ipc.c: mutexes and semaphores over the scheduler.
--   Kernel/Mq         src/kernel/mq.c: message queues in a ring of bytes; Mq/Fifo is their specification.
--   Kernel/Timer      src/kernel/timer.c: software timers.
--   Kernel/Watchdog   src/kernel/watchdog.c: the check-ins of threads.
--   Mm/View, Mm/Arena src/mm/memory_view.c: views, slices and arenas over addresses.
--   Mm/Pool, Mm/Tlsf  src/mm/pool.c and src/mm/tlsf.c: the two allocators.
--   Mm/Gc             src/mm/gc.c: the garbage collector. Objects are named by the addresses of their
--                     headers in a store; Gc/Collect has marking, sweeping and promotion, Gc/Objects the
--                     calls on objects. Gc/Memory, Runs, Roots and Lifetime are its proofs.
--   Mm/SharedHeap     src/mm/shared_heap.c: headers of blocks by their address and the list of free ones;
--                     SharedHeap/Calls and Global have the functions called from outside, BestFit and
--                     Ring are proofs.
--   Serialization/Protobuf
--                     src/serialization/protobuf.c: Writer and Reader over buffers of bytes; Size has
--                     the size functions, Zigzag the signed numbers, RoundTrip what is read of what was
--                     written.
--   Serialization/Edf src/serialization/edf.c: Types has the type codes, Writer and Reader the calls on
--                     buffers, which are those of Protobuf, Skip the skip of a value, Registry the
--                     schemas, Buffers the start and the end of a writer or a reader. Emit and Take say
--                     what each call appends and reads; Value has values as trees, and what is written
--                     of them; RoundTrip, Value/Skipping, Faults and Faults/Endless are proofs.
--   Serialization/Json
--                     src/serialization/json.c: Value has the values, which are trees, Parser and Parse
--                     the parser, whose functions go on with the bytes that are ahead, Generator the
--                     generator, Api the functions on values, and Copy deep copies and equality.
--                     Generator/Text is the text that the generator is to write; Generator/Writes,
--                     Says and Refines, Parse/Progress, Total, Rounds, Ends and Quotes, Api/Members, Copy/Same and
--                     Copy/Loops are proofs.
--   Nrf54l15          platform/nrf54l15/shared: Ipc has ipc.c, the mailbox, semaphores and events between
--                     the two cores as one of them sees them, CoreSync has core_sync.c, the barrier, the
--                     rendezvous and the handshake, SharedMemory and Registry have shared_memory.c, the
--                     spinlocks, mutexes and threads of both cores. CoreSync/Meet has the accesses of
--                     two rendezvous as steps, Ipc/Ready/Calls the calls of a core to ipc.c;
--                     CoreSync/Meet/Exchange, CoreSync/Barrier, SharedMemory/Starve, Ipc/Mailbox,
--                     Ipc/Ready, Ipc/Ready/Flags and Ipc/Semaphores are proofs.
--   Run               what running code comes to: a result, `fault` for an access outside a buffer or to
--                     memory that is freed, or `hang` for a loop that does not end.
--   Prelude           numbers, lists and bits; Prelude/Chain is a linked list in a store and the loop over
--                     one, Prelude/Chain/Remove the removal that scheduler.c and timer.c both have.
--
-- Threads, timers, synchronisation and the tick all change the scheduler's state by its operations; a
-- context switch, which the architecture's code makes, is a step of Kernel/Ipc/Blocked.
--
-- Numbers: `size_t`, `uint32_t` and addresses have 32 bits and wrap by `% size_mod`; `uint64_t` wraps by
-- `% u64_mod`. A loop over a linked list runs on fuel, and the theorems ask for as much fuel as the list has
-- nodes, which is enough. A varint has ten groups at most, which is its fuel; the doubling of a
-- writer's or a generator's capacity ends in 33 rounds or never. The parser of JSON runs on one unit of
-- fuel for each level of nesting and each round of a loop; one more than the input has bytes is enough. The skip
-- of an EDF value runs on one unit for each value, element and field, which is the size of the value.
--
-- Parameters: what `realloc`, `malloc` and `snprintf` give, the conversions of numbers in the C
-- library, where the linker puts the stacks, what the memory holds where stacks are scanned, what a
-- timer's callback does, and what the other core does between two critical sections of a core.
--
-- Not modelled: `mp_thread_join` and the idle thread, whose loops wait for other contexts;
-- `mp_memory_view_copy` and `mp_memory_view_compare`; the freeing of JSON values and the stubs for JSON
-- files; nulls inside the EDF values of Serialization/Edf/Value; the dumps of the collector and the shared heap, the collector's global functions, and the
-- bytes of the data in the shared heap, with its zeroed allocation; the initialisation of the memory
-- that both cores of the nRF54L15 share; src/serialization/odata.c; and all of src/network, src/drivers,
-- src/ble, src/bootloader, src/debug and the rest of platform, which are input and output or calls of
-- vendor code.
pub mod Prelude
pub mod Run
pub mod Kernel
pub mod Mm
pub mod Serialization
pub mod Nrf54l15
