-- ===== src/Mm/SharedHeap/Global.antt =====
-- The global heap of src/mm/shared_heap.c.
use micro_posix.Prelude.{ℕ, Bool, true, false, Option, none, some, if◌then◌else◌}
use micro_posix.Run.{Run, ret, ◌>>=◌}
use micro_posix.Mm.SharedHeap.{Block, Heap}
use micro_posix.Mm.SharedHeap.Calls.{heap_init, heap_alloc, heap_free, alloc_tracked, heap_contains}

-- The functions on the global heap, which is none until it is made. `given` says whether `malloc` gives
-- memory for it, and `garbage` what that memory holds; the result is whether the code returns 0.
unfoldable pub global_init :
    (given : Bool) (garbage : Heap) (store : ℕ → Block) (buffer : Option ℕ) (size : ℕ)
    → Option Heap
    → Bool × Option Heap
global_init given garbage store buffer size (some h) = (false, some h)
global_init given garbage store buffer size none =
    let made : Bool × Option Heap = elim (heap_init store buffer size 8) [
      | none ↦ (false, some garbage)
      | some h ↦ (true, some h)
    ] in
    if given then made else (false, none)

abbrev with_global :
    {A : Type 0} → A → (Heap → Run (A × Heap)) → Option Heap → Run (A × Option Heap)
with_global missing f none = ret (missing, none)
with_global missing f (some h) = f h >>= λ (a, h1). ret (a, some h1)

unfoldable pub global_alloc : (fuel size : ℕ) → Option Heap → Run (Option ℕ × Option Heap)
global_alloc fuel size g = with_global none (heap_alloc fuel size) g

unfoldable pub global_alloc_tracked :
    (fuel size file line : ℕ) → Option Heap → Run (Option ℕ × Option Heap)
global_alloc_tracked fuel size file line g = with_global none (alloc_tracked fuel size file line) g

unfoldable pub global_free : (fuel ptr : ℕ) → Option Heap → Run (Option Heap)
global_free fuel ptr none = ret none
global_free fuel ptr (some h) = heap_free fuel ptr h >>= λ h1. ret (some h1)

unfoldable pub global_contains : (ptr : ℕ) → Option Heap → Bool
global_contains ptr none = false
global_contains ptr (some h) = heap_contains ptr h
