-- ===== src/Mm/Tests.antt =====
-- The theorems on memory management at a view and an arena of 16 bytes at address 4097 and a heap of
-- 256 bytes.
use micro_posix.Prelude.{false, none, some, arith, size_mod, ok, ◌-◌, ◌<◌, ◌≡◌}
use micro_posix.Mm.View.{view_slice, View}
use micro_posix.Mm.Arena.{Arena}
use micro_posix.Mm.Tlsf.{Tlsf}
use micro_posix.Mm.Tlsf.Again.{alloc_again}
use micro_posix.Mm.View.Parts
use micro_posix.Mm.Arena.Alloc
use micro_posix.Mm.Tlsf

abbrev view : View
view = record {
  data_at = 4097;
  length_of = 10;
  capacity = 16;
  offset = 0;
  owns_data = false;
  free_fn = 0;
}

view-IsValid : Parts.IsValid view
view-IsValid = record { inside = omega arith; small = omega arith }

view_slice_wraps_example :
    ((view_slice (some view) 3 (size_mod - 3)).length_of ≡ size_mod - 3)
    × (7 < (view_slice (some view) 3 (size_mod - 3)).length_of)
view_slice_wraps_example = Parts.view_slice_wraps view 3 view-IsValid (omega arith) (omega arith)

abbrev arena : Arena
arena = record { buffer = 4097; size = 16; used = 2; alignment = 4 }

abbrev heap : Tlsf
heap = record { pool = 0; size = 0; header = λ a. record { size = 0; link = none; magic = 0 } }

alloc_again_example :
    (t0 : Tlsf) × (t1 : Tlsf) × (t2 : Tlsf) × (Tlsf.init (some heap) (some 4096) 256
      ≡ (ok, some t0))
    × (Tlsf.alloc 1 t0 100 ≡ some (some 4116, t1))
    × (Tlsf.alloc 1 t1 60 ≡ some (some 4116, t2))
alloc_again_example = alloc_again 0 heap 4096 256 100 60 (omega arith) (omega arith) (omega arith)
