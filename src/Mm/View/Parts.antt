-- ===== src/Mm/View/Parts.antt =====
-- Parts of views.
use micro_posix.Prelude.{ℕ, min, some, arith, size_mod, ◌+◌, ◌-◌, ◌≤◌, ◌<◌, ◌≡◌}
use micro_posix.Mm.View.{view_slice, View}

-- The view lies inside its buffer, whose size and whose end are numbers of 32 bits.
pub record IsValid (v : View) : Type 0 where
  pub inside : v.length_of ≤ v.capacity
  pub small : v.data_at + v.capacity < size_mod

-- A slice from `start` inside a valid view, where `start + n` does not wrap: it is valid, it starts
-- `start` bytes on in the memory and in its offset, it ends inside the view, and it has `n` bytes or
-- all that are left.
pub view_slice-IsValid :
    (v : View) (start n : ℕ)
    → IsValid v
    → start < v.length_of
    → start + n < size_mod
    → let s = view_slice (some v) start n in
      IsValid s
      × (s.data_at ≡ v.data_at + start)
      × (s.length_of ≡ min n (v.length_of - start))
      × (s.data_at + s.length_of ≤ v.data_at + v.length_of)
unfolding view_slice
view_slice-IsValid v start n h lt fits = ground arith

-- A slice of a slice, both inside what they are taken of, is one slice of the whole view.
pub view_slice-view_slice :
    (v : View) (a n b m : ℕ)
    → IsValid v
    → a + n ≤ v.length_of
    → b < n
    → b + m ≤ n
    → view_slice (some (view_slice (some v) a n)) b m ≡ view_slice (some v) (a + b) m
unfolding view_slice
view_slice-view_slice v a n b m h la lb lm = ground arith

-- `start + length` wraps: from any byte but the first, a slice of `2 ^ 32 - start` bytes is given
-- although the view has fewer.
pub view_slice_wraps :
    (v : View) (start : ℕ)
    → IsValid v
    → 0 < start
    → start < v.length_of
    → let s = view_slice (some v) start (size_mod - start) in
      (s.length_of ≡ size_mod - start) × (v.length_of - start < s.length_of)
unfolding view_slice
view_slice_wraps v start h pos lt = ground arith
