-- ===== src/Serialization/Edf/Emit.antt =====
-- What the write functions of src/serialization/edf.c append, where there is room for exactly that.
pub mod Calls
pub mod Numbers
use micro_posix.Prelude.{
  ℕ, refl, ap, inl, inr, List, [], append_assoc, arith, le→leb, size_mod, ok, failed, length,
  length-append, ◌+◌, ◌%◌, ◌≤◌, ◌≡◌, ◌∙◌, ◌∷◌, ◌++◌,
}
use micro_posix.Run.{Run, ret, ◌>>=◌}
use micro_posix.Serialization.Edf.Types.{code, EdfType}
use micro_posix.Serialization.Protobuf.Writer.{ensure_capacity, put_byte, Writer}
use micro_posix.Serialization.Edf.Writer.{
  Action, then_write, append_byte, write_byte, write_type, write_object_end,
}
use micro_posix.Serialization.Protobuf.Writer.Room.{
  written, HasRoom, ensure_capacity-Ensured, IsValid, Ensured,
}
use micro_posix.Serialization.Protobuf.Writer.Put.{put_byte-Wrote, Wrote}
use micro_posix.Serialization.Protobuf.Writer.Send.{Sent-Ensured, Sent}
use native.Mathlib.Decide.{dec_lt}
use native.Mathlib.Nat.{pow-suc, div-div-eq-div-mul}

pub HasRoom-le : (w : Writer) (m n : ℕ) → n ≤ m → HasRoom w m → HasRoom w n
HasRoom-le w m n le (inl fits) = inl (omega arith)
HasRoom-le w m n le (inr (realloc, e, reliable, small)) = inr (realloc, e, reliable, omega arith)

-- On a valid writer with room for `bs` and any `n` bytes more, `f` appends `bs`, keeps the room for
-- those `n` and gives `wrap` of the writer.
abbrev pub Gives : {A : Type 0} → (Writer → A) → (Writer → Run A) → List ℕ → Type 0
Gives wrap f bs =
    (w : Writer) (n : ℕ)
    → IsValid w
    → HasRoom w (length bs + n)
    → (w' : Writer) × (f w ≡ ret (wrap w')) × Sent w w' bs × HasRoom w' n

-- The function returns 0.
abbrev pub Emits : Action → List ℕ → Type 0
Emits = Gives (λ w. (ok, w))

abbrev Adds : (Writer → Run Writer) → List ℕ → Type 0
Adds = Gives (λ w. w)

Sent-append :
    (w1 w2 w3 : Writer) (xs ys : List ℕ) → Sent w1 w2 xs → Sent w2 w3 ys → Sent w1 w3 (xs ++ ys)
Sent-append w1 w2 w3 xs ys a b = record {
  valid = b.valid;
  appended = b.appended ∙ ap (λ t. t ++ ys) a.appended ∙ append_assoc (written w1) xs ys;
  position = omega (arith, a.position, b.position, length-append xs ys);
  realloc = b.realloc ∙ a.realloc;
}

pub Gives-bind :
    {A B : Type 0} (wrap : Writer → A) (wrap' : Writer → B) (f : Writer → Run A) (g : A → Run B)
    (xs ys : List ℕ)
    → Gives wrap f xs
    → Gives wrap' (λ w. g (wrap w)) ys
    → Gives wrap' (λ w. f w >>= g) (xs ++ ys)
Gives-bind wrap wrap' f g xs ys first second w n v room =
    let (w1, e1, sent1, room1) =
      first w (length ys + n) v (HasRoom-le w _ _ (omega (arith, length-append xs ys)) room) in
    let (w2, e2, sent2, room2) = second w1 n sent1.valid room1 in
    (w2, ap (λ m. m >>= g) e1 ∙ e2, Sent-append w w1 w2 xs ys sent1 sent2, room2)

pub Emits-then :
    (first next : Action) (xs ys : List ℕ)
    → Emits first xs
    → Emits next ys
    → Emits (then_write first next) (xs ++ ys)
Emits-then first next xs ys a b w n v room =
    Gives-bind (λ x. (ok, x)) (λ x. (ok, x)) first
      (λ (status, w1). elim status [ failed ↦ ret (failed, w1) | ok ↦ next w1 ]) xs ys a b w n v
      room

Adds-ok :
    (f : Writer → Run Writer) (xs : List ℕ) → Adds f xs → Emits (λ w. f w >>= λ w1. ret (ok, w1)) xs
Adds-ok f xs adds w n v room =
    let (w', e, sent, room') = adds w n v room in
    (w', ap (λ m. m >>= λ w1. ret (ok, w1)) e, sent, room')

ensure_capacity-HasRoom :
    (w : Writer) (k n : ℕ)
    → IsValid w
    → HasRoom w (k + n)
    → (w1 : Writer) × (ensure_capacity w k ≡ ret w1) × Ensured w w1 k × HasRoom w1 (k + n)
unfolding ensure_capacity
ensure_capacity-HasRoom w k n v (inl fits) = (
  w,
  rw (le→leb ((w.position + k) % size_mod) w.capacity (omega (arith, v.small))),
  record { valid = v; position = refl; same = refl; fits = omega arith; realloc = refl },
  inl fits,
)
ensure_capacity-HasRoom w k n v (inr (realloc, e, reliable, small)) =
    let (w1, e1, ens) = ensure_capacity-Ensured w k v (inr (realloc, e, reliable, omega arith)) in
    (w1, e1, ens, inr (realloc, ens.realloc ∙ e, reliable, omega (arith, ens.position)))

HasRoom-Wrote :
    (w w' : Writer) (bs : List ℕ) (n : ℕ) → Wrote w w' bs → HasRoom w (length bs + n) → HasRoom w' n
HasRoom-Wrote w w' bs n wrote (inl fits) = inl (omega (arith, wrote.position, wrote.size))
HasRoom-Wrote w w' bs n wrote (inr (realloc, e, reliable, small)) =
    inr (realloc, wrote.realloc ∙ e, reliable, omega (arith, wrote.position))

-- Bytes that are written behind one call of `ensure_capacity` for all of them.
pub Gives-block :
    {A : Type 0} (wrap : Writer → A) (f : Writer → Run A) (bs : List ℕ)
    → ((w : Writer)
        → IsValid w
        → w.position + length bs ≤ w.capacity
        → (w' : Writer) × (f w ≡ ret (wrap w')) × Wrote w w' bs)
    → Gives wrap (λ w. ensure_capacity w (length bs) >>= f) bs
Gives-block wrap f bs writes w n v room =
    let (w1, e1, ens, room1) = ensure_capacity-HasRoom w (length bs) n v room in
    let (w2, e2, wrote) = writes w1 ens.valid (omega (arith, ens.position, ens.fits)) in
    (
      w2,
      ap (λ m. m >>= f) e1 ∙ e2,
      Sent-Ensured w w1 w2 (length bs) bs ens wrote,
      HasRoom-Wrote w1 w2 bs n wrote room1,
    )

append_byte-Adds : (b : ℕ) → Adds (append_byte b) (b ∷ [])
unfolding append_byte
append_byte-Adds b =
    Gives-block (λ w. w) (λ w. put_byte w b) (b ∷ []) λ w v fits. put_byte-Wrote w b v (omega arith)

pub write_byte-Emits : (b : ℕ) → Emits (write_byte b) (b ∷ [])
write_byte-Emits b = Adds-ok (append_byte b) (b ∷ []) (append_byte-Adds b)

pub write_type-Emits : (t : EdfType) → Emits (write_type t) ((code t % 256) ∷ [])
unfolding write_type
write_type-Emits t = write_byte-Emits (code t % 256)

pub write_object_end-Emits : Emits write_object_end (0xFF ∷ [])
unfolding write_object_end
write_object_end-Emits = write_byte-Emits 0xFF

pub Gives-≡ :
    {A : Type 0} (wrap : Writer → A) (f g : Writer → Run A) (bs : List ℕ)
    → ((w : Writer) → f w ≡ g w)
    → Gives wrap g bs
    → Gives wrap f bs
Gives-≡ wrap f g bs same gives w n v room =
    let (w', e, sent, room') = gives w n v room in (w', same w ∙ e, sent, room')
