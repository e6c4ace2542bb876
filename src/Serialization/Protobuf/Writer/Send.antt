-- ===== src/Serialization/Protobuf/Writer/Send.antt =====
-- What each write function appends, where there is room.
use micro_posix.Prelude.{
  ℕ, zero, suc, ap, List, [], arith, u64_mod, Status, ok, length, ◌+◌, ◌/◌, ◌%◌, ◌<◌, ◌≡◌, ◌∙◌, ◌∷◌,
  ◌++◌,
}
use micro_posix.Run.{Run, ret}
use micro_posix.Serialization.Protobuf.Writer.{write_varint, Writer}
use micro_posix.Serialization.Protobuf.Writer.Room.{
  written, HasRoom, ensure_capacity-Ensured, IsValid, Ensured,
}
use micro_posix.Serialization.Protobuf.Writer.Put.{varint, push_varint-Wrote, Wrote}

-- The write returns 0 and appends the bytes `bs`; the writer stays valid, and keeps its way to grow.
pub record Sent (w w' : Writer) (bs : List ℕ) : Type 0 where
  pub valid : IsValid w'
  pub appended : written w' ≡ written w ++ bs
  pub position : w'.position ≡ w.position + length bs
  pub realloc : w'.realloc_fn ≡ w.realloc_fn

abbrev pub Sends : Writer → List ℕ → Run (Status × Writer) → Type 0
Sends w bs run = (w' : Writer) × (run ≡ ret (ok, w')) × Sent w w' bs

pub Sent-Ensured :
    (w w1 w2 : Writer) (n : ℕ) (bs : List ℕ) → Ensured w w1 n → Wrote w1 w2 bs → Sent w w2 bs
Sent-Ensured w w1 w2 n bs e t = record {
  valid = t.valid;
  appended = t.appended ∙ ap (λ x. x ++ bs) e.same;
  position = omega (arith, t.position, e.position);
  realloc = t.realloc ∙ e.realloc;
}

-- A uint64_t as `mp_protobuf_write_varint` writes it, in at most ten bytes.
abbrev pub varint64 : ℕ → List ℕ
varint64 value = varint 9 value

-- With room for ten bytes in a valid writer `mp_protobuf_write_varint` of a uint64_t returns 0,
-- appends its base-128 encoding and leaves the writer valid.
pub write_varint-Sends :
    (w : Writer) (value : ℕ)
    → IsValid w
    → HasRoom w 10
    → value < u64_mod
    → Sends w (varint64 value) (write_varint w value)
unfolding write_varint
write_varint-Sends w value v room lt =
    let (w1, e1, ens) = ensure_capacity-Ensured w 10 v room in
    let (w2, e2, wrote) =
      push_varint-Wrote 9 value w1 ens.valid (omega (arith, ens.position, ens.fits))
        (omega arith) in
    (w2, rw (e1, e2), Sent-Ensured w w1 w2 10 (varint64 value) ens wrote)

-- The `n` low bytes of a number, lowest first.
unfoldable pub le_bytes : (n value : ℕ) → List ℕ
le_bytes zero value = []
le_bytes (suc n) value = (value % 256) ∷ le_bytes n (value / 256)
