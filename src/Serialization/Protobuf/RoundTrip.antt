-- ===== src/Serialization/Protobuf/RoundTrip.antt =====
-- What a reader gives back of what a writer has written (src/serialization/protobuf.c).
use micro_posix.Prelude.{
  ℕ, refl, sym, ap, subst, Option, none, some, List, [], append-nil, arith, u64_mod, ok, length,
  drop, drop-append, length-take_le, ◌≤◌, ◌<◌, ◌≡◌, ◌∙◌, ◌++◌,
}
use micro_posix.Serialization.Protobuf.Zigzag.{unzigzag-zigzag, zigzag_below}
use micro_posix.Run.{ret}
use micro_posix.Serialization.Protobuf.Writer.{write_varint, zigzag64, write_sint64, Writer}
use micro_posix.Serialization.Protobuf.Writer.Room.{HasMemory, contents, written, HasRoom, IsValid}
use micro_posix.Serialization.Protobuf.Writer.Send.{varint64, write_varint-Sends, Sent}
use micro_posix.Serialization.Protobuf.Reader.{
  reader_init, reader_remaining, read_varint, read_as, read_sint64, Reader,
}
use micro_posix.Serialization.Protobuf.Reader.Decode.{read_groups-varint, IsAt}

length-contents :
    (b : Option (List ℕ)) (capacity position : ℕ)
    → HasMemory b capacity
    → position ≤ capacity
    → length (contents b position) ≡ position
length-contents none capacity position m le = omega (arith, m)
length-contents (some memory) capacity position m le =
    length-take_le position memory (omega (arith, m))

pub length-written : (w : Writer) → IsValid w → length (written w) ≡ w.position
length-written w v = length-contents w.buffer w.capacity w.position v.memory v.inside

-- A reader of everything that the writer has written, from the byte `position` on.
abbrev pub reader_of : Writer → ℕ → Reader
reader_of w position = record (reader_init (written w) (length (written w))) { position = position }

-- After a write, a reader that starts where the writer was stands before the bytes.
pub reader_of-IsAt :
    (w w' : Writer) (bs : List ℕ) → IsValid w → Sent w w' bs → IsAt (reader_of w' w.position) bs
unfolding reader_init
reader_of-IsAt w w' bs v sent = record {
  ahead =
      ap (drop w.position) sent.appended
      ∙ ap (λ (n : ℕ). drop n (written w ++ bs)) (sym (length-written w v))
      ∙ drop-append (written w) bs;
  count = omega (arith, sent.position, length-written w' sent.valid);
  whole = refl;
  small = omega (arith, length-written w' sent.valid, sent.valid.inside, sent.valid.small);
}

-- With room for ten bytes in a valid writer `mp_protobuf_write_varint` returns 0, and
-- `mp_protobuf_read_varint` on what it has written then gives the same number, for every uint64_t; it leaves the reader at the end.
pub read_varint-write_varint :
    (w : Writer) (value : ℕ)
    → IsValid w
    → HasRoom w 10
    → value < u64_mod
    → (w' : Writer) × (write_varint w value ≡ ret (ok, w'))
      × ((r : Reader) × (read_varint (reader_of w' w.position) ≡ ret (some value, r))
          × (reader_remaining r ≡ 0))
unfolding read_varint reader_remaining
read_varint-write_varint w value v room lt =
    let (w', e, sent) = write_varint-Sends w value v room lt in
    let here = subst (IsAt _) (sym (append-nil (varint64 value))) (reader_of-IsAt w w' _ v sent) in
    let (r, e', at) =
      read_groups-varint 9 10 0 0 value [] _ here (omega arith) (omega arith) (omega arith)
        (omega arith) in
    (
      w',
      e,
      (
        r,
        e' ∙ ap (λ n. ret (some n, r)) (omega arith),
        omega (arith, at.count, at.whole, at.small),
      ),
    )

-- With room for ten bytes in a valid writer `mp_protobuf_write_sint64` of the bit pattern of an int64_t
-- returns 0, and `mp_protobuf_read_sint64` on what it has written then gives the same pattern.
pub read_sint64-write_sint64 :
    (w : Writer) (value : ℕ)
    → IsValid w
    → HasRoom w 10
    → value < u64_mod
    → (w' : Writer) × (write_sint64 w value ≡ ret (ok, w'))
      × ((r : Reader) × (read_sint64 (reader_of w' w.position) ≡ ret (some value, r)))
unfolding read_sint64 read_as write_sint64
read_sint64-write_sint64 w value v room lt =
    let (w', e, (r, e', rest)) =
      read_varint-write_varint w (zigzag64 value) v room (zigzag_below 63 value lt) in
    (w', e, (r, rw e' (ap (λ n. ret (some n, r)) (unzigzag-zigzag 63 value lt))))
