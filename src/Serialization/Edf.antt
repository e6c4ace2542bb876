-- ===== src/Serialization/Edf.antt =====
-- src/serialization/edf.c: the Embedded Data Format, typed values in a buffer. Its writer and its
-- reader have the fields, and `ensure_capacity` the text, of those of protobuf.c, so the types are
-- shared. Pointers to a writer, a reader or a result are not null. An intN_t and the bits of a float or
-- a double are given as the bit pattern, a number below 2^N. size_t has 32 bits.
pub mod Types
pub mod Buffers
pub mod Writer
pub mod Reader
pub mod Skip
pub mod Emit
pub mod Take
pub mod RoundTrip
pub mod Value
pub mod Faults
pub mod Registry
mod Tests
