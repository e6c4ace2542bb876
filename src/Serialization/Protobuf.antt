-- ===== src/Serialization/Protobuf.antt =====
-- src/serialization/protobuf.c: the Protocol Buffers wire format, written to and read from a buffer.
-- Pointers to a writer, a reader or a result are not null. An intN_t and the bits of a float or a
-- double are given as the bit pattern, a number below 2^N.
pub mod Reader
pub mod RoundTrip
pub mod Size
pub mod Buffers
mod Tests
pub mod Writer
pub mod Zigzag
