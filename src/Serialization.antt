-- ===== src/Serialization.antt =====
-- The serialization formats: src/serialization and include/microposix/serialization.
pub mod Protobuf
pub mod Edf
pub mod Json
