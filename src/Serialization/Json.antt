-- ===== src/Serialization/Json.antt =====
-- src/serialization/json.c: JSON values, the parser and the generator.
pub mod Value
pub mod Parser
pub mod Parse
pub mod Generator
pub mod Api
pub mod Copy
mod Tests
