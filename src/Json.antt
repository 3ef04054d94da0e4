-- ===== src/Json.antt =====
-- src/rcllite/json_writer.hpp: JSON texts that are built by hand.
pub mod Escape
pub mod Unescape
mod Tests
