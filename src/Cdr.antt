-- ===== src/Cdr.antt =====
-- src/rcllite/cdr.hpp and the sequence helpers of src/rcllite/msg_traits.hpp.
pub mod Endian
pub mod Writer
pub mod Reader
pub mod RoundTrip
pub mod Sequence
pub mod SequenceTrip
pub mod Bounds
mod Tests
