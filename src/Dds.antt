-- ===== src/Dds.antt =====
-- src/rcllite/dds and src/rcllite/qos.hpp: what stands between the messages and CycloneDDS.
pub mod Qos
pub mod Serdata
pub mod Blob
pub mod Config
pub mod Enclave
pub mod Reassembly
pub mod Fragments
pub mod RawOps
pub mod Transport
pub mod Take
pub mod Drain
pub mod Calls
pub mod Entities
pub mod Alive
pub mod Keeps
mod Tests
