-- ===== src/Service.antt =====
-- src/rcllite/service.hpp: service servers and clients.
pub mod Header
pub mod Server
pub mod Frames
pub mod Client
pub mod Exchange
pub mod Pending
pub mod Race
mod Tests
