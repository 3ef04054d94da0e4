-- ===== src/Parameter.antt =====
-- src/rcllite/parameter.hpp, parameter.cpp and node_params.hpp: node parameters.
pub mod Value
pub mod Core
pub mod Services
pub mod Registered
pub mod Handlers
pub mod Listing
pub mod Laws
pub mod Atomic
pub mod Replay
pub mod Typed
mod Tests
