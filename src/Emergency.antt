-- ===== src/Emergency.antt =====
-- emergency/src: the emergency protocol, and the dialogue with the drone port.
pub mod State
pub mod Port
pub mod Session
pub mod Preflight
pub mod Handlers
pub mod Protocol
pub mod Search
pub mod Rescue
pub mod Steady
pub mod Grant
pub mod Departure
