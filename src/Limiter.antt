-- ===== src/Limiter.antt =====
-- limiter/src: the geofence of the mission, and the clearance by the air traffic authority (ORVD).
pub mod State
pub mod Bounds
pub mod Orvd
pub mod Registration
pub mod Takeoff
pub mod Fence
pub mod Handlers
pub mod Envelope
pub mod Authorization
pub mod Loading
pub mod Handover
pub mod Breach
pub mod Permission
pub mod Stable
pub mod Limits
pub mod Patrol
pub mod Journey
pub mod Startup
