-- ===== src/MissionHandler.antt =====
-- mission_handler/src: accepts missions, has them checked by the limiter, and hands them to the autopilot.
pub mod State
pub mod Wpl
pub mod Handlers
pub mod Valid
pub mod Chain
