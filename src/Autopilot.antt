-- ===== src/Autopilot.antt =====
-- autopilot/src/autopilot.go: the mission control loop.
pub mod State
pub mod Actuators
pub mod Preflight
pub mod Control
pub mod Commands
pub mod Answers
pub mod Clearance
pub mod Kover
pub mod Halt
pub mod Range
pub mod Rounds
pub mod Journey
pub mod Startup
