-- ===== src/SecurityMonitor.antt =====
-- security_monitor/src: the policy gateway between the components.
pub mod Policy
pub mod State
pub mod Isolation
pub mod PolicyStore
pub mod Proxy
pub mod Watchdog
pub mod Membership
pub mod Consistent
pub mod Service
pub mod Gateway
pub mod Switch
pub mod Authority
pub mod Updates
pub mod Supervision
