-- ===== src/Proxy.antt =====
-- The service proxy (pkg/controllers/proxy).
pub mod Graceful
pub mod Marks
pub mod Info
pub mod Linux
pub mod Sync
pub mod Stale
pub mod Updates
pub mod NodePorts
pub mod ExternalIps
pub mod Dsr
pub mod SyncAll
pub mod Sample
