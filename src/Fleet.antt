-- ===== src/Fleet.antt =====
-- fleet/src/mnemosyne_fleet: the gateway that polls nodes, schedules requests and proxies them.
pub mod Protocol
pub mod Config
pub mod Registry
pub mod Scheduler
pub mod Store
pub mod History
pub mod Proxy
