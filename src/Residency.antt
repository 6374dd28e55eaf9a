-- ===== src/Residency.antt =====
-- cuda_residency.py: the residency and admission coordinator of the CUDA manager.
pub mod Types
pub mod Locked
pub mod Admission
pub mod Driver
pub mod Maintenance
pub mod System
pub mod Permits
pub mod Safety
pub mod DriverSafety
pub mod MaintenanceSafety
pub mod Runs
pub mod Leases
pub mod Switch
pub mod Tests
