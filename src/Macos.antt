-- ===== src/Macos.antt =====
-- macos/service/src/mnemosyne_macos: the native service of a Mac. Its residency coordinator
-- (`coordinator.py`) and its ledger of token usage (`usage_store.py`, `usage_delivery.py`).
pub mod Targets
pub mod Types
pub mod Locked
pub mod Admission
pub mod Driver
pub mod Barrier
pub mod Audit
pub mod Runs
pub mod System
pub mod Fence
pub mod FenceDriver
pub mod FenceTasks
pub mod FenceBarriers
pub mod FenceStages
pub mod FenceRuns
pub mod Permits
pub mod Lock
pub mod LockDriver
pub mod LockTasks
pub mod LockCounts
pub mod LockRuns
pub mod Outbox
pub mod Delivery
pub mod OutboxRows
pub mod Replay
pub mod Accounts
pub mod AccountRuns
pub mod Draining
mod Tests
mod DeliveryTests
pub mod Counting
pub mod CountingTasks
pub mod CountingBarriers
