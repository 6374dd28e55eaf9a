-- ===== src/Fleet/Scheduler.antt =====
-- fleet/src/mnemosyne_fleet/scheduler.py: the scheduler's data, its selection of a node, and
-- `acquire` and `release`. Times are ticks; `registry.live_records()` comes as a list.
pub mod Types
pub mod Select
pub mod Queue
pub mod Selection
pub mod Barred
pub mod Permits
pub mod Fairness
pub mod Fifo
pub mod Tests
