-- ===== src/Fleet/Protocol.antt =====
-- fleet/src/mnemosyne_fleet/protocol.py: the snapshot that a node publishes, and its validation.
pub mod Types
pub mod Fields
pub mod Validate
pub mod Consistency
pub mod Samples
pub mod Tests
