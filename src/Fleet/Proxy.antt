-- ===== src/Fleet/Proxy.antt =====
-- fleet/src/mnemosyne_fleet/proxy.py: the ownership of a route, one attempt on a node, and the loop
-- of `handle` over the nodes.
pub mod Types
pub mod Headers
pub mod Attempt
pub mod Handle
pub mod Exclusion
pub mod Reasons
pub mod Retries
pub mod Busy
pub mod Ownership
pub mod Vetting
pub mod Tests
