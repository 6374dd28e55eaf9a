-- ===== src/Usage.antt =====
-- usage_normalization.py: the token usage of a response or of a stream of server-sent events.
pub mod Types
pub mod Normalize
pub mod Endpoint
pub mod Framing
pub mod Stream
pub mod Chunks
pub mod Parsing
pub mod Tests
