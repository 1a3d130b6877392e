-- ===== src/Kv.antt =====
-- The KV caches of segments: src/context/kv.
pub mod ContentHash
pub mod Metadata
pub mod Handle
pub mod Resident
pub mod Manager
pub mod Status
