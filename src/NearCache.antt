-- ===== src/NearCache.antt =====
-- src/nearcache: the client-side cache of map entries and the repair of its staleness.
pub mod Config
pub mod Store
pub mod Record
pub mod Metadata
pub mod Repair
pub mod Task
pub mod Cache
