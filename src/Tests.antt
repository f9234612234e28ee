-- ===== src/Tests.antt =====
-- The theorems at concrete inputs, and runs of the model.
mod NearCaches
mod Repairs
mod PnCounters
mod FlakeIds
mod Partitions
mod Requests
mod Locks
mod Codecs
mod Patterns
mod Streams
mod Connections
mod Writers
mod Fragments
