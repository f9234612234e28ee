-- ===== src/ConnectionManager.antt =====
-- network/ConnectionManager.ts: the connections of a client, and its state towards the cluster.
-- Connections are named by the numbers of `connectionIdCounter`, and stand on a heap; addresses are
-- their texts. A step that the code awaits is an operation of its own.
pub mod Registry
pub mod Manager
pub mod Alive
pub mod Closing
pub mod Joining
pub mod Steps
pub mod Retrying
