-- ===== src/Connection.antt =====
-- network/Connection.ts and protocol/ClientMessage.ts: messages as frames, as bytes on the socket,
-- and as what the reader of a connection makes of the chunks that it receives.
pub mod Message
pub mod Reader
pub mod Written
pub mod Framing
pub mod Steps
pub mod Receiving
pub mod Streams
pub mod Messages
pub mod Writer
pub mod Batches
pub mod Ordering
pub mod Ticking
pub mod Alone
pub mod Fragments
pub mod Reassembly
