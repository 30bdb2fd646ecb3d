-- ===== src/Pes.antt =====
-- src/tables/pes.c: packetized elementary streams.
pub mod StreamId
pub mod Payload
pub mod Feed
pub mod Stream
