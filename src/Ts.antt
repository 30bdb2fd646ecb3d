-- ===== src/Ts.antt =====
-- src/ts.c, src/ts.h: transport stream packets, from the header to the parser of a whole section.
-- Header has the packet header, Parsers the choice of a parser, Continuity the continuity counter,
-- Packet `ts_parse_packet`, and the others what is proved of them.
pub mod Header
pub mod Parsers
pub mod Continuity
pub mod Packet
pub mod Safety
pub mod Laws
