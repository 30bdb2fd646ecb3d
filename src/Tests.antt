-- ===== src/Tests.antt =====
-- The theorems at concrete inputs.
mod Allocator
mod Crc32
mod Hash
mod Buffer
mod Filesrc
mod Ts
mod Pes
mod Biop
mod Fsutils
mod Fifo
mod Walk
mod Tables
mod Dsmcc
mod Nit
