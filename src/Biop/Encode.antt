-- ===== src/Biop/Encode.antt =====
-- src/dsm-cc/biop.c: what the parsers read back.
pub mod Headers
pub mod Profiles
pub mod Modules
