-- ===== src/Blocks.antt =====
-- A file cut into blocks of 512 bytes, as RFC 1350 sends it, and their datagrams.
pub mod Cut
pub mod Datagrams
