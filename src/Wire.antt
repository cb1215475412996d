-- ===== src/Wire.antt =====
-- The packets of src/common: their types, how they are written and how they are read.
pub mod Errcode
pub mod Packet
pub mod Options
pub mod Builder
pub mod Deserializer
pub mod Parser
pub mod WellFormed
pub mod Encoding
