-- ===== src/Network/Download.antt =====
-- A download over the network.
pub mod Server
