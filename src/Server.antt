-- ===== src/Server.antt =====
-- src/server.
pub mod Result
pub mod ReadConnection
pub mod WriteConnection
pub mod Connection
pub mod Registry
pub mod Acceptor
pub mod Service
mod Tests
