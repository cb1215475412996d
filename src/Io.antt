-- ===== src/Io.antt =====
-- Files as the program reads and writes them: the interfaces of src/common/io.hpp, their
-- implementations, and the manager that opens them for the server.
pub mod Interface
pub mod Text
pub mod File
pub mod Netascii
pub mod Manager
mod Tests
