-- ===== src/Server.antt =====
-- src/core/server.c: the listening sockets, and the table of ports.
pub mod Socket
pub mod Config
pub mod Run
pub mod SocketLaws
pub mod PortMap
pub mod ConfigLaws
mod Tests
