-- ===== src/Server.antt =====
-- internal/server: the rooms of the server and the clients that are connected to it.
pub mod Client
pub mod Room
mod Tests
