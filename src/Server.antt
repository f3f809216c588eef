-- ===== src/Server.antt =====
-- central_server/main.cpp
pub mod Encryption
pub mod Connections
pub mod Threads
pub mod Start
