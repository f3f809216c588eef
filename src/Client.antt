-- ===== src/Client.antt =====
-- client_test/main.cpp
pub mod Encryption
pub mod Start
