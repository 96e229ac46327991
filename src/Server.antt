-- ===== src/Server.antt =====
-- The request objects of the HTTP server (runtime/src/server).
pub mod Input
pub mod Turns
