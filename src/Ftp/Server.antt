-- ===== src/Ftp/Server.antt =====
-- FTP/server.c: its state and its parts.
pub mod State
pub mod Directory
pub mod Execute
pub mod Replies
pub mod System
pub mod Locked
pub mod Login
pub mod Secrecy
pub mod Total
pub mod Connection
mod Tests
