-- ===== src/Ftp.antt =====
-- FTP/: the file transfer server and client.
pub mod Protocol
pub mod Server
pub mod Client
pub mod Exchange
pub mod Network
