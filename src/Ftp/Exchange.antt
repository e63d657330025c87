-- ===== src/Ftp/Exchange.antt =====
-- The server and the client of FTP/ together.
pub mod Address
pub mod Agreement
pub mod Data
pub mod Decoding
pub mod Thread
pub mod Session
pub mod Download
pub mod Requests
pub mod Refusals
mod Tests
