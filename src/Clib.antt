-- ===== src/Clib.antt =====
-- The C library as the programs use it, over texts as lists of bytes.
pub mod Text
pub mod Buffers
pub mod Strtok
pub mod Decimal
