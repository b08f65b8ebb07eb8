-- ===== src/Crc.antt =====
-- The CRC-16 of the frames: src/crc.c.
pub mod Crc16
pub mod Register
pub mod Detection
pub mod File
