-- ===== src/Bdp.antt =====
-- The server of the bicycle dock points (BDP): src/svsBdp.c over two RS-485 buses.
pub mod Types
pub mod Rx
pub mod Arp
pub mod Frames
pub mod Server
pub mod Tx
pub mod DevWrite
pub mod Send
