-- ===== src/Examples.antt =====
-- Runs of the theorems at concrete inputs, and of the code at known values.
pub mod Data
mod Sums
mod Tables
mod InFlight
mod Wires
mod Sending
mod Plain
mod Users
mod Card
mod Transmission
mod Board
mod Firmware
