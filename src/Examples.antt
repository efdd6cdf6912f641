-- ===== src/Examples.antt =====
-- Concrete runs: a small world outside the program, and the theorems at inputs in it.
pub mod World
mod Uplink
mod Radio
mod Application
mod Cli
mod Start
mod Sim
mod Link
mod Delivery
mod Downlink
