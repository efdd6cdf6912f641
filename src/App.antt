-- ===== src/App.antt =====
-- src/radio_app.c and its headers: the flight software application of the radio.
pub mod Eid
pub mod State
pub mod Commands
pub mod Uplink
pub mod Downlink
pub mod Dispatch
pub mod Executive
pub mod Start
pub mod Main
