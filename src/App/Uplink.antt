-- ===== src/App/Uplink.antt =====
-- RADIO_ServiceUplink in src/radio_app.c: bytes from the radio are gathered in the receive buffer,
-- split into TC transfer frames, and the space packets in each frame go to the software bus.
pub mod Frames
pub mod Packets
pub mod Service
pub mod Delivery
