-- ===== src/Sim.antt =====
-- sim/radio_sim.h and sim/radio_sim.c: the simulated radio. Its state is the structure
-- `radio_sim_state_t` with the two GPIO states that are globals there. What it sends over a
-- transport or to the ground station is appended to a list for each channel. The ground
-- thread tests a datagram before it takes the mutex of the receive buffer, and a tick may come
-- between the two (Sim/Thread).
pub mod Ring
pub mod State
pub mod Command
pub mod Thread
pub mod Tick
pub mod Response
pub mod Effects
pub mod Start
pub mod Link
