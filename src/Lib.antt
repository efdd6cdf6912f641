-- ===== src/Lib.antt =====
-- A model of the TrySpace radio component: the flight software application, the device driver under
-- it, and the simulated radio that the driver talks to.
--
-- The application (src/radio_app.c) takes commands from the software bus. It enables the radio
-- through the driver (shared/radio_device.c), configures it, and at each service command moves data:
-- uplink bytes from the radio are put together to transfer frames, which CryptoLib opens, and the
-- space packets in them go to the software bus; packets for the ground go into TM frames and over
-- the radio. The simulated radio (sim/radio_sim.c) keeps the ground station's bytes in a ring
-- buffer until the driver asks for them.
--
-- Base: helpers on Booleans, lists, arrays, integers and big-endian fields.
-- Hardware: the libraries libspi and libgpio and the OS services, as a record of operations over a
--   state of the world outside; the constants of the generated device_cfg.h.
-- Env: cFE, CryptoLib and the TM libraries in the same way, and the command messages.
-- Device: shared/radio_device.c, a definition for each function (RADIO_CommandDevice is
--   `command_device`). Device/Packet and Device/Commands say what goes over SPI.
-- Sim: sim/radio_sim.c. Sim/Ring is the receive buffer, Sim/State the state and the replies,
--   Sim/Command the SPI commands, Sim/Tick the GPIO requests, a tick, and a ground datagram.
--   Sim/Ring/Queue compares the buffer with a queue; Sim/Response and Sim/Effects follow a packet
--   of the driver to the reply as the driver reads it, Sim/Tick/Runs runs of the simulator,
--   and Sim/Thread the ground thread's loop, with a tick between its tests on a datagram and the
--   mutex in Sim/Thread/Race.
--   Sim/Start is the start and the end of the simulator and its component interface, with a note of
--   every resource that is taken or released; Sim/Start/Owned says what is held when.
--   Sim/Link puts the simulated radio behind the driver's SPI device, with what Simulith does on the
--   way as the laws of a record; App/Uplink/Service/Linked puts the application on top of both, and
--   App/Uplink/Delivery adds the ground station's datagrams and the simulator's ticks, in any order
--   with the polls, up to the software bus (App/Uplink/Delivery/Bus). App/Commands/Linked
--   has the configuration and the housekeeping over the same link. App/Downlink/Delivery takes the
--   packets of the downlink pipe through the frames to the ground station; App/Downlink/Laws has what
--   it relies on, App/Downlink/Flow the packets through the inner loop. App/Dispatch/Duplex is a
--   service command that serves both ways.
-- App: src/radio_app.c. App/State is `RADIO_AppData_t` with what was handed to cFE. App/Commands has
--   enable, disable, configure, reset and the housekeeping report, App/Uplink RADIO_ServiceUplink,
--   App/Downlink RADIO_ServiceDownlink, App/Dispatch the handling of a message.
--   App/Start is RADIO_AppInit, with the table of tables/radio_sub.c in App/Start/Table, and
--   App/Main RADIO_AppMain, over App/Executive, the services of cFE
--   that only they use; App/Main/Runs has the runs of the main loop.
-- Cli: cli/radio_cli.c, which works the driver from typed lines. Cli/Text has its strings and numbers
--   as bytes, Cli/Tokens how a line is taken apart, Cli/Execute `process_command`, Cli/Main `main`.
--   Cli/Tokens/Line and Cli/Tokens/Rows follow a line into the rows and back, Cli/Session to the
--   packet that goes out.
-- Examples: concrete runs.
--
-- State is passed explicitly, and an error path is a value. An unsigned field keeps its wrap-around
-- (`% 256`, `% 65536`). A byte is a number; where the code masks or shifts, the model divides.
--
-- Loops. The split of the receive buffer is given one turn more than the buffer has bytes, the
-- scan for packets one more than the payload has, and the scan for a header as many as the buffer
-- has: each turn raises the offset (App/Uplink/Frames/Fuel, App/Uplink/Packets/Turns,
-- App/Uplink/Frames/Resync). The inner loop of the downlink has as many turns as the limit of
-- packets, since each turn that goes on counts one. The outer loop of the downlink may go on for
-- ever: a packet as large as a fresh frame's room is tried again without end. It takes a number
-- of turns, and so does the loop that empties the downlink pipe; both give `none` when they run
-- out (App/Downlink/Ends, App/Downlink/Stuck, App/Dispatch/Service).
--
-- The main loop and the loop of the command line interface take a number of turns in the same way.
-- The first goes on as long as cFE lets it (App/Main/Runs); for the second, one turn more than the
-- input has bytes is enough (Cli/Ends).
--
-- Not modelled: what `select` and the socket give the simulator's ground thread and its transports'
-- bytes, which are inputs of the steps; the names and addresses of sockets, transports and
-- tables; console output, time stamps and the system log; and the unit tests. The libraries are
-- parameters. What a call comes to that writes behind an array is one too (`overrun` in Hardware).
-- CryptoLib is taken not to write to the receive buffer. A tick of the simulator is one step, and
-- so is what its ground thread does while it holds the mutex; App/Uplink/Delivery has datagrams
-- that no tick interrupts. `atoi` is that of numbers in the range of `int`.
pub mod Base
pub mod Hardware
pub mod Device
pub mod Sim
pub mod Env
pub mod App
pub mod Cli
pub mod Examples
