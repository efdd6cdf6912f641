-- ===== src/Sim/Command/Accept.antt =====
-- What the simulator does with each packet that the driver builds.
use tryspace_comp_radio.Base.{
  ℕ, suc, ◌+◌, ◌-◌, ◌<◌, ◌≡◌, ◌≢◌, List, [], ◌∷◌, arith, ℤ, length, length-append, get_or,
  get_or-append_at, be16_round_trip,
}
use tryspace_comp_radio.Hardware.{DeviceConfig}
use tryspace_comp_radio.Device.{device_trailer}
use tryspace_comp_radio.Device.Packet.{command_packet}
use tryspace_comp_radio.Sim.State.{Sim}
use tryspace_comp_radio.Sim.Command.{dispatch, handle_spi_command}

pub length-command_packet :
    (cmd : ℕ) (payload : List ℕ) → length (command_packet cmd payload) ≡ 5 + length payload
length-command_packet cmd payload = omega (arith, length-append payload (device_trailer ∷ []))

trailer_last :
    (cmd : ℕ) (payload : List ℕ)
    → get_or (command_packet cmd payload) (5 + length payload - 1) 0 ≡ device_trailer
trailer_last cmd payload =
    let e : 5 + length payload - 1 ≡ suc (suc (suc (suc (length payload)))) = omega arith in
    rw e (get_or-append_at payload [] device_trailer 0)

-- A radio with power carries out every packet of the command format with a payload below 65536
-- bytes.
pub handle_spi_command-accept :
    (cfg : DeviceConfig) (sent : ℤ) (cmd : ℕ) (payload : List ℕ) (s : Sim)
    → s.power_value ≢ 0
    → length payload < 65536
    → handle_spi_command cfg sent (command_packet cmd payload) s
      ≡ dispatch cfg sent cmd (length payload) (command_packet cmd payload) s
unfolding handle_spi_command
handle_spi_command-accept cfg sent cmd payload s on h =
    rw
      (
        be16_round_trip (length payload) h,
        trailer_last cmd payload,
        length-append payload (device_trailer ∷ []),
      )
      (ground arith)
