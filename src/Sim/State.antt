-- ===== src/Sim/State.antt =====
-- The state of the simulator, its interrupt line, and the frames that it sends.
use tryspace_comp_radio.Base.{
  ℕ, ◌+◌, List, [], ◌∷◌, ◌++◌, leb, ◌==◌, if◌then◌else◌, set, take, memcpy, replicate, byte_at,
}
use tryspace_comp_radio.Hardware.{DeviceConfig}
use tryspace_comp_radio.Device.{DeviceHk, RadioConfig, device_hdr, device_trailer, mode_duplex}
use tryspace_comp_radio.Sim.Ring.{Ring, rx_count}

pub record Sim : Type 0 where
  pub interrupt_asserted : ℕ
  pub hk : DeviceHk
  pub config : RadioConfig
  pub tick_counter : ℕ
  pub rx : Ring
  pub tx_buffer_head : ℕ
  pub tx_buffer_tail : ℕ
  pub bytes_received : ℕ
  pub bytes_sent : ℕ
  pub last_update_time : ℕ
  -- `gpio_power_state.value` and `gpio_interrupt_state.value`
  pub power_value : ℕ
  pub interrupt_value : ℕ
  -- What went out over the SPI and GPIO transports, and to the ground station.
  pub spi_out : List (List ℕ)
  pub power_out : List (List ℕ)
  pub interrupt_out : List (List ℕ)
  pub ground_out : List (List ℕ)

-- radio_sim_update_interrupt
unfoldable pub update_interrupt : DeviceConfig → Sim → Sim
update_interrupt cfg s =
    let should_assert : ℕ =
      if leb cfg.interrupt_threshold (rx_count cfg.buffer_size s.rx) then 1 else 0 in
    if s.interrupt_asserted == should_assert
    then s
    else record s { interrupt_asserted = should_assert; interrupt_value = 1 }

-- radio_sim_send_response
unfoldable pub send_response : List ℕ → Sim → Sim
send_response bytes s = record s { spi_out = s.spi_out ++ (bytes ∷ []) }

-- The array that radio_sim_send_housekeeping fills. The bytes in the buffer are counted anew; all
-- else is the housekeeping structure.
unfoldable pub hk_response : ℕ → DeviceHk → List ℕ
hk_response count hk =
    device_hdr
    ∷ byte_at 1 hk.command_counter
    ∷ byte_at 0 hk.command_counter
    ∷ hk.mode
    ∷ hk.ground_lock
    ∷ hk.rx_speed_setting
    ∷ hk.rx_wavelength_setting
    ∷ hk.tx_speed_setting
    ∷ hk.tx_wavelength_setting
    ∷ byte_at 3 count
    ∷ byte_at 2 count
    ∷ byte_at 1 count
    ∷ byte_at 0 count
    ∷ byte_at 3 hk.bytes_received
    ∷ byte_at 2 hk.bytes_received
    ∷ byte_at 1 hk.bytes_received
    ∷ byte_at 0 hk.bytes_received
    ∷ byte_at 3 hk.bytes_sent
    ∷ byte_at 2 hk.bytes_sent
    ∷ byte_at 1 hk.bytes_sent
    ∷ byte_at 0 hk.bytes_sent
    ∷ device_trailer
    ∷ []

-- radio_sim_send_housekeeping
unfoldable pub send_housekeeping : DeviceConfig → Sim → Sim
unfolding send_response hk_response
send_housekeeping cfg s = send_response (hk_response (rx_count cfg.buffer_size s.rx) s.hk) s

-- The array of 4096 zeros that answers a receive command: header, length, payload, trailer. Of it
-- `requested + 4` bytes are sent, whatever the payload's length.
unfoldable pub receive_response : ℕ → List ℕ → ℕ → List ℕ
receive_response requested payload to_send = take (requested + 4) (
    set
      (memcpy
        (memcpy (replicate 4096 0) 0 (device_hdr ∷ byte_at 1 to_send ∷ byte_at 0 to_send ∷ [])) 3
        payload)
      (3 + to_send) device_trailer)

abbrev pub zero_hk : DeviceHk
zero_hk = record {
  command_counter = 0;
  mode = 0;
  ground_lock = 0;
  rx_speed_setting = 0;
  rx_wavelength_setting = 0;
  tx_speed_setting = 0;
  tx_wavelength_setting = 0;
  bytes_in_rx_buffer = 0;
  bytes_received = 0;
  bytes_sent = 0;
}

abbrev pub zero_config : RadioConfig
zero_config = record {
  mode = 0;
  rx_speed_setting = 0;
  rx_wavelength_setting = 0;
  tx_speed_setting = 0;
  tx_wavelength_setting = 0;
}

-- The state that radio_sim_init leaves where every resource is there: all zeros but the duplex
-- mode. The GPIO values are globals, which it does not set.
unfoldable pub init : DeviceConfig → ℕ → ℕ → Sim
init cfg power interrupt = record {
  interrupt_asserted = 0;
  hk = record zero_hk { mode = mode_duplex };
  config = record zero_config { mode = mode_duplex };
  tick_counter = 0;
  rx = record { buf = replicate cfg.buffer_size 0; head = 0; tail = 0 };
  tx_buffer_head = 0;
  tx_buffer_tail = 0;
  bytes_received = 0;
  bytes_sent = 0;
  last_update_time = 0;
  power_value = power;
  interrupt_value = interrupt;
  spi_out = [];
  power_out = [];
  interrupt_out = [];
  ground_out = [];
}
