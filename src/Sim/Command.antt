-- ===== src/Sim/Command.antt =====
-- `radio_sim_handle_spi_command`, a function for each command. The pointers are never NULL: the tick
-- passes its own state and its local array. Console output is left out.
pub mod Accept
use tryspace_comp_radio.Base.{
  ℕ, ◌+◌, ◌-◌, ◌≡◌, Bool, true, false, ◌||◌, not, List, [], ◌∷◌, ◌++◌, ℤ, pos, negsuc, ltb, ◌==◌,
  if◌then◌else◌, length, get_or, take, drop, be16, inc16, add32,
}
use tryspace_comp_radio.Hardware.{DeviceConfig}
use tryspace_comp_radio.Device.{
  DeviceHk, RadioConfig, device_hdr, device_trailer, mode_tx, mode_duplex, noop_cmd, req_hk_cmd,
  set_cfg_cmd, receive_cmd, send_cmd, cfg_payload_size,
}
use tryspace_comp_radio.Sim.Ring.{Ring, rx_count, read_from_rx}
use tryspace_comp_radio.Sim.State.{Sim, send_housekeeping, send_response, receive_response}

-- RADIO_DEVICE_REQ_HK_CMD
unfoldable pub on_req_hk : DeviceConfig → Sim → Sim
on_req_hk cfg s = send_housekeeping cfg (record s {
  hk = record (s.hk) {
    bytes_in_rx_buffer = rx_count cfg.buffer_size s.rx;
    bytes_received = s.bytes_received;
    bytes_sent = s.bytes_sent;
  };
})

-- RADIO_DEVICE_SET_CFG_CMD
unfoldable pub on_set_cfg : ℕ → List ℕ → Sim → Sim
on_set_cfg payload_len bytes s =
    if payload_len == cfg_payload_size
    then record s {
      config = record {
        mode = get_or bytes 4 0;
        rx_speed_setting = get_or bytes 5 0;
        rx_wavelength_setting = get_or bytes 6 0;
        tx_speed_setting = get_or bytes 7 0;
        tx_wavelength_setting = get_or bytes 8 0;
      };
      hk = record (s.hk) {
        mode = get_or bytes 4 0;
        rx_speed_setting = get_or bytes 5 0;
        rx_wavelength_setting = get_or bytes 6 0;
        tx_speed_setting = get_or bytes 7 0;
        tx_wavelength_setting = get_or bytes 8 0;
      };
    }
    else s

-- RADIO_DEVICE_RECEIVE_CMD. The bytes read are as many as were counted, so `to_send` stays.
unfoldable pub on_receive : DeviceConfig → ℕ → List ℕ → Sim → Sim
on_receive cfg payload_len bytes s =
    let requested = be16 (get_or bytes 4 0) (get_or bytes 5 0) in
    let available = rx_count cfg.buffer_size s.rx in
    let to_send = if ltb requested available then requested else available in
    let (payload, rx') = read_from_rx cfg.buffer_size s.rx to_send in
    let s' =
      send_response (receive_response requested payload (length payload)) (record s { rx = rx' }) in
    if payload_len == 2
    then record s' { hk = record (s.hk) { bytes_sent = add32 s.hk.bytes_sent (length payload) } }
    else s

-- After `sendto`: the datagram is on its way to the ground station and counted, or it was not sent.
unfoldable pub after_send : List ℕ → Sim → ℤ → Sim
after_send datagram s (negsuc _) = s
after_send datagram s (pos n) = if n == 0 then s else record s {
  ground_out = s.ground_out ++ (datagram ∷ []);
  bytes_sent = add32 s.bytes_sent n;
  hk = record (s.hk) { bytes_sent = add32 s.hk.bytes_sent n };
}

-- RADIO_DEVICE_SEND_CMD. `sent` is what `sendto` returns for the datagram.
unfoldable pub on_send : ℤ → ℕ → List ℕ → Sim → Sim
unfolding after_send
on_send sent payload_len bytes s =
    let counted = record s {
      hk = record (s.hk) { bytes_received = add32 s.hk.bytes_received payload_len };
    } in
    if payload_len == 0
    then s
    else if s.config.mode == mode_tx || s.config.mode == mode_duplex
    then after_send (take payload_len (drop 4 bytes)) counted sent
    else counted

-- The switch, and the command counter behind it.
unfoldable pub dispatch : DeviceConfig → ℤ → ℕ → ℕ → List ℕ → Sim → Sim
dispatch cfg sent command payload_len bytes s =
    let s' =
      if command == noop_cmd
      then s
      else if command == req_hk_cmd
      then on_req_hk cfg s
      else if command == set_cfg_cmd
      then on_set_cfg payload_len bytes s
      else if command == receive_cmd
      then on_receive cfg payload_len bytes s
      else if command == send_cmd
      then on_send sent payload_len bytes s
      else s in
    record s' { hk = record (s'.hk) { command_counter = inc16 s'.hk.command_counter } }

-- radio_sim_handle_spi_command
unfoldable pub handle_spi_command : DeviceConfig → ℤ → List ℕ → Sim → Sim
handle_spi_command cfg sent bytes s =
    let payload_len = be16 (get_or bytes 2 0) (get_or bytes 3 0) in
    let expected_len = 5 + payload_len in
    if ltb (length bytes) 5
    then s
    else if s.power_value == 0
    then s
    else if not (get_or bytes 0 0 == device_hdr)
    then s
    else if ltb (length bytes) expected_len
    then s
    else if not (get_or bytes (expected_len - 1) 0 == device_trailer)
    then s
    else dispatch cfg sent (get_or bytes 1 0) payload_len bytes s
