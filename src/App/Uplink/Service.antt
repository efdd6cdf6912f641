-- ===== src/App/Uplink/Service.antt =====
-- RADIO_ServiceUplink: the receive attempts of one poll, the receive buffer, and what is done with
-- each frame. CryptoLib is taken not to write to the bytes that it is given.
use tryspace_comp_radio.Base.{
  ℕ, zero, suc, ◌+◌, ◌-◌, ◌%◌, Bool, true, false, List, [], ◌∷◌, eq_int, ltb, ◌==◌, if◌then◌else◌,
  length, take, drop, memcpy, some,
}
use tryspace_comp_radio.Device.{Status, os_success, os_error, valid, max_payload_size, receive_data}
use tryspace_comp_radio.Env.{Env}
use tryspace_comp_radio.App.Eid
use tryspace_comp_radio.App.State.{App, event, space_packet, error, send, inc_device_error}
use tryspace_comp_radio.App.Uplink.Frames.{process_frames}
use tryspace_comp_radio.App.Uplink.Packets.{packets}
pub mod Buffer
pub mod Handled
pub mod Reassembly
pub mod Linked
pub mod Kept

-- CFE_SB_TransmitMsg for each packet.
unfoldable pub send_packets : List (List ℕ) → App → App
send_packets [] a = a
send_packets (p ∷ ps) a = send_packets ps (send (space_packet p) a)

-- `RADIO_ReceiveData` into the tail of the buffer, and the length advanced by what it received.
unfoldable pub store : List ℕ → App → App
store bytes a = record a {
  receive_buffer = memcpy a.receive_buffer a.receive_buff_length bytes;
  receive_buff_length = (a.receive_buff_length + length bytes) % 65536;
}

-- Bytes behind the last frame are moved to the front.
unfoldable pub keep_rest : ℕ → ℕ → App → App
keep_rest offset buf_len a =
    let remaining = buf_len - offset in
    if ltb offset buf_len
    then record a {
      receive_buffer = memcpy a.receive_buffer 0 (take remaining (drop offset a.receive_buffer));
      receive_buff_length = remaining % 65536;
    }
    else record a { receive_buff_length = 0 }

module _ {W : Type 0} (env : Env W) where
  -- One transfer frame: through CryptoLib, and its packets to the software bus.
  unfoldable pub on_frame : List ℕ → App × W → App × W
  on_frame frame (a, w) =
      let (crypto_status, pdu, w') = env.crypto.process_security frame w in
      let a₁ =
        if eq_int crypto_status env.crypto.managed_parameters_not_found
        then send (event Eid.req_data_err error) a
        else a in
      if eq_int crypto_status env.crypto.crypto_success
      then (send_packets (packets pdu) a₁, w')
      else (send (event Eid.req_data_err error) (inc_device_error a₁), w')

  -- A buffer in which no frame starts is given up.
  unfoldable pub on_drop : App × W → App × W
  on_drop (a, w) = (send (event Eid.req_data_err error) a, w)

  -- The transfer frames in the buffer.
  unfoldable pub split_buffer : App × W → App × W
  split_buffer (a, w) =
      let n = a.receive_buff_length in
      let (offset, s) = process_frames on_frame on_drop (n + 1) a.receive_buffer n 0 (a, w) in
      (keep_rest offset n s.0, s.1)

  -- What one turn does with the bytes that it received, and whether the next turn is made.
  unfoldable pub absorb : List ℕ → App × W → Bool × App × W
  absorb bytes (a, w) =
      let a₁ = store bytes a in
      let (a₂, w₂) = split_buffer (a₁, w) in
      if ltb max_payload_size a₁.receive_buff_length
      then (
        false,
        record (send (event Eid.req_data_err error) (inc_device_error a₁)) {
          receive_buff_length = 0;
        },
        w,
      )
      else if ltb 0 a₁.receive_buff_length
      then (true, a₂, w₂)
      else (true, a₁, w)

  -- The room in the buffer, as the `uint16_t` argument of `RADIO_ReceiveData`.
  abbrev pub room : App → ℕ
  room a = (max_payload_size + 65536 - a.receive_buff_length) % 65536

  -- One turn of the loop.
  unfoldable pub receive_once : App × W → Bool × App × W
  receive_once (a, w) =
      let (recv_status, w') = receive_data env.cfg env.hw (some a.spi) valid (room a) w in
      elim recv_status [
        | os_success bytes ↦ absorb bytes (a, w')
        | os_error ↦ (false, send (event Eid.req_data_err error) (inc_device_error a), w')
      ]

  -- `while (max_rx_transactions > 0)`
  unfoldable pub receive_turns : ℕ → App × W → App × W
  receive_turns zero s = s
  receive_turns (suc max_rx_transactions) s =
      let (go_on, a', w') = receive_once s in
      let rest = receive_turns max_rx_transactions (a', w') in if go_on then rest else (a', w')

  -- RADIO_ServiceUplink
  unfoldable pub service_uplink : App × W → App × W
  service_uplink s = receive_turns env.cfg.max_rx_msgs_per_poll s
