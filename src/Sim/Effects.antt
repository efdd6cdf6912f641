-- ===== src/Sim/Effects.antt =====
-- What each packet of the driver does to a simulated radio that has power: `radio_sim_handle_spi_command`
-- on the command format, followed through to the reply as the driver reads it.
pub mod Received
use tryspace_comp_radio.Base.{
  ℕ, ◌+◌, ◌≤◌, ◌<◌, ◌≡◌, ◌≢◌, refl, ap, ◌∙◌, subst, sym, Bool, true, false, List, [], ◌∷◌, ◌++◌,
  arith, ℤ, pos, negsuc, length, take, drop, byte_at, be16_round_trip, inc16, add32,
  take-append_self, Bool-cases, inl, inr, ◌||◌, ◌&&◌, pos_part, take_ge, drop_ge, take_all, ltb,
  if◌then◌else◌, ◌==◌, length-take_bound,
}
use tryspace_comp_radio.Hardware.{DeviceConfig}
use tryspace_comp_radio.Device.{
  RadioConfig, DeviceHk, os_success, device_trailer, req_hk_cmd, set_cfg_cmd, receive_cmd, send_cmd,
  mode_tx, mode_duplex, hk_size, check_hk, check_received,
}
use tryspace_comp_radio.Device.Packet.{command_packet}
use tryspace_comp_radio.Sim.Ring.{IsRing, rx_count, read_from_rx}
use tryspace_comp_radio.Sim.Ring.Fifo.{contents, length-contents}
use tryspace_comp_radio.Sim.Ring.Queue.{read_from_rx_lem}
use tryspace_comp_radio.Sim.State.{
  Sim, send_response, send_housekeeping, receive_response, hk_response,
}
use tryspace_comp_radio.Sim.Command.{
  handle_spi_command, dispatch, on_req_hk, on_set_cfg, on_receive, on_send, after_send,
}
use tryspace_comp_radio.Sim.Command.Accept.{handle_spi_command-accept}
use tryspace_comp_radio.Sim.Response.{IsHk, check_hk-hk_response, check_received-receive_response}
use tryspace_comp_radio.Sim.Effects.Received.{on_receive-Received}

-- The command counter of 16 bits, which counts every command that is taken.
abbrev pub counted : Sim → Sim
counted s = record s { hk = record (s.hk) { command_counter = inc16 s.hk.command_counter } }

-- A configuration as the bytes of its command.
abbrev pub settings : RadioConfig → List ℕ
settings c =
    c.mode ∷ c.rx_speed_setting ∷ c.rx_wavelength_setting ∷ c.tx_speed_setting
    ∷ c.tx_wavelength_setting ∷ []

-- A radio in a mode that transmits.
abbrev pub transmits : Sim → Bool
transmits s = s.config.mode == mode_tx || s.config.mode == mode_duplex

-- What a send command leaves, by what `sendto` returned.
pub record Sent (sent : ℤ) (payload : List ℕ) (s s' : Sim) : Type 0 where
  pub ground : s'.ground_out ≡ (
      if transmits s && ltb 0 (pos_part sent) then s.ground_out ++ (payload ∷ []) else s.ground_out)
  pub sent_bytes : s'.bytes_sent ≡ (
      if transmits s && ltb 0 (pos_part sent)
      then add32 s.bytes_sent (pos_part sent)
      else s.bytes_sent)
  pub counter : s'.hk.bytes_received ≡ add32 s.hk.bytes_received (length payload)
  pub rx : s'.rx ≡ s.rx
  pub replies : s'.spi_out ≡ s.spi_out
  pub power : s'.power_value ≡ s.power_value
  pub config : s'.config ≡ s.config

-- The payload is counted as received.
abbrev received : List ℕ → Sim → Sim
received payload s = record s {
  hk = record (s.hk) { bytes_received = add32 s.hk.bytes_received (length payload) };
}

unsent-Sent :
    (sent : ℤ) (payload : List ℕ) (s : Sim)
    → (transmits s && ltb 0 (pos_part sent)) ≡ false
    → Sent sent payload s (received payload s)
unsent-Sent sent payload s unsent = record {
  ground = rw unsent refl;
  sent_bytes = rw unsent refl;
  counter = refl;
  rx = refl;
  replies = refl;
  power = refl;
  config = refl;
}

after_send-Sent :
    (sent : ℤ) (payload : List ℕ) (s : Sim)
    → transmits s ≡ true
    → Sent sent payload s (after_send payload (received payload s) sent)
unfolding after_send
after_send-Sent (negsuc n) payload s on = unsent-Sent (negsuc n) payload s (rw on refl)
after_send-Sent (pos n) payload s on = elim (Bool-cases (n == 0)) [
  | inl nothing ↦
      rw nothing
        (unsent-Sent (pos n) payload s (ap (λ b. b && ltb 0 n) on ∙ (ground (arith, nothing))))
  | inr some_bytes ↦
      let go : (transmits s && ltb 0 n) ≡ true =
        ap (λ b. b && ltb 0 n) on ∙ ground (arith, some_bytes) in
      rw some_bytes (record {
        ground = rw go refl;
        sent_bytes = rw go refl;
        counter = refl;
        rx = refl;
        replies = refl;
        power = refl;
        config = refl;
      })
]

on_send-Sent :
    (sent : ℤ) (payload : List ℕ) (s : Sim)
    → 0 < length payload
    → Sent sent payload s (on_send sent (length payload) (command_packet send_cmd payload) s)
unfolding on_send
on_send-Sent sent payload s some_bytes =
    let nonzero : (length payload == 0) ≡ false = ground arith in
    let datagram : take (length payload) (payload ++ (device_trailer ∷ [])) ≡ payload =
      take-append_self payload (device_trailer ∷ []) in
    elim (Bool-cases (transmits s)) [
      | inl on ↦
          rw (nonzero, on)
            (subst (λ d. Sent sent payload s (after_send d (received payload s) sent))
              (sym datagram) (after_send-Sent sent payload s on))
      | inr off ↦
          rw (nonzero, off) (unsent-Sent sent payload s (ap (λ b. b && ltb 0 (pos_part sent)) off))
    ]

module _ (cfg : DeviceConfig) (sent : ℤ) where
  -- With power, the packet of a configuration puts its five settings into the radio's
  -- configuration and housekeeping, counts the command, and changes nothing else.
  pub handle-set_cfg :
      (c : RadioConfig) (s : Sim)
      → s.power_value ≢ 0
      → handle_spi_command cfg sent (command_packet set_cfg_cmd (settings c)) s
        ≡ counted (record s {
          config = c;
          hk = record (s.hk) {
            mode = c.mode;
            rx_speed_setting = c.rx_speed_setting;
            rx_wavelength_setting = c.rx_wavelength_setting;
            tx_speed_setting = c.tx_speed_setting;
            tx_wavelength_setting = c.tx_wavelength_setting;
          };
        })
  unfolding dispatch on_set_cfg
  handle-set_cfg c s on =
      handle_spi_command-accept cfg sent set_cfg_cmd (settings c) s on (omega arith)

  -- With power and counts that fit their fields, a housekeeping request is answered with one
  -- reply, from which the driver reads the radio's command counter, mode and settings, the number
  -- of bytes that wait, and the bytes received and sent.
  pub handle-req_hk :
      (s : Sim)
      → s.power_value ≢ 0
      → IsHk (record (s.hk) { bytes_received = s.bytes_received; bytes_sent = s.bytes_sent })
      → rx_count cfg.buffer_size s.rx < 4294967296
      → let s' = handle_spi_command cfg sent (command_packet req_hk_cmd []) s in
        (response : List ℕ) × (s'.spi_out ≡ s.spi_out ++ (response ∷ []))
        × (check_hk (pos hk_size) response
            ≡ os_success (record (s.hk) {
              bytes_in_rx_buffer = rx_count cfg.buffer_size s.rx;
              bytes_received = s.bytes_received;
              bytes_sent = s.bytes_sent;
            }))
  unfolding dispatch on_req_hk send_housekeeping send_response
  handle-req_hk s on v h = (
    hk_response (rx_count cfg.buffer_size s.rx) shown,
    ap (λ t. t.spi_out) (handle_spi_command-accept cfg sent req_hk_cmd [] s on (omega arith)),
    check_hk-hk_response (rx_count cfg.buffer_size s.rx) shown h
        (record { counter_in = v.counter_in; received_in = v.received_in; sent_in = v.sent_in }),
  )
    where
      shown : DeviceHk
      shown = record (s.hk) {
        bytes_in_rx_buffer = rx_count cfg.buffer_size s.rx;
        bytes_received = s.bytes_received;
        bytes_sent = s.bytes_sent;
      }

  -- With power and a payload of 1 to 65535 bytes, a send command sends the payload to the ground
  -- station in one datagram, and counts what was sent, exactly if the radio transmits and
  -- `sendto` takes bytes of it; it counts the payload's bytes as received, and leaves the receive
  -- buffer, the replies, the power and the configuration as they are.
  pub handle-send :
      (payload : List ℕ) (s : Sim)
      → s.power_value ≢ 0
      → 0 < length payload
      → length payload < 65536
      → Sent sent payload s (handle_spi_command cfg sent (command_packet send_cmd payload) s)
  unfolding dispatch
  handle-send payload s on some_bytes h =
      let v : Sent sent payload s
          (on_send sent (length payload) (command_packet send_cmd payload) s) =
        on_send-Sent sent payload s some_bytes in
      subst (Sent sent payload s) (sym (handle_spi_command-accept cfg sent send_cmd payload s on h))
        (record {
          ground = v.ground;
          sent_bytes = v.sent_bytes;
          counter = v.counter;
          rx = v.rx;
          replies = v.replies;
          power = v.power;
          config = v.config;
        })

  -- With power, a sound receive buffer and at most 2044 bytes requested, a receive command is
  -- answered with one reply, from which the driver reads the oldest waiting bytes, as many as
  -- requested or all, and those bytes leave the buffer.
  pub handle-receive :
      (requested : ℕ) (s : Sim)
      → s.power_value ≢ 0
      → IsRing cfg.buffer_size s.rx
      → requested ≤ 2044
      → let s' =
          handle_spi_command cfg sent
            (command_packet receive_cmd (byte_at 1 requested ∷ byte_at 0 requested ∷ []))
            s in
        let waiting = contents cfg.buffer_size s.rx in
        (response : List ℕ) × (s'.spi_out ≡ s.spi_out ++ (response ∷ []))
        × (check_received requested (requested + 4) response ≡ os_success (take requested waiting))
        × (contents cfg.buffer_size s'.rx ≡ drop requested waiting)
  unfolding dispatch on_receive send_response
  handle-receive requested s on v h =
      let taken = on_receive-Received cfg requested s v (omega (arith, h)) in
      let e =
        handle_spi_command-accept cfg sent receive_cmd
          (byte_at 1 requested ∷ byte_at 0 requested ∷ []) s on (omega arith) in
      (
        taken.0,
        ap (λ t. t.spi_out) e ∙ taken.1,
        taken.2,
        ap (λ t. contents cfg.buffer_size t.rx) e ∙ taken.3,
      )
