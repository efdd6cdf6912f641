-- ===== src/Sim/Link.antt =====
-- The driver of shared/radio_device.c with the radio of sim/radio_sim.c behind its SPI device.
pub mod Send
use tryspace_comp_radio.Base.{
  false, ℕ, suc, ◌+◌, ◌≤◌, ◌<◌, ◌≡◌, ◌≢◌, sym, ap, ◌∙◌, subst, some, List, [], ◌∷◌, ◌++◌, arith, ℤ,
  pos, negsuc, eq_int, eq_int_refl, ltb, if◌then◌else◌, length, length-append, take, drop, byte_at,
}
use tryspace_comp_radio.Hardware.{Hardware, DeviceConfig, Spi}
use tryspace_comp_radio.Device.{
  Status, os_success, os_error, Done, done, done_if, valid, receive_cmd, receive_data,
  command_device, check_received, to_status,
}
use tryspace_comp_radio.Device.Packet.{command_packet}
use tryspace_comp_radio.Device.Commands.{command_device_lem}
use tryspace_comp_radio.Sim.Ring.Fifo.{contents}
use tryspace_comp_radio.Sim.State.{Sim, send_response}
use tryspace_comp_radio.Sim.Command.{handle_spi_command, dispatch, on_receive}
use tryspace_comp_radio.Sim.Command.Accept.{length-command_packet, handle_spi_command-accept}
use tryspace_comp_radio.Sim.Effects.{handle-receive}
use tryspace_comp_radio.Sim.Tick.Invariant.{IsSim, handle_spi_command-IsSim}

-- Bytes that are written over SPI reach the radio whole, and a read takes the oldest of its replies
-- that was not read yet, if there is one. `seen` counts the replies that were read, and `sent` is
-- what `sendto` returns if the radio forwards the packet.
pub record IsLink {W : Type 0} (cfg : DeviceConfig) (hw : Hardware W) (spi : Spi)
    (sent : List ℕ → W → ℤ) (sim : W → Sim) (seen : W → ℕ) : Type 0 where
  pub written : (bytes : List ℕ) (w : W) → (hw.spi_write spi bytes w).0 ≡ pos (length bytes)
  pub handled :
      (bytes : List ℕ) (w : W)
      → sim (hw.spi_write spi bytes w).1 ≡ handle_spi_command cfg (sent bytes w) bytes (sim w)
  pub write_seen : (bytes : List ℕ) (w : W) → seen (hw.spi_write spi bytes w).1 ≡ seen w
  pub read :
      (n : ℕ) (w : W) (before : List (List ℕ)) (reply : List ℕ)
      → (sim w).spi_out ≡ before ++ (reply ∷ [])
      → length before ≡ seen w
      → (w' : W) × (hw.spi_read spi n w ≡ (pos n, reply, w'))
        × (sim w' ≡ sim w)
        × (seen w' ≡ suc (seen w))

module _ {W : Type 0} (cfg : DeviceConfig) (hw : Hardware W) (spi : Spi) (sent : List ℕ → W → ℤ)
    (sim : W → Sim) (seen : W → ℕ) (link : IsLink cfg hw spi sent sim seen) where
  -- A sound radio with power, all of whose replies were read.
  pub record IsIdle (w : W) : Type 0 where
    pub on : 0 < (sim w).power_value
    pub sound : IsSim cfg (sim w)
    pub no_reply : length (sim w).spi_out ≡ seen w

  abbrev pub bytes_waiting : W → List ℕ
  bytes_waiting w = contents cfg.buffer_size (sim w).rx

  pub command_device-link :
      (cmd : ℕ) (payload : List ℕ) (w : W)
      → length payload ≤ 2043
      → command_device cfg hw (some spi) cmd (length payload) (some payload) w
        ≡ (done, (hw.spi_write spi (command_packet cmd payload) w).1)
  command_device-link cmd payload w h =
      command_device_lem cfg hw spi cmd payload w h
      ∙ ap (λ b. (done_if b, (hw.spi_write spi (command_packet cmd payload) w).1))
          (ap (λ status. eq_int status (pos (5 + length payload)))
              (link.written (command_packet cmd payload) w
                ∙ ap pos (length-command_packet cmd payload))
            ∙ eq_int_refl (pos (5 + length payload)))

  receive_data-reply :
      (requested n : ℕ) (rx : List ℕ) (w w₁ w₂ : W)
      → requested ≤ 2044
      → command_device cfg hw
          (some spi)
          receive_cmd
          2
          (some (byte_at 1 requested ∷ byte_at 0 requested ∷ []))
          w
        ≡ (done, w₁)
      → hw.spi_read spi (requested + 4) w₁ ≡ (pos n, rx, w₂)
      → receive_data cfg hw (some spi) valid requested w ≡ (check_received requested n rx, w₂)
  unfolding receive_data
  receive_data-reply requested n rx w w₁ w₂ small e f =
      let after_read : ℤ × List ℕ × W → Status (List ℕ) × W = λ r. elim r.0 [
        | negsuc _ ↦ (os_error, r.2)
        | pos bytes_read ↦ (check_received requested bytes_read r.1, r.2)
      ] in
      let after_sent : Done × W → Status (List ℕ) × W = λ s. elim s.0 [
        | os_error ↦ (os_error, s.1)
        | os_success _ ↦
            if ltb 2048 (requested + 4)
            then (to_status (hw.overrun s.1).0, (hw.overrun s.1).1)
            else after_read (hw.spi_read spi (requested + 4) s.1)
      ] in
      let fits : ltb 2048 (requested + 4) ≡ false = ground (arith, small) in
      ap after_sent e ∙ rw fits (ap after_read f)

  -- What one receive of the driver hands back and leaves.
  pub record Received (requested : ℕ) (w : W) (r : Status (List ℕ) × W) : Type 0 where
    pub payload : r.0 ≡ os_success (take requested (bytes_waiting w))
    pub left : bytes_waiting r.1 ≡ drop requested (bytes_waiting w)
    pub idle : IsIdle r.1
    pub config : (sim r.1).config ≡ (sim w).config

  -- A receive command leaves the power on, and the configuration as it is.
  receive-power :
      (status : ℤ) (requested : ℕ) (s : Sim)
      → s.power_value ≢ 0
      → let s' =
          handle_spi_command cfg status
            (command_packet receive_cmd (byte_at 1 requested ∷ byte_at 0 requested ∷ []))
            s in
        (s'.power_value ≡ s.power_value) × (s'.config ≡ s.config)
  unfolding dispatch on_receive send_response
  receive-power status requested s on =
      let accept =
        handle_spi_command-accept cfg status receive_cmd
          (byte_at 1 requested ∷ byte_at 0 requested ∷ []) s on (omega arith) in
      (ap (λ t. t.power_value) accept, ap (λ t. t.config) accept)

  -- The packet of a receive command.
  abbrev pub packet_of : ℕ → List ℕ
  packet_of requested = command_packet receive_cmd (byte_at 1 requested ∷ byte_at 0 requested ∷ [])

  -- A radio that answered, and whose answer was read, is idle again.
  pub answered-IsIdle :
      (status : ℤ) (packet reply : List ℕ) (w w₂ : W)
      → IsIdle w
      → sim w₂ ≡ handle_spi_command cfg status packet (sim w)
      → (handle_spi_command cfg status packet (sim w)).power_value ≡ (sim w).power_value
      → (handle_spi_command cfg status packet (sim w)).spi_out ≡ (sim w).spi_out ++ (reply ∷ [])
      → seen w₂ ≡ suc (seen w)
      → IsIdle w₂
  answered-IsIdle status packet reply w w₂ idle now power answered counted =
      let same : (sim w₂).power_value ≡ (sim w).power_value =
        ap (λ (s : Sim). s.power_value) now ∙ power in
      let all : (sim w₂).spi_out ≡ (sim w).spi_out ++ (reply ∷ []) =
        ap (λ (s : Sim). s.spi_out) now ∙ answered in
      record {
        on = omega (arith, same, idle.on);
        sound =
            subst (IsSim cfg) (sym now)
              (handle_spi_command-IsSim cfg status packet (sim w) idle.on idle.sound);
        no_reply =
            ap length all
            ∙ omega (arith, length-append (sim w).spi_out (reply ∷ []), idle.no_reply, counted);
      }

  pub receive_data-Received :
      (requested : ℕ) (w : W)
      → IsIdle w
      → requested ≤ 2044
      → Received requested w (receive_data cfg hw (some spi) valid requested w)
  receive_data-Received requested w idle h =
      let packet = packet_of requested in
      let w₁ = (hw.spi_write spi packet w).1 in
      let on : (sim w).power_value ≢ 0 = λ e. omega (arith, e, idle.on) in
      let (reply, answered, payload, left) =
        handle-receive cfg (sent packet w) requested (sim w) on (idle.sound.ring)
          (omega (arith, h)) in
      let (w₂, got, same, counted) =
        link.read (requested + 4) w₁ (sim w).spi_out reply
          (ap (λ (s : Sim). s.spi_out) (link.handled packet w) ∙ answered)
          (idle.no_reply ∙ sym (link.write_seen packet w)) in
      let now : sim w₂ ≡ handle_spi_command cfg (sent packet w) packet (sim w) =
        same ∙ link.handled packet w in
      subst (Received requested w)
        (sym (
          receive_data-reply requested (requested + 4) reply w w₁ w₂ h
            (command_device-link receive_cmd (byte_at 1 requested ∷ byte_at 0 requested ∷ []) w
              (omega arith))
            got))
        (record {
          payload = payload;
          left = ap (λ (s : Sim). contents cfg.buffer_size s.rx) now ∙ left;
          idle =
              answered-IsIdle (sent packet w) packet reply w w₂ idle now
                (receive-power (sent packet w) requested (sim w) on).0 answered
                (counted ∙ ap suc (link.write_seen packet w));
          config =
              ap (λ (s : Sim). s.config) now
              ∙ (receive-power (sent packet w) requested (sim w) on).1;
        })

  -- The driver is called for each of the numbers of bytes, up to the first error.
  abbrev pub receive_all : List ℕ → W → List (List ℕ) × W
  receive_all [] w = ([], w)
  receive_all (n ∷ ns) w =
      let (status, w') = receive_data cfg hw (some spi) valid n w in
      let (rest, w'') = receive_all ns w' in
      elim status [ os_error ↦ ([], w') | os_success bytes ↦ (bytes ∷ rest, w'') ]

  abbrev pub sum : List ℕ → ℕ
  sum [] = 0
  sum (n ∷ ns) = n + sum ns
