-- ===== src/Sim/Link/Send.antt =====
-- RADIO_SendData in shared/radio_device.c with the radio of sim/radio_sim.c behind its SPI device.
use tryspace_comp_radio.Base.{
  ℕ, zero, suc, ◌≤◌, ◌<◌, ◌≡◌, refl, sym, ap, ◌∙◌, subst, some, List, [], ◌∷◌, arith, ℤ, length,
  length-take_le, take,
}
use tryspace_comp_radio.Hardware.{Hardware, DeviceConfig, Spi}
use tryspace_comp_radio.Device.{
  Done, done, send_cmd, command_device, build_packet, copy_payload, send_data,
}
use tryspace_comp_radio.Device.Packet.{command_packet}
use tryspace_comp_radio.Sim.State.{Sim}
use tryspace_comp_radio.Sim.Effects.{Sent, handle-send}
use tryspace_comp_radio.Sim.Link.{IsLink, command_device-link}

take-take : (n : ℕ) (xs : List ℕ) → take n (take n xs) ≡ take n xs
take-take zero xs = refl
take-take (suc n) [] = refl
take-take (suc n) (x ∷ xs) = ap (◌∷◌ x) (take-take n xs)

-- The receive buffer, the replies, the power and the configuration are as before.
pub record IsKept (s s' : Sim) : Type 0 where
  pub rx : s'.rx ≡ s.rx
  pub replies : s'.spi_out ≡ s.spi_out
  pub power : s'.power_value ≡ s.power_value
  pub config : s'.config ≡ s.config

pub IsKept-trans : (s t u : Sim) → IsKept s t → IsKept t u → IsKept s u
IsKept-trans s t u p q = record {
  rx = q.rx ∙ p.rx;
  replies = q.replies ∙ p.replies;
  power = q.power ∙ p.power;
  config = q.config ∙ p.config;
}

module _ {W : Type 0} (cfg : DeviceConfig) (hw : Hardware W) (spi : Spi) where
  -- Of a buffer only the bytes up to the stated length count.
  send_data-take :
      (bytes : List ℕ) (n : ℕ) (w : W)
      → n ≤ length bytes
      → send_data cfg hw (some spi) (some bytes) n w
        ≡ command_device cfg hw (some spi) send_cmd (length (take n bytes)) (some (take n bytes)) w
  unfolding send_data command_device build_packet copy_payload
  send_data-take bytes n w h = rw (length-take_le n bytes h, take-take n bytes) refl

  module _ (sent : List ℕ → W → ℤ) (sim : W → Sim) (seen : W → ℕ)
      (link : IsLink cfg hw spi sent sim seen) where
    -- What a send of the driver hands back and leaves.
    pub record Sends (payload : List ℕ) (w : W) (r : Done × W) : Type 0 where
      pub good : r.0 ≡ done
      pub radio : Sent (sent (command_packet send_cmd payload) w) payload (sim w) (sim r.1)
      pub replies : seen r.1 ≡ seen w
      pub world : r.1 ≡ (hw.spi_write spi (command_packet send_cmd payload) w).1

    pub send_data-Sends :
        (bytes : List ℕ) (n : ℕ) (w : W)
        → 0 < (sim w).power_value
        → 0 < n
        → n ≤ 2043
        → n ≤ length bytes
        → Sends (take n bytes) w (send_data cfg hw (some spi) (some bytes) n w)
    send_data-Sends bytes n w on some_bytes small h =
        let payload = take n bytes in
        let len : length payload ≡ n = length-take_le n bytes h in
        let w' = (hw.spi_write spi (command_packet send_cmd payload) w).1 in
        let status = sent (command_packet send_cmd payload) w in
        let r : Sent status payload (sim w) (sim w') =
          subst (Sent status payload (sim w))
            (sym (link.handled (command_packet send_cmd payload) w))
            (handle-send cfg status payload (sim w) (λ e. omega (arith, e, on)) (omega (arith, len))
              (omega (arith, len))) in
        subst (Sends payload w)
          (sym (
            send_data-take bytes n w h
            ∙ command_device-link cfg hw spi sent sim seen link send_cmd payload w
                (omega (arith, len))))
          (record {
            good = refl;
            radio = r;
            replies = link.write_seen (command_packet send_cmd payload) w;
            world = refl;
          })
