-- ===== src/Sim/Effects/Received.antt =====
-- The answer to a receive command in sim/radio_sim.c, and the bytes that leave the buffer for it.
use tryspace_comp_radio.Base.{
  ℕ, ◌+◌, ◌≤◌, ◌≡◌, refl, ap, ◌∙◌, sym, List, [], ◌∷◌, ◌++◌, arith, length, take, drop, byte_at,
  be16_round_trip, Bool-cases, inl, inr, take_ge, drop_ge, take_all, ltb, if◌then◌else◌,
  length-take_bound,
}
use tryspace_comp_radio.Hardware.{DeviceConfig}
use tryspace_comp_radio.Device.{os_success, receive_cmd, check_received}
use tryspace_comp_radio.Device.Packet.{command_packet}
use tryspace_comp_radio.Sim.Ring.{IsRing, read_from_rx}
use tryspace_comp_radio.Sim.Ring.Fifo.{contents, length-contents}
use tryspace_comp_radio.Sim.Ring.Queue.{read_from_rx_lem}
use tryspace_comp_radio.Sim.State.{Sim, send_response, receive_response}
use tryspace_comp_radio.Sim.Command.{on_receive}
use tryspace_comp_radio.Sim.Response.{check_received-receive_response}

-- Bytes counted as at most those there are, taken from the front.
take-clamp :
    (k : ℕ) (xs : List ℕ) → take (if ltb k (length xs) then k else length xs) xs ≡ take k xs
take-clamp k xs = elim (Bool-cases (ltb k (length xs))) [
  | inl less ↦ rw less refl
  | inr all ↦ rw all (take_all xs ∙ sym (take_ge k xs (ground arith)))
]

drop-clamp :
    (k : ℕ) (xs : List ℕ) → drop (if ltb k (length xs) then k else length xs) xs ≡ drop k xs
drop-clamp k xs = elim (Bool-cases (ltb k (length xs))) [
  | inl less ↦ rw less refl
  | inr all ↦ rw all (drop_ge (length xs) xs (omega arith) ∙ sym (drop_ge k xs (ground arith)))
]

-- The bytes that leave the buffer, and the answer that carries them.
pub on_receive-Received :
    (cfg : DeviceConfig) (requested : ℕ) (s : Sim)
    → IsRing cfg.buffer_size s.rx
    → requested ≤ 4092
    → let s' =
        on_receive cfg 2
          (command_packet receive_cmd (byte_at 1 requested ∷ byte_at 0 requested ∷ []))
          s in
      let waiting = contents cfg.buffer_size s.rx in
      (response : List ℕ) × (s'.spi_out ≡ s.spi_out ++ (response ∷ []))
      × (check_received requested (requested + 4) response ≡ os_success (take requested waiting))
      × (contents cfg.buffer_size s'.rx ≡ drop requested waiting)
unfolding on_receive send_response
on_receive-Received cfg requested s v h =
    rw (be16_round_trip requested (omega arith), sym (length-contents cfg.buffer_size s.rx))
      (
        receive_response requested bytes (length bytes),
        refl,
        check_received-receive_response requested bytes h
              (omega (arith, ap length taken, length-take_bound requested waiting))
            ∙ ap os_success taken,
        left ∙ drop-clamp requested waiting,
      )
  where
    waiting : List ℕ
    waiting = contents cfg.buffer_size s.rx

    k : ℕ
    k = if ltb requested (length waiting) then requested else length waiting

    bytes : List ℕ
    bytes = (read_from_rx cfg.buffer_size s.rx k).0

    taken : bytes ≡ take requested waiting
    taken = (read_from_rx_lem cfg.buffer_size s.rx k v).1 ∙ take-clamp requested waiting

    left : contents cfg.buffer_size (read_from_rx cfg.buffer_size s.rx k).1 ≡ drop k waiting
    left = (read_from_rx_lem cfg.buffer_size s.rx k v).2
