-- ===== src/App/Downlink/Laws.antt =====
-- What RADIO_ServiceDownlink in src/radio_app.c relies on: the downlink pipe as a queue of packets,
-- and the TM libraries and CryptoLib by what a frame holds.
use tryspace_comp_radio.Base.{
  ℕ, ◌+◌, ◌≤◌, ◌<◌, ◌≡◌, refl, ◌∙◌, true, none, some, List, [], ◌∷◌, ◌++◌, length, drop, take, pos,
  ℤ,
}
use tryspace_comp_radio.Hardware.{Spi}
use tryspace_comp_radio.Device.{send_cmd}
use tryspace_comp_radio.Device.Packet.{command_packet}
use tryspace_comp_radio.Env.{Env, FrameInfo}
use tryspace_comp_radio.Sim.State.{Sim}
use tryspace_comp_radio.Sim.Link.{IsLink}
use tryspace_comp_radio.App.Downlink.{tm_frame_size}
use tryspace_comp_radio.App.Downlink.Filled.{IsTm}

module _ {W : Type 0} (env : Env W) (spi : Spi) (sim : W → Sim) (seen : W → ℕ)
    (queue : W → List (List ℕ)) where
  -- The radio, its replies that were read, and the downlink pipe are as before.
  pub record IsQuiet (w w' : W) : Type 0 where
    pub radio : sim w' ≡ sim w
    pub replies : seen w' ≡ seen w
    pub pipe : queue w' ≡ queue w

  pub IsQuiet-refl : (w : W) → IsQuiet w w
  IsQuiet-refl w = record { radio = refl; replies = refl; pipe = refl }

  pub IsQuiet-trans : (u v w : W) → IsQuiet u v → IsQuiet v w → IsQuiet u w
  IsQuiet-trans u v w p q = record {
    radio = q.radio ∙ p.radio;
    replies = q.replies ∙ p.replies;
    pipe = q.pipe ∙ p.pipe;
  }

  -- The downlink pipe is a queue, and every packet has a size.
  pub record IsPipe : Type 0 where
    pub empty : (w : W) → queue w ≡ [] → (env.cfe.poll_downlink w).0 ≡ none
    pub still : (w : W) → queue w ≡ [] → queue (env.cfe.poll_downlink w).1 ≡ []
    pub next :
        (w : W) (p : List ℕ) (ps : List (List ℕ))
        → queue w ≡ p ∷ ps
        → (env.cfe.poll_downlink w).0 ≡ some p
    pub others :
        (w : W) (p : List ℕ) (ps : List (List ℕ))
        → queue w ≡ p ∷ ps
        → queue (env.cfe.poll_downlink w).1 ≡ ps
    pub radio : (w : W) → sim (env.cfe.poll_downlink w).1 ≡ sim w
    pub replies : (w : W) → seen (env.cfe.poll_downlink w).1 ≡ seen w
    pub written : (bytes : List ℕ) (w : W) → queue (env.hw.spi_write spi bytes w).1 ≡ queue w
    pub sized : (p : List ℕ) → 0 < env.cfe.packet_size p

  -- The TM libraries and CryptoLib: an open frame holds packets, in order; a completed one of
  -- RADIO_TM_FRAME_SIZE bytes carries them, through CryptoLib too; and the CADU made of it carries
  -- them on the link. None of the calls uses the link or the pipe.
  pub record IsFraming (Holds : List (List ℕ) → FrameInfo → Type 0)
      (Carries : List (List ℕ) → List ℕ → Type 0) (IsCadu : List (List ℕ) → List ℕ → Type 0)
      : Type 0 where
    pub quiet_init : (info : FrameInfo) (w : W) → IsQuiet w (env.tm.init_channel info w).2
    pub quiet_start : (info : FrameInfo) (w : W) → IsQuiet w (env.tm.start_frame info w).2
    pub quiet_add :
        (info : FrameInfo) (p : List ℕ) (w : W) → IsQuiet w (env.tm.add_packet info p w).2
    pub quiet_idle : (info : FrameInfo) (w : W) → IsQuiet w (env.tm.add_idle_packet info w).1
    pub quiet_complete : (info : FrameInfo) (w : W) → IsQuiet w (env.tm.complete_frame info w).2
    pub quiet_synchronize : (cadu : List ℕ) (w : W) → IsQuiet w (env.tm.synchronize cadu w).2
    pub quiet_association : (w : W) → IsQuiet w (env.crypto.has_association w).1
    pub quiet_security : (f : List ℕ) (w : W) → IsQuiet w (env.crypto.apply_security f w).2
    pub inits : (info : FrameInfo) (w : W) → (env.tm.init_channel info w).0 ≡ env.tm.sdlp_success
    pub start : (info : FrameInfo) (w : W) → Holds [] (env.tm.start_frame info w).1
    pub ready : (info : FrameInfo) (w : W) → (env.tm.start_frame info w).1.is_ready ≡ true
    pub add :
        (ps : List (List ℕ)) (info : FrameInfo) (p : List ℕ) (w : W)
        → Holds ps info
        → env.cfe.packet_size p < info.free_octets
        → Holds (ps ++ (p ∷ [])) (env.tm.add_packet info p w).1
    pub add_ready :
        (info : FrameInfo) (p : List ℕ) (w : W)
        → (env.tm.add_packet info p w).1.is_ready ≡ info.is_ready
    pub idle :
        (ps : List (List ℕ)) (info : FrameInfo) (w : W)
        → Holds ps info
        → Holds ps (env.tm.add_idle_packet info w).0
    pub complete_good :
        (ps : List (List ℕ)) (info : FrameInfo) (w : W)
        → Holds ps info
        → (env.tm.complete_frame info w).0 ≡ env.tm.sdlp_success
    pub complete :
        (ps : List (List ℕ)) (info : FrameInfo) (w : W)
        → Holds ps info
        → Carries ps (env.tm.complete_frame info w).1.frame
    pub sized : (ps : List (List ℕ)) (f : List ℕ) → Carries ps f → length f ≡ tm_frame_size
    pub secure :
        (ps : List (List ℕ)) (f : List ℕ) (w : W)
        → Carries ps f
        → Carries ps (env.crypto.apply_security f w).1
    pub synchronize :
        (ps : List (List ℕ)) (cadu : List ℕ) (w : W)
        → length cadu ≡ env.tm.asm_size + tm_frame_size
        → Carries ps (drop env.tm.asm_size cadu)
        → (n : ℕ) × ((env.tm.synchronize cadu w).0 ≡ pos n)
          × (0 < n)
          × (n ≤ 2043)
          × (n ≤ length (env.tm.synchronize cadu w).1)
          × IsCadu ps (take n (env.tm.synchronize cadu w).1)
    pub synchronize_sized :
        (cadu : List ℕ) (w : W) → length (env.tm.synchronize cadu w).1 ≡ length cadu

-- The frames of a downlink as datagrams, with the packets that each carries, one behind the other.
pub data Radioed (IsCadu : List (List ℕ) → List ℕ → Type 0)
    : List (List ℕ) → List (List ℕ) → Type 0 where
  nothing : Radioed IsCadu [] []
  sent :
      {ps qs : List (List ℕ)} {d : List ℕ} {ds : List (List ℕ)}
      → IsCadu ps d
      → Radioed IsCadu qs ds
      → Radioed IsCadu (ps ++ qs) (d ∷ ds)

-- One side of the downlink: the radio behind the driver's SPI device, the pipe, and the libraries
-- with what their frames hold.
pub record DownlinkSide {W : Type 0} (env : Env W) : Type 1 where
  pub spi : Spi
  pub status : List ℕ → W → ℤ
  pub sim : W → Sim
  pub seen : W → ℕ
  pub link : IsLink env.cfg env.hw spi status sim seen
  -- The socket takes every datagram whole.
  pub takes :
      (payload : List ℕ) (w : W)
      → 0 < length payload
      → length payload ≤ 2043
      → status (command_packet send_cmd payload) w ≡ pos (length payload)
  pub queue : W → List (List ℕ)
  pub room : ℕ
  pub Holds : List (List ℕ) → FrameInfo → Type 0
  pub Carries : List (List ℕ) → List ℕ → Type 0
  pub IsCadu : List (List ℕ) → List ℕ → Type 0
  pub tm : IsTm env room
  pub pipe : IsPipe env spi sim seen queue
  pub framing : IsFraming env spi sim seen queue Holds Carries IsCadu
