-- ===== src/App/Downlink/Stuck.antt =====
-- RADIO_ServiceDownlink in src/radio_app.c with a packet as large as the room of a fresh frame, which
-- is kept for the next frame.
use tryspace_comp_radio.Base.{
  ℕ, zero, suc, ◌≤◌, ◌<◌, ◌≡◌, refl, ap, ◌∙◌, true, false, none, some, List, arith, ltb, lt→ltb,
  le→ltb, ◌==◌, eq_int, eq_int_refl, is_negative, memcpy, take,
}
use tryspace_comp_radio.Env.{Env, FrameInfo}
use tryspace_comp_radio.App.State.{App}
use tryspace_comp_radio.App.Downlink.{
  tm_frame_size, Down, next_packet, ready_frame, put_packet, fill_once, fill_frame, secure_frame,
  transmit_frame, frame_once, send_frames,
}
use tryspace_comp_radio.App.Downlink.Filled.{
  IsFramer, ready_frame-ready, secure_frame-ready, transmit_frame-ready,
}

module _ {W : Type 0} (env : Env W) (room : ℕ) where
  -- Frames are completed and synchronised without an error.
  pub record IsSmooth : Type 0 where
    pub framer : IsFramer env room
    pub completes :
        (info : FrameInfo) (w : W) → (env.tm.complete_frame info w).0 ≡ env.tm.sdlp_success
    pub synchronizes : (cadu : List ℕ) (w : W) → is_negative (env.tm.synchronize cadu w).0 ≡ false

  -- Between two frames, a packet waits that is not smaller than the room of a fresh frame.
  pub record IsStuck (d : Down W) : Type 0 where
    pub count : d.pkt_count < env.cfg.max_tx_msgs_per_poll
    pub waiting : 0 < d.pkt_len
    pub fresh : d.app.frame_info.is_ready ≡ false
    pub large : room ≤ env.cfe.packet_size d.packet

  -- What the packets' part of the locals is after a turn that does not take the packet.
  Held : Down W → Down W → Type 0
  Held d d' =
      (d'.pkt_count ≡ d.pkt_count)
      × (d'.packet ≡ d.packet)
      × (d'.pkt_len ≡ env.cfe.packet_size d.packet)

  next_packet-waiting : (d : Down W) → 0 < d.pkt_len → next_packet env d ≡ some d
  unfolding next_packet
  next_packet-waiting d h = let waits : (d.pkt_len == 0) ≡ false = ground arith in rw waits refl

  fill_once-Held :
      (t : IsSmooth) (d : Down W)
      → IsStuck d
      → ((fill_once env d).0 ≡ false) × Held d (fill_once env d).1
  unfolding fill_once Held put_packet
  fill_once-Held t d v =
      let (ready, count, packet, free) = ready_frame-ready env room t.framer d in
      let kept = next_packet-waiting d v.waiting in
      let d₂ = (ready_frame env d).1 in
      let same : env.cfe.packet_size d₂.packet ≡ env.cfe.packet_size d.packet =
        ap env.cfe.packet_size packet in
      let full : ltb (env.cfe.packet_size d₂.packet) d₂.app.frame_info.free_octets ≡ false =
        le→ltb _ _ (omega (arith, same, free v.fresh, v.large)) in
      rw (kept, fill_once, ready, full) (refl, (count, packet, same))

  fill_frame-Held :
      (t : IsSmooth) (turns : ℕ) (d : Down W)
      → 0 < turns
      → IsStuck d
      → Held d (fill_frame env turns d)
  unfolding fill_frame
  fill_frame-Held t zero d h v = absurd (omega arith)
  fill_frame-Held t (suc turns) d h v =
      let (stop, held) = fill_once-Held t d v in
      let more = lt→ltb d.pkt_count env.cfg.max_tx_msgs_per_poll v.count in rw (more, stop) held

  transmit_frame-on : (t : IsSmooth) (a : App) (w : W) → (transmit_frame env a w).0 ≡ true
  unfolding transmit_frame
  transmit_frame-on t a w =
      rw
        (t.synchronizes
          (memcpy a.cadu_buffer env.tm.asm_size (take tm_frame_size a.frame_info.frame)) w)
        refl

  frame_once-IsStuck :
      (t : IsSmooth) (d : Down W)
      → 0 < room
      → IsStuck d
      → ((frame_once env d).0 ≡ true) × IsStuck (frame_once env d).1
  unfolding frame_once Held
  frame_once-IsStuck t d some_room v =
      let max = env.cfg.max_tx_msgs_per_poll in
      let filled = fill_frame env max d in
      let (info₁, w₁) = env.tm.add_idle_packet filled.app.frame_info filled.world in
      let (status, info₂, w₂) = env.tm.complete_frame info₁ w₁ in
      let a₂ = record (filled.app) { frame_info = info₂ } in
      let (a₃, w₃) = secure_frame env a₂ w₂ in
      let (count, packet, len) = fill_frame-Held t max d (omega (arith, v.count)) v in
      let good : eq_int status env.tm.sdlp_success ≡ true =
        ap (λ s. eq_int s env.tm.sdlp_success) (t.completes info₁ w₁)
        ∙ eq_int_refl env.tm.sdlp_success in
      rw good (
        transmit_frame-on t a₃ w₃,
        record {
          count = omega (arith, count, v.count);
          waiting = omega (arith, len, v.large);
          fresh =
              transmit_frame-ready env room a₃ w₃
              ∙ secure_frame-ready env room a₂ w₂
              ∙ t.framer.completes info₁ w₁;
          large = omega (arith, ap env.cfe.packet_size packet, v.large);
        },
      )

  -- If started frames have a fixed room, frames are completed and synchronised without an error,
  -- and between two frames a packet waits that is not smaller than that room, while the limit of
  -- packets is not reached, then the outer loop of the downlink does not return: no number of
  -- turns is enough.
  pub send_frames-IsStuck :
      (t : IsSmooth) (turns : ℕ) (d : Down W)
      → 0 < room
      → IsStuck d
      → send_frames env turns d ≡ none
  unfolding send_frames
  send_frames-IsStuck t zero d some_room v = refl
  send_frames-IsStuck t (suc turns) d some_room v =
      let (on, stuck) = frame_once-IsStuck t d some_room v in
      let more = lt→ltb d.pkt_count env.cfg.max_tx_msgs_per_poll v.count in
      rw (more, on) (send_frames-IsStuck t turns (frame_once env d).1 some_room stuck)
