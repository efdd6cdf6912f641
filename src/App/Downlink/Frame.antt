-- ===== src/App/Downlink/Frame.antt =====
-- What RADIO_ServiceDownlink in src/radio_app.c leaves alone in the application's data.
use tryspace_comp_radio.Base.{
  ℕ, zero, suc, ◌≡◌, refl, ◌∙◌, some, List, arith, Bool-cases, Option-cases, inl, inr, ltb, eq_int,
}
use tryspace_comp_radio.Env.{Env}
use tryspace_comp_radio.App.State.{App}
use tryspace_comp_radio.App.Downlink.{
  Down, next_packet, ready_frame, put_packet, fill_once, fill_frame, secure_frame, transmit_frame,
  frame_once, send_frames, open_channel, service_downlink,
}

-- The receive buffer, and whether the device is enabled.
pub record View : Type 0 where
  pub buffer : List ℕ
  pub waiting : ℕ
  pub enabled : ℕ

abbrev pub view : App → View
view a = record {
  buffer = a.receive_buffer;
  waiting = a.receive_buff_length;
  enabled = a.hk.device_enabled;
}

module _ {W : Type 0} (env : Env W) where
  ready_frame-view : (d : Down W) → view (ready_frame env d).1.app ≡ view d.app
  unfolding ready_frame
  ready_frame-view d = ground arith

  put_packet-view : (d : Down W) → view (put_packet env d).1.app ≡ view d.app
  unfolding put_packet
  put_packet-view d = ground arith

  next_packet-view : (d d₁ : Down W) → next_packet env d ≡ some d₁ → view d₁.app ≡ view d.app
  unfolding next_packet
  next_packet-view d d₁ h = ground arith

  fill_once-view : (d : Down W) → view (fill_once env d).1.app ≡ view d.app
  unfolding fill_once
  fill_once-view d = elim (Option-cases (next_packet env d)) [
    | inl end ↦ rw (end, fill_once) refl
    | inr (d₁, next) ↦
        let (ready, d₂) = ready_frame env d₁ in
        let e = ready_frame-view d₁ ∙ next_packet-view d d₁ next in
        elim (Bool-cases ready) [
          | inl is_ready ↦ rw (next, is_ready, fill_once) (put_packet-view d₂ ∙ e)
          | inr unready ↦ rw (next, unready, fill_once) e
        ]
  ]

  fill_frame-view : (turns : ℕ) (d : Down W) → view (fill_frame env turns d).app ≡ view d.app
  unfolding fill_frame
  fill_frame-view zero d = refl
  fill_frame-view (suc turns) d =
      let (go_on, d') = fill_once env d in
      elim (Bool-cases (ltb d.pkt_count env.cfg.max_tx_msgs_per_poll)) [
        | inr over ↦ rw over refl
        | inl more ↦ elim (Bool-cases go_on) [
          | inl on ↦ rw (more, on) (fill_frame-view turns d' ∙ fill_once-view d)
          | inr off ↦ rw (more, off) (fill_once-view d)
        ]
      ]

  secure_frame-view : (a : App) (w : W) → view (secure_frame env a w).0 ≡ view a
  unfolding secure_frame
  secure_frame-view a w = ground arith

  transmit_frame-view : (a : App) (w : W) → view (transmit_frame env a w).1 ≡ view a
  unfolding transmit_frame
  transmit_frame-view a w = ground arith

  frame_once-view : (d : Down W) → view (frame_once env d).1.app ≡ view d.app
  unfolding frame_once
  frame_once-view d =
      let filled = fill_frame env env.cfg.max_tx_msgs_per_poll d in
      let (info₁, w₁) = env.tm.add_idle_packet filled.app.frame_info filled.world in
      let (status, info₂, w₂) = env.tm.complete_frame info₁ w₁ in
      let a₂ = record (filled.app) { frame_info = info₂ } in
      let (a₃, w₃) = secure_frame env a₂ w₂ in
      let e = fill_frame-view env.cfg.max_tx_msgs_per_poll d in
      elim (Bool-cases (eq_int status env.tm.sdlp_success)) [
        | inl good ↦ rw good (transmit_frame-view a₃ w₃ ∙ secure_frame-view a₂ w₂ ∙ e)
        | inr bad ↦ rw bad e
      ]

  send_frames-view :
      (turns : ℕ) (d d' : Down W) → send_frames env turns d ≡ some d' → view d'.app ≡ view d.app
  unfolding send_frames
  send_frames-view zero d d' h = absurd (ground arith)
  send_frames-view (suc turns) d d' h =
      let rest = send_frames-view turns (frame_once env d).1 d' in
      ground (arith, rest, frame_once-view d)

  open_channel-view : (a : App) (w : W) → view (open_channel env a w).1 ≡ view a
  unfolding open_channel
  open_channel-view a w = ground arith

  -- The downlink neither touches the receive buffer nor enables or disables the device.
  pub service_downlink-view :
      (turns : ℕ) (a : App) (w : W) (r : App × W)
      → service_downlink env turns a w ≡ some r
      → view r.0 ≡ view a
  unfolding service_downlink
  service_downlink-view turns a w r h =
      let (_, a₁, w₁) = open_channel env a w in
      let start : Down W = record {
        pkt_count = 0;
        pkt_len = 0;
        packet = List.[];
        app = a₁;
        world = w₁;
      } in
      elim (Option-cases (send_frames env turns start)) [
        | inl out_of_turns ↦ ground (arith, out_of_turns, open_channel-view a w)
        | inr (d, sent) ↦
            ground (arith, sent, send_frames-view turns start d sent, open_channel-view a w)
      ]
