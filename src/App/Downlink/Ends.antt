-- ===== src/App/Downlink/Ends.antt =====
-- When RADIO_ServiceDownlink in src/radio_app.c returns.
use tryspace_comp_radio.Base.{
  ℕ, zero, suc, ◌+◌, ◌-◌, ◌<◌, ◌≡◌, refl, ◌∙◌, inl, inr, some, List, arith, Bool-cases, ltb, ltb→lt,
  eq_int,
}
use tryspace_comp_radio.Env.{Env}
use tryspace_comp_radio.App.State.{App}
use tryspace_comp_radio.App.Downlink.{
  Down, fill_frame, secure_frame, frame_once, send_frames, open_channel, service_downlink,
}
use tryspace_comp_radio.App.Downlink.Filled.{
  Waits, Fresh, Grows, fill_frame-Grows, fill_frame-Fresh, secure_frame-ready, transmit_frame-ready,
  IsTm,
}

module _ {W : Type 0} (env : Env W) (room : ℕ) where
  -- A turn of the outer loop leaves the frame completed. It counts a packet if the frame was fresh.
  frame_once-Grows :
      (t : IsTm env room) (d : Down W)
      → d.pkt_count < env.cfg.max_tx_msgs_per_poll
      → Waits env room d
      → Grows env room d (frame_once env d).1 × Fresh env room (frame_once env d).1
  unfolding frame_once
  frame_once-Grows t d h v =
      let max = env.cfg.max_tx_msgs_per_poll in
      let filled = fill_frame env max d in
      let (info₁, w₁) = env.tm.add_idle_packet filled.app.frame_info filled.world in
      let (status, info₂, w₂) = env.tm.complete_frame info₁ w₁ in
      let a₂ = record (filled.app) { frame_info = info₂ } in
      let (a₃, w₃) = secure_frame env a₂ w₂ in
      let (le, waits) = fill_frame-Grows env room t max d v in
      let shut = t.framer.completes info₁ w₁ in
      elim (Bool-cases (eq_int status env.tm.sdlp_success)) [
        | inl good ↦ rw good (
          record {
            count = le;
            more = λ e. fill_frame-Fresh env room t max d (omega arith) h v e;
            waits = waits;
          },
          transmit_frame-ready env room a₃ w₃ ∙ secure_frame-ready env room a₂ w₂ ∙ shut,
        )
        | inr bad ↦ rw bad (
          record {
            count = le;
            more = λ e. fill_frame-Fresh env room t max d (omega arith) h v e;
            waits = waits;
          },
          shut,
        )
      ]

  send_frames-Fresh :
      (t : IsTm env room) (turns : ℕ) (d : Down W)
      → Waits env room d
      → Fresh env room d
      → env.cfg.max_tx_msgs_per_poll - d.pkt_count < turns
      → (d' : Down W) × (send_frames env turns d ≡ some d')
  unfolding send_frames
  send_frames-Fresh t zero d v e h = absurd (omega arith)
  send_frames-Fresh t (suc turns) d v e h =
      let (go_on, d') = frame_once env d in
      elim (Bool-cases (ltb d.pkt_count env.cfg.max_tx_msgs_per_poll)) [
        | inr over ↦ (d, rw over refl)
        | inl less ↦
            let (g, fresh) = frame_once-Grows t d (ltb→lt _ _ less) v in
            elim (Bool-cases go_on) [
              | inr off ↦ (d', rw (less, off) refl)
              | inl on ↦
                  let (r, returned) =
                    send_frames-Fresh t turns d' g.waits fresh
                      (omega (arith, g.more e, ltb→lt _ _ less)) in
                  (r, rw (less, on) returned)
            ]
      ]

  -- The outer loop returns: after a turn for each packet that may still be counted, and one for a
  -- frame that was begun before.
  pub send_frames-returns :
      (t : IsTm env room) (turns : ℕ) (d : Down W)
      → Waits env room d
      → env.cfg.max_tx_msgs_per_poll - d.pkt_count + 1 < turns
      → (d' : Down W) × (send_frames env turns d ≡ some d')
  unfolding send_frames
  send_frames-returns t zero d v h = absurd (omega arith)
  send_frames-returns t (suc turns) d v h =
      let (go_on, d') = frame_once env d in
      elim (Bool-cases (ltb d.pkt_count env.cfg.max_tx_msgs_per_poll)) [
        | inr over ↦ (d, rw over refl)
        | inl less ↦
            let (g, fresh) = frame_once-Grows t d (ltb→lt _ _ less) v in
            elim (Bool-cases go_on) [
              | inr off ↦ (d', rw (less, off) refl)
              | inl on ↦
                  let (r, returned) =
                    send_frames-Fresh t turns d' g.waits fresh (omega (arith, g.count)) in
                  (r, rw (less, on) returned)
            ]
      ]

  -- If a started frame has a fixed room, a packet for which there is room is added, a completed
  -- frame is no longer ready, and every packet on the pipe is smaller than the room, then the
  -- downlink returns, with two turns more than the limit of packets in a poll.
  pub service_downlink-returns :
      (turns : ℕ) (a : App) (w : W)
      → IsTm env room
      → env.cfg.max_tx_msgs_per_poll + 1 < turns
      → (r : App × W) × (service_downlink env turns a w ≡ some r)
  unfolding service_downlink
  service_downlink-returns turns a w t h =
      let (opened, a₁, w₁) = open_channel env a w in
      let (d, sent) =
        send_frames-returns t turns
          (record { pkt_count = 0; pkt_len = 0; packet = List.[]; app = a₁; world = w₁ }) (inl refl)
          (omega arith) in
      elim (Bool-cases opened) [
        | inl on ↦ ((d.app, d.world), rw (on, sent) refl)
        | inr off ↦ ((a₁, w₁), rw off refl)
      ]
