-- ===== src/App/Downlink/Filled.antt =====
-- How the inner loop of RADIO_ServiceDownlink in src/radio_app.c fills a frame, given what the TM
-- library does.
use tryspace_comp_radio.Base.{
  ℕ, zero, suc, ◌≤◌, ◌<◌, ◌≡◌, refl, ap, ◌∙◌, sym, subst, ◌⊎◌, inl, inr, true, false, none, some,
  List, arith, Bool-cases, Option-cases, ltb, lt→ltb, ltb→lt, eq_int, eq_int_refl, is_negative,
}
use tryspace_comp_radio.Env.{Env, FrameInfo}
use tryspace_comp_radio.App.State.{App}
use tryspace_comp_radio.App.Downlink.{
  Down, next_packet, ready_frame, put_packet, fill_once, fill_frame, secure_frame, transmit_frame,
}

module _ {W : Type 0} (env : Env W) (room : ℕ) where
  -- The TM library's frames: one that is started is ready and has `room` free octets, and one that is
  -- completed is not ready.
  pub record IsFramer : Type 0 where
    pub starts : (info : FrameInfo) (w : W) → (env.tm.start_frame info w).0 ≡ env.tm.sdlp_success
    pub started : (info : FrameInfo) (w : W) → (env.tm.start_frame info w).1.free_octets ≡ room
    pub completes : (info : FrameInfo) (w : W) → (env.tm.complete_frame info w).1.is_ready ≡ false

  -- Besides, a packet for which there is room is added, and the packets on the downlink pipe are
  -- smaller than the room of a fresh frame.
  pub record IsTm : Type 0 where
    pub framer : IsFramer
    pub adds :
        (info : FrameInfo) (p : List ℕ) (w : W)
        → env.cfe.packet_size p < info.free_octets
        → is_negative (env.tm.add_packet info p w).0 ≡ false
    pub fits :
        (w : W) (p : List ℕ) → (env.cfe.poll_downlink w).0 ≡ some p → env.cfe.packet_size p < room

  -- No packet waits, or one that fits into a fresh frame.
  abbrev pub Waits : Down W → Type 0
  Waits d = (d.pkt_len ≡ 0) ⊎ (env.cfe.packet_size d.packet < room)

  -- A fresh frame is to be started.
  abbrev pub Fresh : Down W → Type 0
  Fresh d = d.app.frame_info.is_ready ≡ false

  -- More packets are counted than before, or, if the frame had been started, as many.
  pub record Grows (d d' : Down W) : Type 0 where
    pub count : d.pkt_count ≤ d'.pkt_count
    pub more : Fresh d → d.pkt_count < d'.pkt_count
    pub waits : Waits d'

  next_packet-fits :
      (t : IsTm) (d d₁ : Down W)
      → Waits d
      → next_packet env d ≡ some d₁
      → (env.cfe.packet_size d₁.packet < room) × (d₁.pkt_count ≡ d.pkt_count) × (d₁.app ≡ d.app)
  unfolding next_packet
  next_packet-fits t d d₁ v h = elim (Option-cases (env.cfe.poll_downlink d.world).0) [
    | inl end ↦ (ground (arith, end), ground (arith, end), ground (arith, end))
    | inr (p, e) ↦
        let fit = t.fits d.world p e in
        (ground (arith, e, fit), ground (arith, e), ground (arith, e))
  ]

  put_packet-fits :
      (t : IsTm) (d : Down W)
      → env.cfe.packet_size d.packet < room
      → Waits (put_packet env d).1
        × (d.pkt_count ≤ (put_packet env d).1.pkt_count)
        × (d.app.frame_info.free_octets ≡ room → d.pkt_count < (put_packet env d).1.pkt_count)
  unfolding put_packet
  put_packet-fits t d h =
      let added = t.adds d.app.frame_info d.packet d.world in
      elim (Bool-cases (ltb (env.cfe.packet_size d.packet) d.app.frame_info.free_octets)) [
        | inl less ↦
            let good = added (ltb→lt _ _ less) in
            rw (less, good) (inl refl, omega arith, λ e. omega arith)
        | inr full ↦ rw full (inr h, omega arith, λ e. absurd (ground (arith, full)))
      ]

  next_packet-end : (d : Down W) → next_packet env d ≡ none → d.pkt_len ≡ 0
  unfolding next_packet
  next_packet-end d h = ground arith

  pub ready_frame-ready :
      (t : IsFramer) (d : Down W)
      → ((ready_frame env d).0 ≡ true)
        × ((ready_frame env d).1.pkt_count ≡ d.pkt_count)
        × ((ready_frame env d).1.packet ≡ d.packet)
        × (Fresh d → (ready_frame env d).1.app.frame_info.free_octets ≡ room)
  unfolding ready_frame
  ready_frame-ready t d =
      let started : eq_int (env.tm.start_frame d.app.frame_info d.world).0 env.tm.sdlp_success
          ≡ true =
        ap (λ s. eq_int s env.tm.sdlp_success) (t.starts d.app.frame_info d.world)
        ∙ eq_int_refl env.tm.sdlp_success in
      let free = t.started d.app.frame_info d.world in
      (
        ground (arith, started),
        ground (arith, started),
        ground (arith, started),
        λ e. ground (arith, started, e, free),
      )

  fill_once-Grows :
      (t : IsTm) (d : Down W)
      → d.pkt_count < env.cfg.max_tx_msgs_per_poll
      → Waits d
      → Grows d (fill_once env d).1
  unfolding fill_once
  fill_once-Grows t d h v = elim (Option-cases (next_packet env d)) [
    | inl end ↦
        rw (end, fill_once)
          (record { count = omega arith; more = λ e. h; waits = inl (next_packet-end d end) })
    | inr (d₁, next) ↦
        let (fit, same, app_same) = next_packet-fits t d d₁ v next in
        let (ready, count, packet, free) = ready_frame-ready t.framer d₁ in
        let d₂ = (ready_frame env d₁).1 in
        let (waits, le, lt) =
          put_packet-fits t d₂ (subst (λ p. env.cfe.packet_size p < room) (sym packet) fit) in
        rw (next, ready, fill_once)
          (record {
            count = omega (arith, le, count, same);
            more = λ e. omega (
              arith,
              lt (free (ap (λ (a : App). a.frame_info.is_ready) app_same ∙ e)),
              count,
              same,
            );
            waits = waits;
          })
  ]

  pub fill_frame-Grows :
      (t : IsTm) (turns : ℕ) (d : Down W)
      → Waits d
      → (d.pkt_count ≤ (fill_frame env turns d).pkt_count) × Waits (fill_frame env turns d)
  unfolding fill_frame
  fill_frame-Grows t zero d v = (omega arith, v)
  fill_frame-Grows t (suc turns) d v =
      let (go_on, d') = fill_once env d in
      elim (Bool-cases (ltb d.pkt_count env.cfg.max_tx_msgs_per_poll)) [
        | inr over ↦ rw over (omega arith, v)
        | inl more ↦
            let g = fill_once-Grows t d (ltb→lt _ _ more) v in
            elim (Bool-cases go_on) [
              | inl on ↦
                  let (le, v') = fill_frame-Grows t turns d' g.waits in
                  rw (more, on) (omega (arith, le, g.count), v')
              | inr off ↦ rw (more, off) (g.count, g.waits)
            ]
      ]

  -- A fresh frame takes at least one packet, or the pipe is at its end.
  pub fill_frame-Fresh :
      (t : IsTm) (turns : ℕ) (d : Down W)
      → 0 < turns
      → d.pkt_count < env.cfg.max_tx_msgs_per_poll
      → Waits d
      → Fresh d
      → d.pkt_count < (fill_frame env turns d).pkt_count
  unfolding fill_frame
  fill_frame-Fresh t zero d some_turns h v e = absurd (omega arith)
  fill_frame-Fresh t (suc turns) d some_turns h v e =
      let (go_on, d') = fill_once env d in
      let more = lt→ltb d.pkt_count env.cfg.max_tx_msgs_per_poll h in
      let g = fill_once-Grows t d h v in
      elim (Bool-cases go_on) [
        | inl on ↦ rw (more, on) (omega (arith, (fill_frame-Grows t turns d' g.waits).0, g.more e))
        | inr off ↦ rw (more, off) (g.more e)
      ]

  pub secure_frame-ready :
      (a : App) (w : W) → (secure_frame env a w).0.frame_info.is_ready ≡ a.frame_info.is_ready
  unfolding secure_frame
  secure_frame-ready a w = ground arith

  pub transmit_frame-ready :
      (a : App) (w : W) → (transmit_frame env a w).1.frame_info.is_ready ≡ a.frame_info.is_ready
  unfolding transmit_frame
  transmit_frame-ready a w = ground arith
