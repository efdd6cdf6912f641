-- ===== src/App/Downlink/Delivery/Frames.antt =====
-- The packets of the downlink pipe through RADIO_ServiceDownlink in src/radio_app.c to the ground
-- station.
use tryspace_comp_radio.Base.{
  ℕ, zero, suc, ◌+◌, ◌≤◌, ◌<◌, ◌≡◌, refl, sym, ap, ◌∙◌, subst, ◌⊎◌, inl, inr, true, false, some,
  List, [], ◌∷◌, ◌++◌, arith, length, length-append, ltb, lt→ltb, le→ltb, ◌==◌, append_assoc,
  append-nil,
}
use tryspace_comp_radio.Env.{Env}
use tryspace_comp_radio.Sim.Link.Send.{IsKept, IsKept-trans}
use tryspace_comp_radio.App.State.{App}
use tryspace_comp_radio.App.Downlink.{Down, frame_once, send_frames}
use tryspace_comp_radio.App.Downlink.Laws.{DownlinkSide, Radioed, nothing, sent}
use tryspace_comp_radio.App.Downlink.Flow.{max_tx, stock, Begun}
use tryspace_comp_radio.App.Downlink.Delivery.Frame.{FrameSent, frame_once-FrameSent}
use tryspace_comp_radio.App.Downlink.Delivery.{IsUp}

module _ {W : Type 0} (env : Env W) (side : DownlinkSide env) where
  open side use {spi, sim, seen, queue, room, Holds, IsCadu, tm, framing}

  -- The packets of an open frame and then some of the stock have reached the ground station in
  -- order; the rest is on the pipe; and the limit of packets was used up, or nothing is left.
  pub record Downlinked (ps stocked : List (List ℕ)) (count : ℕ) (w w' : W) : Type 0 where
    pub taken : List (List ℕ)
    pub datagrams : List (List ℕ)
    pub radioed : Radioed IsCadu (ps ++ taken) datagrams
    pub ground : (sim w').ground_out ≡ (sim w).ground_out ++ datagrams
    pub pipe_eq : stocked ≡ taken ++ queue w'
    pub whole : (count + length taken ≡ max_tx env side) ⊎ (queue w' ≡ [])
    pub within : count + length taken ≤ max_tx env side
    pub replies : seen w' ≡ seen w
    pub kept : IsKept (sim w) (sim w')

  -- What is left after the downlink.
  pub record Closed (a : App) (w : W) : Type 0 where
    pub shut : a.frame_info.is_ready ≡ false
    pub up : IsUp env side a w

  send_frames-over :
      (turns : ℕ) (d d' : Down W)
      → max_tx env side ≤ d.pkt_count
      → send_frames env turns d ≡ some d'
      → d ≡ d'
  unfolding send_frames
  send_frames-over zero d d' over h = absurd (ground arith)
  send_frames-over (suc turns) d d' over h =
      let test : ltb d.pkt_count env.cfg.max_tx_msgs_per_poll ≡ false = le→ltb _ _ over in
      ground (arith, test)

  send_frames-next :
      (turns : ℕ) (d : Down W)
      → d.pkt_count < max_tx env side
      → (frame_once env d).0 ≡ true
      → send_frames env (suc turns) d ≡ send_frames env turns (frame_once env d).1
  unfolding send_frames
  send_frames-next turns d less on = rw (lt→ltb d.pkt_count (max_tx env side) less, on) refl

  -- One frame, and nothing behind it.
  last_frame :
      (ps : List (List ℕ)) (d : Down W) (f : FrameSent env side ps d (frame_once env d))
      → max_tx env side ≤ (frame_once env d).1.pkt_count
      → (frame_once env d).1.pkt_len ≡ 0
      → Downlinked ps (stock env side d) d.pkt_count d.world (frame_once env d).1.world
  last_frame ps d f over idle =
      let d₁ = (frame_once env d).1 in
      let test : (d₁.pkt_len == 0) ≡ true = ground arith in
      let left : stock env side d₁ ≡ queue d₁.world = rw test refl in
      record {
        taken = f.added;
        datagrams = f.datagram ∷ [];
        radioed =
            subst (λ qs. Radioed IsCadu qs (f.datagram ∷ [])) (append-nil (ps ++ f.added))
              (sent f.carries nothing);
        ground = f.ground;
        pipe_eq = f.taken ∙ ap (λ q. f.added ++ q) left;
        whole = elim f.counted [
          | inl more ↦ inl (omega (arith, more, over, f.within))
          | inr ended ↦ inr (sym left ∙ ended.1)
        ];
        within = f.within;
        replies = f.replies;
        kept = f.kept;
      }

  -- One frame in front of others.
  next_frame :
      (ps : List (List ℕ)) (d : Down W) (w : W) (f : FrameSent env side ps d (frame_once env d))
      → (frame_once env d).1.pkt_count < max_tx env side
      → Downlinked []
          (stock env side (frame_once env d).1)
          (frame_once env d).1.pkt_count
          (frame_once env d).1.world
          w
      → Downlinked ps (stock env side d) d.pkt_count d.world w
  next_frame ps d w f less later =
      let count : (frame_once env d).1.pkt_count ≡ d.pkt_count + length f.added = elim f.counted [
        | inl more ↦ more
        | inr ended ↦ omega (arith, ended.0, less)
      ] in
      let both = length-append f.added later.taken in
      record {
        taken = f.added ++ later.taken;
        datagrams = f.datagram ∷ later.datagrams;
        radioed =
            subst (λ qs. Radioed IsCadu qs (f.datagram ∷ later.datagrams))
              (append_assoc ps f.added later.taken) (sent f.carries later.radioed);
        ground =
            later.ground
            ∙ ap (λ g. g ++ later.datagrams) f.ground
            ∙ append_assoc (sim d.world).ground_out (f.datagram ∷ []) later.datagrams;
        pipe_eq =
            f.taken
            ∙ ap (λ q. f.added ++ q) later.pipe_eq
            ∙ sym (append_assoc f.added later.taken (queue w));
        whole = elim later.whole [
          | inl limit ↦ inl (omega (arith, limit, count, both))
          | inr over ↦ inr over
        ];
        within = omega (arith, later.within, count, both);
        replies = later.replies ∙ f.replies;
        kept = IsKept-trans _ _ _ f.kept later.kept;
      }

  pub send_frames-Downlinked :
      (turns : ℕ) (ps : List (List ℕ)) (d d' : Down W)
      → Begun env side ps d
      → d.pkt_count < max_tx env side
      → IsUp env side d.app d.world
      → send_frames env turns d ≡ some d'
      → Downlinked ps (stock env side d) d.pkt_count d.world d'.world × Closed d'.app d'.world
  unfolding send_frames
  send_frames-Downlinked zero ps d d' begun less up h = absurd (ground arith)
  send_frames-Downlinked (suc turns) ps d d' begun less up h =
      let d₁ = (frame_once env d).1 in
      let f = frame_once-FrameSent env side ps d begun less up in
      let h' : send_frames env turns d₁ ≡ some d' =
        sym (send_frames-next turns d less f.go_on) ∙ h in
      elim f.full [
        | inl over ↦
            subst
              (λ x.
                Downlinked ps (stock env side d) d.pkt_count d.world x.world × Closed x.app x.world)
              (send_frames-over turns d₁ d' (over.0) h')
              (last_frame ps d f (over.0) (over.1), record { shut = f.shut; up = f.up })
        | inr more ↦
            let (later, closed) =
              send_frames-Downlinked turns [] d₁ d' (inr (f.shut, refl, more.1)) (more.0) f.up h' in
            (next_frame ps d d'.world f (more.0) later, closed)
      ]
