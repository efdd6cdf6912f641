-- ===== src/App/Downlink/Delivery/Channel.antt =====
-- RADIO_ServiceDownlink in src/radio_app.c from the downlink pipe to the ground station.
use tryspace_comp_radio.Base.{
  ℕ, ◌+◌, ◌<◌, ◌≡◌, refl, sym, ap, ◌∙◌, subst, ◌⊎◌, inl, inr, Bool, true, false, some, List, [],
  ◌++◌, arith, eq_int, eq_int_refl,
}
use tryspace_comp_radio.Env.{Env}
use tryspace_comp_radio.Sim.State.{Sim}
use tryspace_comp_radio.Sim.Link.Send.{IsKept}
use tryspace_comp_radio.App.State.{App}
use tryspace_comp_radio.App.Downlink.{Down, open_channel, service_downlink}
use tryspace_comp_radio.App.Downlink.Ends.{send_frames-returns}
use tryspace_comp_radio.App.Downlink.Laws.{IsQuiet, IsQuiet-refl, IsQuiet-trans, DownlinkSide}
use tryspace_comp_radio.App.Downlink.Delivery.Frame.{quiet-IsUp}
use tryspace_comp_radio.App.Downlink.Delivery.{IsUp}
use tryspace_comp_radio.App.Downlink.Delivery.Frames.{Downlinked, Closed, send_frames-Downlinked}

module _ {W : Type 0} (env : Env W) (side : DownlinkSide env) where
  open side use {spi, sim, seen, queue, room, Holds, IsCadu, tm, framing}

  -- A frame that is open with these packets, or to be opened.
  abbrev pub OpenFrame : List (List ℕ) → App → Type 0
  OpenFrame ps a =
      ((a.frame_info.is_ready ≡ true) × Holds ps a.frame_info)
      ⊎ ((a.frame_info.is_ready ≡ false) × (ps ≡ []))

  -- The frame that the loop begins with.
  record Opened (ps : List (List ℕ)) (w : W) (r : Bool × App × W) : Type 0 where
    go_on : r.0 ≡ true
    ready : r.1.frame_info.is_ready ≡ true
    holds : Holds ps r.1.frame_info
    quiet : IsQuiet env spi sim seen queue w r.2
    up : IsUp env side r.1 r.2

  open_channel-ready :
      (a : App) (w : W) → a.frame_info.is_ready ≡ true → open_channel env a w ≡ (true, a, w)
  unfolding open_channel
  open_channel-ready a w ready = rw ready refl

  open_channel-shut :
      (a : App) (w : W)
      → a.frame_info.is_ready ≡ false
      → let (_, info₁, w₁) = env.tm.init_channel a.frame_info w in
        let (_, info₂, w₂) = env.tm.start_frame info₁ w₁ in
        open_channel env a w ≡ (true, record a { frame_info = info₂ }, w₂)
  unfolding open_channel
  open_channel-shut a w unready =
      let (s₁, info₁, w₁) = env.tm.init_channel a.frame_info w in
      let (s₂, _, _) = env.tm.start_frame info₁ w₁ in
      let same = eq_int_refl env.tm.sdlp_success in
      let good₁ : eq_int s₁ env.tm.sdlp_success ≡ true =
        ap (λ s. eq_int s env.tm.sdlp_success) (framing.inits a.frame_info w) ∙ same in
      let good₂ : eq_int s₂ env.tm.sdlp_success ≡ true =
        ap (λ s. eq_int s env.tm.sdlp_success) (tm.framer.starts info₁ w₁) ∙ same in
      rw (good₂, good₁, unready) refl

  open_channel-Opened :
      (ps : List (List ℕ)) (a : App) (w : W)
      → OpenFrame ps a
      → IsUp env side a w
      → Opened ps w (open_channel env a w)
  open_channel-Opened ps a w (inl (ready, holds)) up =
      subst (Opened ps w) (sym (open_channel-ready a w ready)) (record {
        go_on = refl;
        ready = ready;
        holds = holds;
        quiet = IsQuiet-refl env spi sim seen queue w;
        up = up;
      })
  open_channel-Opened ps a w (inr (unready, e)) up =
      let (_, info₁, w₁) = env.tm.init_channel a.frame_info w in
      let (_, info₂, w₂) = env.tm.start_frame info₁ w₁ in
      let quiet =
        IsQuiet-trans env spi sim seen queue w w₁ w₂ (framing.quiet_init a.frame_info w)
          (framing.quiet_start info₁ w₁) in
      subst (Opened ps w) (sym (open_channel-shut a w unready)) (record {
        go_on = refl;
        ready = framing.ready info₁ w₁;
        holds = subst (λ qs. Holds qs info₂) (sym e) (framing.start info₁ w₁);
        quiet = quiet;
        up = quiet-IsUp env side a (record a { frame_info = info₂ }) w w₂ refl refl quiet.radio up;
      })

  Downlinked-quiet :
      (ps stocked : List (List ℕ)) (count : ℕ) (w w₁ w' : W)
      → IsQuiet env spi sim seen queue w w₁
      → Downlinked env side ps stocked count w₁ w'
      → Downlinked env side ps stocked count w w'
  Downlinked-quiet ps stocked count w w₁ w' q d = record {
    taken = d.taken;
    datagrams = d.datagrams;
    radioed = d.radioed;
    ground = d.ground ∙ ap (λ (s : Sim). s.ground_out ++ d.datagrams) q.radio;
    pipe_eq = d.pipe_eq;
    whole = d.whole;
    within = d.within;
    replies = d.replies ∙ q.replies;
    kept = subst (λ x. IsKept x (sim w')) q.radio d.kept;
  }

  pub service_downlink-Downlinked :
      (turns : ℕ) (ps : List (List ℕ)) (a : App) (w : W)
      → OpenFrame ps a
      → IsUp env side a w
      → 0 < env.cfg.max_tx_msgs_per_poll
      → env.cfg.max_tx_msgs_per_poll + 1 < turns
      → (r : App × W) × (service_downlink env turns a w ≡ some r)
        × Downlinked env side ps (queue w) 0 w r.1
        × Closed env side r.0 r.1
  unfolding service_downlink
  service_downlink-Downlinked turns ps a w begun up some_tx h =
      let (_, a₁, w₁) = open_channel env a w in
      let o = open_channel-Opened ps a w begun up in
      let start : Down W = record {
        pkt_count = 0;
        pkt_len = 0;
        packet = [];
        app = a₁;
        world = w₁;
      } in
      let (d, returned) = send_frames-returns env room tm turns start (inl refl) (omega arith) in
      let (down, closed) =
        send_frames-Downlinked env side turns ps start d (inl (o.ready, o.holds, refl)) some_tx o.up
          returned in
      (
        (d.app, d.world),
        rw (o.go_on, returned) refl,
        subst (λ q. Downlinked env side ps q 0 w d.world) (o.quiet.pipe)
            (Downlinked-quiet ps (queue w₁) 0 w w₁ d.world o.quiet down),
        closed,
      )
