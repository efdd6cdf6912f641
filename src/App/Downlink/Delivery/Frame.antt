-- ===== src/App/Downlink/Delivery/Frame.antt =====
-- A turn of the outer loop of RADIO_ServiceDownlink in src/radio_app.c, with the radio behind it.
use tryspace_comp_radio.Base.{
  subst, ℕ, ◌+◌, ◌≤◌, ◌<◌, ◌≡◌, sym, ap, ◌∙◌, ◌⊎◌, inl, inr, Bool, true, false, List, [], ◌∷◌, ◌++◌,
  arith, length, Bool-cases, ◌==◌, if◌then◌else◌, eq_int, eq_int_refl,
}
use tryspace_comp_radio.Env.{Env, FrameInfo}
use tryspace_comp_radio.Sim.State.{Sim}
use tryspace_comp_radio.Sim.Effects.{transmits}
use tryspace_comp_radio.Sim.Link.Send.{IsKept}
use tryspace_comp_radio.App.State.{App}
use tryspace_comp_radio.App.Downlink.{Down, fill_frame, secure_frame, transmit_frame, frame_once}
use tryspace_comp_radio.App.Downlink.Filled.{secure_frame-ready}
use tryspace_comp_radio.App.Downlink.Laws.{IsQuiet, IsQuiet-trans, DownlinkSide}
use tryspace_comp_radio.App.Downlink.Flow.{max_tx, stock, Full, Begun}
use tryspace_comp_radio.App.Downlink.Flow.Loop.{fill_frame-Filled}
use tryspace_comp_radio.App.Downlink.Delivery.{
  IsUp, secure_frame-Carries, transmit_frame-Transmitted,
}

module _ {W : Type 0} (env : Env W) (side : DownlinkSide env) where
  open side use {spi, sim, seen, queue, room, Holds, IsCadu, tm, framing}

  pub quiet-IsUp :
      (a b : App) (w w' : W)
      → b.spi ≡ a.spi
      → b.cadu_buffer ≡ a.cadu_buffer
      → sim w' ≡ sim w
      → IsUp env side a w
      → IsUp env side b w'
  quiet-IsUp a b w w' handle cadu radio up = record {
    handle = handle ∙ up.handle;
    cadu = ap length cadu ∙ up.cadu;
    on = omega (arith, ap (λ (s : Sim). s.power_value) radio, up.on);
    sends = ap transmits radio ∙ up.sends;
  }

  -- CryptoLib changes neither the handle nor the CADU buffer, and uses neither link nor pipe.
  secure_frame-quiet :
      (a : App) (w : W)
      → let (a', w') = secure_frame env a w in
        IsQuiet env spi sim seen queue w w' × (a'.spi ≡ a.spi) × (a'.cadu_buffer ≡ a.cadu_buffer)
  unfolding secure_frame
  secure_frame-quiet a w = (quiet, ground arith, ground arith)
    where
      quiet : IsQuiet env spi sim seen queue w (secure_frame env a w).1
      quiet = elim (Bool-cases (env.crypto.has_association w).0) [
        | inl with_sa ↦ rw with_sa (
            IsQuiet-trans env spi sim seen queue w _ _ (framing.quiet_association w)
              (framing.quiet_security a.frame_info.frame (env.crypto.has_association w).1))
        | inr without ↦ rw without (framing.quiet_association w)
      ]

  -- A turn of the outer loop: some packets go from the stock into the frame, and the frame with
  -- them and with those that were in it to the ground station.
  pub record FrameSent (ps : List (List ℕ)) (d : Down W) (r : Bool × Down W) : Type 0 where
    pub go_on : r.0 ≡ true
    pub added : List (List ℕ)
    pub datagram : List ℕ
    pub carries : IsCadu (ps ++ added) datagram
    pub ground : (sim r.1.world).ground_out ≡ (sim d.world).ground_out ++ (datagram ∷ [])
    pub replies : seen r.1.world ≡ seen d.world
    pub kept : IsKept (sim d.world) (sim r.1.world)
    pub taken : stock env side d ≡ added ++ stock env side r.1
    pub within : d.pkt_count + length added ≤ max_tx env side
    pub counted :
        (r.1.pkt_count ≡ d.pkt_count + length added)
        ⊎ ((r.1.pkt_count ≡ max_tx env side) × (stock env side r.1 ≡ []))
    pub full : Full env side r.1
    pub shut : r.1.app.frame_info.is_ready ≡ false
    pub up : IsUp env side r.1.app r.1.world

  pub frame_once-FrameSent :
      (ps : List (List ℕ)) (d : Down W)
      → Begun env side ps d
      → d.pkt_count < max_tx env side
      → IsUp env side d.app d.world
      → FrameSent ps d (frame_once env d)
  unfolding frame_once
  frame_once-FrameSent ps d begun less up =
      let max = env.cfg.max_tx_msgs_per_poll in
      let filled = fill_frame env max d in
      let (info₁, w₁) = env.tm.add_idle_packet filled.app.frame_info filled.world in
      let (status, info₂, w₂) = env.tm.complete_frame info₁ w₁ in
      let a₂ : App = record (filled.app) { frame_info = info₂ } in
      let (a₃, w₃) = secure_frame env a₂ w₂ in
      let (f, full) = fill_frame-Filled env side max ps d begun less (omega arith) in
      let qs = ps ++ f.added in
      let held₁ = framing.idle qs filled.app.frame_info filled.world f.holds in
      let c₂ = framing.complete qs info₁ w₁ held₁ in
      let q₁ = framing.quiet_idle filled.app.frame_info filled.world in
      let q₂ = framing.quiet_complete info₁ w₁ in
      let (q₃, handle₃, cadu₃) = secure_frame-quiet a₂ w₂ in
      let radio : sim w₃ ≡ sim d.world = q₃.radio ∙ q₂.radio ∙ q₁.radio ∙ f.radio in
      let up₃ : IsUp env side a₃ w₃ =
        quiet-IsUp d.app a₃ d.world w₃ (handle₃ ∙ f.same.handle) (cadu₃ ∙ f.same.cadu) radio up in
      let r =
        transmit_frame-Transmitted env side qs a₃ w₃ (secure_frame-Carries env side qs a₂ w₂ c₂)
          up₃ in
      let good : eq_int status env.tm.sdlp_success ≡ true =
        ap (λ s. eq_int s env.tm.sdlp_success) (framing.complete_good qs info₁ w₁ held₁)
        ∙ eq_int_refl env.tm.sdlp_success in
      let waits : List (List ℕ) → List (List ℕ) =
        λ q. if filled.pkt_len == 0 then q else filled.packet ∷ q in
      let left : stock env side (record filled { world = (transmit_frame env a₃ w₃).2 })
          ≡ stock env side filled =
        ap waits (r.pipe_same ∙ q₃.pipe ∙ q₂.pipe ∙ q₁.pipe) in
      rw good (record {
        go_on = r.go_on;
        added = f.added;
        datagram = r.datagram;
        carries = r.carries;
        ground = r.ground ∙ ap (λ (s : Sim). s.ground_out ++ (r.datagram ∷ [])) radio;
        replies = r.replies ∙ q₃.replies ∙ q₂.replies ∙ q₁.replies ∙ f.replies;
        kept = subst (λ x. IsKept x (sim (transmit_frame env a₃ w₃).2)) radio r.kept;
        taken = f.taken ∙ ap (λ q. f.added ++ q) (sym left);
        within = f.within;
        counted = elim f.counted [
          | inl more ↦ inl more
          | inr ended ↦ inr (ended.0, left ∙ ended.1)
        ];
        full = full;
        shut =
            ap (λ (i : FrameInfo). i.is_ready) r.info
            ∙ secure_frame-ready env room a₂ w₂
            ∙ tm.framer.completes info₁ w₁;
        up = r.up;
      })
