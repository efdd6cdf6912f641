-- ===== src/App/Uplink/Delivery/Bus.antt =====
-- The space packets that come out of the way up, on the software bus.
use tryspace_comp_radio.Base.{
  ℕ, ◌≤◌, ◌<◌, ◌≡◌, refl, sym, ap, ◌∙◌, subst, inl, inr, List, [], ◌∷◌, ◌++◌, arith, ℤ, concat, All,
  append_assoc, append-nil, length, true, Bool, eq_int, eq_int_refl, Bool-cases, if◌then◌else◌,
}
use tryspace_comp_radio.Hardware.{Spi}
use tryspace_comp_radio.Env.{Env}
use tryspace_comp_radio.Sim.State.{Sim}
use tryspace_comp_radio.Sim.Link.{IsLink}
use tryspace_comp_radio.App.Eid
use tryspace_comp_radio.App.State.{App, Output, event, hk_packet, space_packet, error, send}
use tryspace_comp_radio.App.Uplink.Packets.{packets}
use tryspace_comp_radio.App.Uplink.Packets.Slices.{IsPacket}
use tryspace_comp_radio.App.Uplink.Packets.Stream.{packets-concat}
use tryspace_comp_radio.App.Uplink.Frames.Stream.{IsFrame, IsPartial}
use tryspace_comp_radio.App.Uplink.Service.{send_packets, on_frame, service_uplink}
use tryspace_comp_radio.App.Uplink.Service.Handled.{
  pending, Handles, done, frame, receive, Handles-append,
}
use tryspace_comp_radio.App.Uplink.Service.Reassembly.{All-split, no_frame_partial}
use tryspace_comp_radio.App.Uplink.Service.Linked.{IsApart, service_uplink-Polled}
use tryspace_comp_radio.App.Uplink.Delivery.{
  IsAir, Steps, IsReady, on_radio, Delivered, Steps-Delivered,
}

-- The space packets among what the application handed to cFE.
abbrev pub bus : List Output → List (List ℕ)
bus [] = []
bus (event id kind ∷ os) = bus os
bus (hk_packet hk ∷ os) = bus os
bus (space_packet p ∷ os) = p ∷ bus os

bus-append : (os more : List Output) → bus (os ++ more) ≡ bus os ++ bus more
bus-append [] more = refl
bus-append (event id kind ∷ os) more = bus-append os more
bus-append (hk_packet hk ∷ os) more = bus-append os more
bus-append (space_packet p ∷ os) more = ap (◌∷◌ p) (bus-append os more)

send_packets-bus : (ps : List (List ℕ)) (a : App) → bus (send_packets ps a).out ≡ bus a.out ++ ps
unfolding send_packets
send_packets-bus [] a = sym (append-nil (bus a.out))
send_packets-bus (p ∷ ps) a =
    send_packets-bus ps (send (space_packet p) a)
    ∙ ap (λ t. t ++ ps) (bus-append a.out (space_packet p ∷ []))
    ∙ append_assoc (bus a.out) (p ∷ []) ps

module _ {W : Type 0} (env : Env W) where
  -- These frames carry these packets, one behind the other: CryptoLib opens each frame, whatever
  -- the world is, to some of the packets, with less than a packet's header behind them.
  pub data Carries : List (List ℕ) → List (List ℕ) → Type 0 where
    nothing : Carries [] []
    opened :
        {f : List ℕ} {fs qs : List (List ℕ)} (ps : List (List ℕ)) (pad : List ℕ)
        → ((w : W) → (env.crypto.process_security f w).0 ≡ env.crypto.crypto_success)
        → ((w : W) → (env.crypto.process_security f w).1 ≡ concat ps ++ pad)
        → All IsPacket ps
        → length pad < 6
        → Carries fs qs
        → Carries (f ∷ fs) (ps ++ qs)

  on_frame-bus :
      (f : List ℕ) (a : App) (w : W)
      → (env.crypto.process_security f w).0 ≡ env.crypto.crypto_success
      → bus (on_frame env f (a, w)).0.out ≡ bus a.out ++ packets (env.crypto.process_security f w).1
  unfolding on_frame
  on_frame-bus f a w good =
      let opens : eq_int status env.crypto.crypto_success ≡ true =
        ap (λ i. eq_int i env.crypto.crypto_success) good ∙ eq_int_refl env.crypto.crypto_success in
      rw opens (
        send_packets-bus (packets (env.crypto.process_security f w).1) told
        ∙ ap (λ t. t ++ packets (env.crypto.process_security f w).1) told_bus)
    where
      status : ℤ
      status = (env.crypto.process_security f w).0

      told : App
      told =
          if eq_int status env.crypto.managed_parameters_not_found
          then send (event Eid.req_data_err error) a
          else a

      told_bus : bus told.out ≡ bus a.out
      told_bus = elim (Bool-cases (eq_int status env.crypto.managed_parameters_not_found)) [
        | inl on ↦
            rw (on, told)
              (bus-append a.out (event Eid.req_data_err error ∷ []) ∙ append-nil (bus a.out))
        | inr off ↦ rw (off, told) refl
      ]

  Handles-bus :
      {fs ps : List (List ℕ)} {s t : App × W}
      → Handles env fs s t
      → Carries fs ps
      → bus t.0.out ≡ bus s.0.out ++ ps
  Handles-bus {s = s} done nothing = sym (append-nil (bus s.0.out))
  Handles-bus (frame {f = f} {s = s} h) (opened {qs = qs} ps pad good payload whole short c) =
      Handles-bus h c
      ∙ ap (λ t. t ++ qs)
          (on_frame-bus f s.0 s.1 (good s.1)
            ∙ ap (λ pdu. bus s.0.out ++ packets pdu) (payload s.1)
            ∙ ap (λ t. bus s.0.out ++ t) (packets-concat ps pad whole short))
      ∙ append_assoc (bus s.0.out) ps qs
  Handles-bus (receive buf n w' h) c = Handles-bus h c

  module _ (spi : Spi) (sent : List ℕ → W → ℤ) (sim : W → Sim) (seen : W → ℕ)
      (link : IsLink env.cfg env.hw spi sent sim seen) (apart : IsApart env sim seen)
      (due : ℕ → ℕ → Bool) (deliver : List ℕ → W → W) (tick : ℕ → W → W)
      (air : IsAir env.cfg sent due sim seen deliver tick) where
    abbrev waits : W → List ℕ
    waits w = on_radio env spi sent sim seen link apart due deliver tick air w

    -- Where a partial frame and nothing behind it is left, no frame is.
    drained :
        (behind : List (List ℕ)) (left on_way rest : List ℕ)
        → All IsFrame behind
        → IsPartial left
        → length on_way ≡ 0
        → left ++ on_way ≡ concat behind ++ rest
        → (behind ≡ []) × (left ≡ rest) × (on_way ≡ [])
    drained behind left [] rest fs p none_left e =
        let whole : left ≡ concat behind ++ rest = sym (append-nil left) ∙ e in
        let no_frames = no_frame_partial env behind rest fs (subst IsPartial whole p) in
        (no_frames, whole ∙ ap (λ gs. concat gs ++ rest) no_frames, refl)
    drained behind left (x ∷ on_way) rest fs p none_left e = absurd (omega arith)

    -- A poll with attempts enough handles what is left.
    last_poll :
        (frames : List (List ℕ)) (rest : List ℕ) (s : App × W) (a : App) (w : W)
        → Delivered env spi sent sim seen link apart due deliver tick air frames rest s (a, w)
        → All IsFrame frames
        → IsPartial rest
        → length (waits w) ≤ env.cfg.max_rx_msgs_per_poll
        → let (a', w') = service_uplink env (a, w) in
          Handles env frames s (a', w') × (pending a' ≡ rest) × (waits w' ≡ [])
    last_poll frames rest s a w d fs p enough =
        let (_, fs₂) = All-split env d.before d.behind (subst (All IsFrame) d.frames_eq fs) in
        let r = d.ready in
        let q =
          service_uplink-Polled env spi sent sim seen link apart d.behind rest a w r.buffer
            r.partial r.handle r.idle fs₂ p d.stream in
        let (_, fs₃) = All-split env q.before q.behind (subst (All IsFrame) q.frames_eq fs₂) in
        let (no_frames, left, none_left) =
          drained q.behind (pending (service_uplink env (a, w)).0)
            (waits (service_uplink env (a, w)).1) rest fs₃ q.partial
            (omega (arith, q.progress, enough)) q.stream in
        let all : d.before ++ q.before ≡ frames =
          ap (λ gs. d.before ++ gs)
            (sym (append-nil q.before)
              ∙ ap (λ gs. q.before ++ gs) (sym no_frames)
              ∙ sym q.frames_eq)
          ∙ sym d.frames_eq in
        (
          subst (λ gs. Handles env gs s (service_uplink env (a, w))) all
              (Handles-append env d.handled q.handled),
          left,
          none_left,
        )

    -- If the application and the radio are ready, and the bytes that wait in the application,
    -- then in the radio, and then what the radio takes of the datagrams to come are whole
    -- transfer frames and then a partial one, and CryptoLib opens these frames to command
    -- packets, then after any order of datagrams, ticks and polls, one more poll that may take
    -- the bytes that are left one at a time has put exactly these packets on the software bus,
    -- each once and in order, behind those that were there; the application keeps the partial
    -- frame, and nothing waits in the radio.
    pub Steps-bus :
        {ds : List (List ℕ)} (frames packets_sent : List (List ℕ)) (rest : List ℕ) {a : App} {w : W}
        {t : App × W}
        → Steps env spi sent sim seen link apart due deliver tick air ds (a, w) t
        → IsReady env spi sent sim seen link apart due deliver tick air a w
        → All IsFrame frames
        → Carries frames packets_sent
        → IsPartial rest
        → pending a ++ (waits w ++ concat ds) ≡ concat frames ++ rest
        → length (waits t.1) ≤ env.cfg.max_rx_msgs_per_poll
        → let (a', w') = service_uplink env t in
          (bus a'.out ≡ bus a.out ++ packets_sent) × (pending a' ≡ rest) × (waits w' ≡ [])
    Steps-bus frames packets_sent rest {a = a} {w = w} {t = t} steps r fs c p e enough =
        let d =
          Steps-Delivered env spi sent sim seen link apart due deliver tick air frames rest steps r
            fs p e in
        let (handled, left, none_left) = last_poll frames rest (a, w) t.0 t.1 d fs p enough in
        (Handles-bus handled c, left, none_left)
