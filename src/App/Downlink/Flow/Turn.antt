-- ===== src/App/Downlink/Flow/Turn.antt =====
-- A turn of the inner loop of RADIO_ServiceDownlink in src/radio_app.c.
use tryspace_comp_radio.Base.{
  ℕ, ◌<◌, ◌≡◌, refl, sym, ap, ◌∙◌, subst, ◌⊎◌, inl, inr, Bool, true, false, none, some, Option,
  List, [], ◌∷◌, arith, ◌==◌, if◌then◌else◌, eq_int, eq_int_refl, append-nil,
}
use tryspace_comp_radio.Env.{Env}
use tryspace_comp_radio.App.Downlink.{Down, next_packet, ready_frame, put_packet, fill_once}
use tryspace_comp_radio.App.Downlink.Laws.{DownlinkSide}
use tryspace_comp_radio.App.Downlink.Flow.{max_tx, Filled, Decided, put_packet-Filled, Begun}

module _ {W : Type 0} (env : Env W) (side : DownlinkSide env) where
  open side use {sim, seen, queue, Holds, tm, pipe, framing}

  List-cases :
      (xs : List (List ℕ)) → (xs ≡ []) ⊎ ((x : List ℕ) × (ys : List (List ℕ)) × (xs ≡ x ∷ ys))
  List-cases [] = inl refl
  List-cases (x ∷ xs) = inr (x, xs, refl)

  next_packet-empty : (d : Down W) → d.pkt_len ≡ 0 → queue d.world ≡ [] → next_packet env d ≡ none
  unfolding next_packet
  next_packet-empty d idle e =
      let test : (d.pkt_len == 0) ≡ true = ground arith in
      rw (test, pipe.empty d.world e, next_packet) refl

  next_packet-packet :
      (d : Down W) (p : List ℕ) (qs : List (List ℕ))
      → d.pkt_len ≡ 0
      → queue d.world ≡ p ∷ qs
      → next_packet env d
        ≡ some (record d { packet = p; world = (env.cfe.poll_downlink d.world).1 })
  unfolding next_packet
  next_packet-packet d p qs idle e =
      let test : (d.pkt_len == 0) ≡ true = ground arith in
      rw (test, pipe.next d.world p qs e, next_packet) refl

  next_packet-held : (d : Down W) → 0 < d.pkt_len → next_packet env d ≡ some d
  unfolding next_packet
  next_packet-held d h = let test : (d.pkt_len == 0) ≡ false = ground arith in rw test refl

  ready_frame-on : (d : Down W) → d.app.frame_info.is_ready ≡ true → ready_frame env d ≡ (true, d)
  unfolding ready_frame
  ready_frame-on d ready = rw ready refl

  abbrev started : Down W → Down W
  started d =
      let (_, info, w) = env.tm.start_frame d.app.frame_info d.world in
      record d { app = record (d.app) { frame_info = info }; world = w }

  ready_frame-off :
      (d : Down W) → d.app.frame_info.is_ready ≡ false → ready_frame env d ≡ (true, started d)
  unfolding ready_frame
  ready_frame-off d unready =
      let good : eq_int (env.tm.start_frame d.app.frame_info d.world).0 env.tm.sdlp_success ≡ true =
        ap (λ s. eq_int s env.tm.sdlp_success) (tm.framer.starts d.app.frame_info d.world)
        ∙ eq_int_refl env.tm.sdlp_success in
      rw (good, unready) refl

  -- A turn in which a packet is there and the frame is ready, or is started.
  fill_once-put :
      (d d₁ d₂ : Down W)
      → next_packet env d ≡ some d₁
      → ready_frame env d₁ ≡ (true, d₂)
      → fill_once env d ≡ put_packet env d₂
  unfolding fill_once
  fill_once-put d d₁ d₂ next ready =
      ap
        (λ (o : Option (Down W)). elim o [
          | none ↦ (
            false,
            record d { pkt_count = max_tx env side; world = (env.cfe.poll_downlink d.world).1 },
          )
          | some x ↦
              if (ready_frame env x).0
              then put_packet env (ready_frame env x).1
              else (false, (ready_frame env x).1)
        ])
        next
      ∙ ap (λ (r : Bool × Down W). if r.0 then put_packet env r.1 else (false, r.1)) ready

  -- A frame that is ready.
  fill_ready :
      (ps : List (List ℕ)) (d : Down W)
      → d.app.frame_info.is_ready ≡ true
      → Holds ps d.app.frame_info
      → d.pkt_len ≡ 0
      → d.pkt_count < max_tx env side
      → let (go_on, d') = fill_once env d in
        Filled env side ps d d' × Decided env side d.pkt_count go_on d'
  unfolding fill_once
  fill_ready ps d ready holds idle less = elim (List-cases (queue d.world)) [
    | inl none_left ↦
        rw (next_packet-empty d idle none_left, fill_once)
          (
            record {
              added = [];
              holds = subst (λ qs. Holds qs d.app.frame_info) (sym (append-nil ps)) holds;
              ready = ready;
              taken = rw test (none_left ∙ sym (pipe.still d.world none_left));
              within = omega (arith, less);
              counted = inr (refl, rw test (pipe.still d.world none_left));
              radio = pipe.radio d.world;
              replies = pipe.replies d.world;
              same = record { handle = refl; cadu = refl };
            },
            inr (refl, inl (omega arith, idle)),
          )
    | inr (p, qs, e) ↦
        let d₁ : Down W = record d { packet = p; world = (env.cfe.poll_downlink d.world).1 } in
        subst
          (λ (r : Bool × Down W). Filled env side ps d r.1 × Decided env side d.pkt_count r.0 r.1)
          (sym (fill_once-put d d₁ d₁ (next_packet-packet d p qs idle e) (ready_frame-on d₁ ready)))
          (put_packet-Filled env side ps d d₁ holds ready
            (record {
              stocked = rw test (e ∙ ap (◌∷◌ p) (sym (pipe.others d.world p qs e)));
              count = refl;
              radio = pipe.radio d.world;
              replies = pipe.replies d.world;
              same = record { handle = refl; cadu = refl };
            })
            less)
  ]
    where
      test : (d.pkt_len == 0) ≡ true
      test = ground arith

  -- A frame that is to be started for the packet that waits.
  fill_fresh :
      (d : Down W)
      → d.app.frame_info.is_ready ≡ false
      → 0 < d.pkt_len
      → d.pkt_count < max_tx env side
      → let (go_on, d') = fill_once env d in
        Filled env side [] d d' × Decided env side d.pkt_count go_on d'
  fill_fresh d unready waits less =
      let quiet = framing.quiet_start d.app.frame_info d.world in
      let test : (d.pkt_len == 0) ≡ false = ground arith in
      subst (λ (r : Bool × Down W). Filled env side [] d r.1 × Decided env side d.pkt_count r.0 r.1)
        (sym (fill_once-put d d (started d) (next_packet-held d waits) (ready_frame-off d unready)))
        (put_packet-Filled env side [] d (started d) (framing.start d.app.frame_info d.world)
          (framing.ready d.app.frame_info d.world)
          (record {
            stocked = rw test (ap (◌∷◌ d.packet) (sym quiet.pipe));
            count = refl;
            radio = quiet.radio;
            replies = quiet.replies;
            same = record { handle = refl; cadu = refl };
          })
          less)

  pub fill_once-Filled :
      (ps : List (List ℕ)) (d : Down W)
      → Begun env side ps d
      → d.pkt_count < max_tx env side
      → let (go_on, d') = fill_once env d in
        Filled env side ps d d' × Decided env side d.pkt_count go_on d'
  fill_once-Filled ps d (inl (ready, holds, idle)) less = fill_ready ps d ready holds idle less
  fill_once-Filled ps d (inr (unready, e, waits)) less =
      subst
        (λ qs.
          let (go_on, d') = fill_once env d in
          Filled env side qs d d' × Decided env side d.pkt_count go_on d')
        (sym e) (fill_fresh d unready waits less)
