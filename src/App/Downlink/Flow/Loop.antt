-- ===== src/App/Downlink/Flow/Loop.antt =====
-- The packets through the inner loop of RADIO_ServiceDownlink in src/radio_app.c.
use tryspace_comp_radio.Base.{
  ℕ, zero, suc, ◌+◌, ◌≤◌, ◌<◌, ◌≡◌, refl, sym, ap, ◌∙◌, subst, inl, inr, true, List, [], ◌∷◌, ◌++◌,
  arith, length, Bool-cases, ltb, ltb→lt, lt→ltb, append_assoc, append-nil, length-append,
}
use tryspace_comp_radio.Env.{Env}
use tryspace_comp_radio.App.Downlink.{Down, fill_once, fill_frame}
use tryspace_comp_radio.App.Downlink.Laws.{DownlinkSide}
use tryspace_comp_radio.App.Downlink.Flow.{max_tx, stock, Filled, Full, Begun}
use tryspace_comp_radio.App.Downlink.Flow.Turn.{fill_once-Filled}

module _ {W : Type 0} (env : Env W) (side : DownlinkSide env) where
  open side use {sim, seen, queue, Holds, tm, pipe, framing}

  nothing_behind : (xs ys : List (List ℕ)) → xs ++ ys ≡ [] → ys ≡ []
  nothing_behind [] ys e = e
  nothing_behind (x ∷ xs) ys e = absurd (omega (arith, ap length e))

  Filled-trans :
      (ps : List (List ℕ)) (d d₁ d₂ : Down W) (f : Filled env side ps d d₁)
      → Filled env side (ps ++ f.added) d₁ d₂
      → Filled env side ps d d₂
  Filled-trans ps d d₁ d₂ f g = record {
    added = f.added ++ g.added;
    holds = subst (λ qs. Holds qs d₂.app.frame_info) (append_assoc ps f.added g.added) g.holds;
    ready = g.ready;
    taken =
        f.taken
        ∙ ap (λ qs. f.added ++ qs) g.taken
        ∙ sym (append_assoc f.added g.added (stock env side d₂));
    within = elim f.counted [
      | inl more ↦ omega (arith, both, more, g.within)
      | inr ended ↦ omega (arith, both, ended.0, g.within, f.within)
    ];
    counted = elim f.counted [
      | inl more ↦ elim g.counted [
        | inl again ↦ inl (omega (arith, both, more, again))
        | inr ended ↦ inr ended
      ]
      | inr ended ↦
          let over = nothing_behind g.added (stock env side d₂) (sym g.taken ∙ ended.1) in
          inr (
            elim g.counted [
              | inl again ↦ omega (arith, again, ended.0, g.within)
              | inr last ↦ last.0
            ],
            over,
          )
    ];
    radio = g.radio ∙ f.radio;
    replies = g.replies ∙ f.replies;
    same = record { handle = g.same.handle ∙ f.same.handle; cadu = g.same.cadu ∙ f.same.cadu };
  }
    where
      both : length (f.added ++ g.added) ≡ length f.added + length g.added
      both = length-append f.added g.added

  Filled-none :
      (ps : List (List ℕ)) (d : Down W)
      → d.app.frame_info.is_ready ≡ true
      → Holds ps d.app.frame_info
      → d.pkt_count ≤ max_tx env side
      → Filled env side ps d d
  Filled-none ps d ready holds le = record {
    added = [];
    holds = subst (λ qs. Holds qs d.app.frame_info) (sym (append-nil ps)) holds;
    ready = ready;
    taken = refl;
    within = omega (arith, le);
    counted = inl (omega arith);
    radio = refl;
    replies = refl;
    same = record { handle = refl; cadu = refl };
  }

  -- A turn of the inner loop that is made, in front of what the turns behind it do.
  fill_turn :
      (turns : ℕ) (ps : List (List ℕ)) (d : Down W)
      → Begun env side ps d
      → d.pkt_count < max_tx env side
      → ((f : Filled env side ps d (fill_once env d).1)
          → (fill_once env d).1.pkt_len ≡ 0
          → (fill_once env d).1.pkt_count ≡ suc d.pkt_count
          → Filled env side
              (ps ++ f.added)
              (fill_once env d).1
              (fill_frame env turns (fill_once env d).1)
            × Full env side (fill_frame env turns (fill_once env d).1))
      → Filled env side ps d (fill_frame env (suc turns) d)
        × Full env side (fill_frame env (suc turns) d)
  unfolding fill_frame
  fill_turn turns ps d begun less later =
      let (f, decided) = fill_once-Filled env side ps d begun less in
      elim decided [
        | inl on ↦
            let (g, full) = later f (on.1) (on.2) in
            rw (lt→ltb d.pkt_count (max_tx env side) less, on.0) (Filled-trans ps d _ _ f g, full)
        | inr off ↦ rw (lt→ltb d.pkt_count (max_tx env side) less, off.0) (f, off.1)
      ]

  -- The inner loop from a frame that is ready, with no packet waiting.
  fill_frame-ready :
      (turns : ℕ) (ps : List (List ℕ)) (d : Down W)
      → d.app.frame_info.is_ready ≡ true
      → Holds ps d.app.frame_info
      → d.pkt_len ≡ 0
      → d.pkt_count ≤ max_tx env side
      → max_tx env side ≤ d.pkt_count + turns
      → Filled env side ps d (fill_frame env turns d) × Full env side (fill_frame env turns d)
  unfolding fill_frame
  fill_frame-ready zero ps d ready holds idle le h =
      (Filled-none ps d ready holds le, inl (omega arith, idle))
  fill_frame-ready (suc turns) ps d ready holds idle le h =
      elim (Bool-cases (ltb d.pkt_count (max_tx env side))) [
        | inr over ↦ rw over (Filled-none ps d ready holds le, inl (ground arith, idle))
        | inl more ↦
            fill_turn turns ps d (inl (ready, holds, idle))
              (ltb→lt d.pkt_count (max_tx env side) more)
              (λ f waits count.
                fill_frame-ready turns (ps ++ f.added) (fill_once env d).1 f.ready f.holds waits
                  (omega (arith, count, ltb→lt d.pkt_count (max_tx env side) more))
                  (omega (arith, count)))
      ]

  -- The inner loop from a frame to be filled.
  pub fill_frame-Filled :
      (turns : ℕ) (ps : List (List ℕ)) (d : Down W)
      → Begun env side ps d
      → d.pkt_count < max_tx env side
      → max_tx env side ≤ d.pkt_count + turns
      → Filled env side ps d (fill_frame env turns d) × Full env side (fill_frame env turns d)
  fill_frame-Filled zero ps d begun less h = absurd (omega arith)
  fill_frame-Filled (suc turns) ps d begun less h =
      fill_turn turns ps d begun less (λ f waits count.
        fill_frame-ready turns (ps ++ f.added) (fill_once env d).1 f.ready f.holds waits
          (omega (arith, count)) (omega (arith, count)))
