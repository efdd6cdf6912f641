-- ===== src/App/Downlink/Flow.antt =====
-- The packets through a turn of RADIO_ServiceDownlink in src/radio_app.c: what is in the stock, and what
-- goes into the frame.
pub mod Turn
pub mod Loop
use tryspace_comp_radio.Base.{
  ℕ, zero, suc, ◌+◌, ◌≤◌, ◌<◌, ◌≡◌, refl, sym, ap, ◌∙◌, subst, ◌⊎◌, inl, inr, Bool, true, false,
  none, some, Option, List, [], ◌∷◌, ◌++◌, arith, length, Bool-cases, Option-cases, ltb, ltb→lt,
  lt→ltb, ◌==◌, if◌then◌else◌, eq_int, eq_int_refl, is_negative, append_assoc, append-nil,
  length-append,
}
use tryspace_comp_radio.Hardware.{Spi}
use tryspace_comp_radio.Env.{Env, FrameInfo}
use tryspace_comp_radio.Sim.State.{Sim}
use tryspace_comp_radio.App.State.{App}
use tryspace_comp_radio.App.Downlink.{
  Down, next_packet, ready_frame, put_packet, fill_once, fill_frame,
}
use tryspace_comp_radio.App.Downlink.Filled.{IsTm}
use tryspace_comp_radio.App.Downlink.Laws.{DownlinkSide}

module _ {W : Type 0} (env : Env W) (side : DownlinkSide env) where
  open side use {sim, seen, queue, Holds, tm, pipe, framing}

  abbrev pub max_tx : ℕ
  max_tx = env.cfg.max_tx_msgs_per_poll

  -- The packet that waits, if one does, and those on the pipe.
  abbrev pub stock : Down W → List (List ℕ)
  stock d = if d.pkt_len == 0 then queue d.world else d.packet ∷ queue d.world

  -- The parts of the application that sending a frame depends on.
  pub record IsSame (a b : App) : Type 0 where
    pub handle : b.spi ≡ a.spi
    pub cadu : b.cadu_buffer ≡ a.cadu_buffer

  -- What filling a frame, or a turn of it, does: some packets go from the stock into the frame.
  pub record Filled (ps : List (List ℕ)) (d d' : Down W) : Type 0 where
    pub added : List (List ℕ)
    pub holds : Holds (ps ++ added) d'.app.frame_info
    pub ready : d'.app.frame_info.is_ready ≡ true
    pub taken : stock d ≡ added ++ stock d'
    pub within : d.pkt_count + length added ≤ max_tx
    pub counted :
        (d'.pkt_count ≡ d.pkt_count + length added) ⊎ ((d'.pkt_count ≡ max_tx) × (stock d' ≡ []))
    pub radio : sim d'.world ≡ sim d.world
    pub replies : seen d'.world ≡ seen d.world
    pub same : IsSame d.app d'.app

  -- A frame is full: the limit is reached with no packet waiting, or a packet waits.
  abbrev pub Full : Down W → Type 0
  Full d = ((max_tx ≤ d.pkt_count) × (d.pkt_len ≡ 0)) ⊎ ((d.pkt_count < max_tx) × (0 < d.pkt_len))

  -- A packet was read since the first of two states, or waits there.
  pub record Read (d₀ d : Down W) : Type 0 where
    pub stocked : stock d₀ ≡ d.packet ∷ queue d.world
    pub count : d.pkt_count ≡ d₀.pkt_count
    pub radio : sim d.world ≡ sim d₀.world
    pub replies : seen d.world ≡ seen d₀.world
    pub same : IsSame d₀.app d.app

  -- What a turn that began with a count of packets decides: it goes on with one packet more and
  -- none waiting, or the frame is full.
  abbrev pub Decided : ℕ → Bool → Down W → Type 0
  Decided n go_on d =
      ((go_on ≡ true) × (d.pkt_len ≡ 0) × (d.pkt_count ≡ suc n)) ⊎ ((go_on ≡ false) × Full d)

  pub put_packet-Filled :
      (ps : List (List ℕ)) (d₀ d : Down W)
      → Holds ps d.app.frame_info
      → d.app.frame_info.is_ready ≡ true
      → Read d₀ d
      → d₀.pkt_count < max_tx
      → let (go_on, d') = put_packet env d in Filled ps d₀ d' × Decided d₀.pkt_count go_on d'
  unfolding put_packet
  put_packet-Filled ps d₀ d holds ready r less =
      elim (Bool-cases (ltb size d.app.frame_info.free_octets)) [
        | inl fits ↦
            let good = tm.adds d.app.frame_info d.packet d.world (ltb→lt _ _ fits) in
            let quiet = framing.quiet_add d.app.frame_info d.packet d.world in
            rw (fits, good)
              (
                record {
                  added = d.packet ∷ [];
                  holds = framing.add ps d.app.frame_info d.packet d.world holds (ltb→lt _ _ fits);
                  ready = framing.add_ready d.app.frame_info d.packet d.world ∙ ready;
                  taken = r.stocked ∙ ap (◌∷◌ d.packet) (sym quiet.pipe);
                  within = omega (arith, less);
                  counted = inl (omega (arith, r.count));
                  radio = quiet.radio ∙ r.radio;
                  replies = quiet.replies ∙ r.replies;
                  same = record { handle = r.same.handle; cadu = r.same.cadu };
                },
                inl (refl, refl, omega (arith, r.count)),
              )
        | inr full ↦
            let waits : (size == 0) ≡ false = ground (arith, pipe.sized d.packet) in
            rw full (
              record {
                added = [];
                holds = subst (λ qs. Holds qs d.app.frame_info) (sym (append-nil ps)) holds;
                ready = ready;
                taken = r.stocked ∙ rw waits refl;
                within = omega (arith, less);
                counted = inl (omega (arith, r.count));
                radio = r.radio;
                replies = r.replies;
                same = record { handle = r.same.handle; cadu = r.same.cadu };
              },
              inr (refl, inr (omega (arith, r.count, less), pipe.sized d.packet)),
            )
      ]
    where
      size : ℕ
      size = env.cfe.packet_size d.packet

  -- A frame to be filled: ready with no packet waiting, or to be started with one.
  abbrev pub Begun : List (List ℕ) → Down W → Type 0
  Begun ps d =
      ((d.app.frame_info.is_ready ≡ true) × Holds ps d.app.frame_info × (d.pkt_len ≡ 0))
      ⊎ ((d.app.frame_info.is_ready ≡ false) × (ps ≡ []) × (0 < d.pkt_len))
