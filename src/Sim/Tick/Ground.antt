-- ===== src/Sim/Tick/Ground.antt =====
-- A datagram from the ground station, and a tick without a command, for a sound radio with power
-- that receives.
use tryspace_comp_radio.Base.{
  ℕ, ◌-◌, ◌<◌, ◌≡◌, refl, ap, ◌∙◌, sym, inl, inr, Bool, true, none, List, [], ◌∷◌, ◌++◌, arith, ℤ,
  Bool-cases, ltb, ◌==◌, ◌||◌, not, add32, length, take, append-nil, take_ge,
}
use tryspace_comp_radio.Hardware.{DeviceConfig}
use tryspace_comp_radio.Device.{mode_rx, mode_duplex}
use tryspace_comp_radio.Sim.Ring.{write_to_rx}
use tryspace_comp_radio.Sim.Ring.Fifo.{contents}
use tryspace_comp_radio.Sim.Ring.Queue.{write_to_rx_lem}
use tryspace_comp_radio.Sim.State.{Sim, update_interrupt}
use tryspace_comp_radio.Sim.Tick.{on_ground, on_tick}
use tryspace_comp_radio.Sim.Tick.Invariant.{IsSim, update_interrupt-IsSim}

-- The mode is one in which datagrams from the ground are kept.
abbrev pub receives : Sim → Bool
receives s = s.config.mode == mode_rx || s.config.mode == mode_duplex

module _ (cfg : DeviceConfig) where
  abbrev waiting : Sim → List ℕ
  waiting s = contents cfg.buffer_size s.rx

  -- What of a datagram there is room for.
  abbrev pub accepted : List ℕ → Sim → List ℕ
  accepted bytes s = take (cfg.buffer_size - 1 - length (waiting s)) bytes

  -- These bytes were put behind those that wait; the replies, the power and the configuration
  -- are as before.
  pub record Heard (bytes : List ℕ) (s s' : Sim) : Type 0 where
    pub waiting_eq : waiting s' ≡ waiting s ++ bytes
    pub replies : s'.spi_out ≡ s.spi_out
    pub power : s'.power_value ≡ s.power_value
    pub config : s'.config ≡ s.config
    pub sound : IsSim cfg s'

  update_interrupt-Heard :
      (bytes : List ℕ) (s s' : Sim) → Heard bytes s s' → Heard bytes s (update_interrupt cfg s')
  unfolding update_interrupt
  update_interrupt-Heard bytes s s' h = record {
    waiting_eq = ap (contents cfg.buffer_size) (ground arith) ∙ h.waiting_eq;
    replies = ground (arith, h.replies);
    power = ground (arith, h.power);
    config = ground (arith, h.config);
    sound = update_interrupt-IsSim cfg s' h.sound;
  }

  -- A datagram is put behind the bytes that wait, as far as there is room.
  pub on_ground-Heard :
      (bytes : List ℕ) (s : Sim)
      → IsSim cfg s
      → 0 < s.power_value
      → receives s ≡ true
      → Heard (accepted bytes s) s (on_ground cfg bytes s)
  unfolding on_ground
  on_ground-Heard [] s v on mode = record {
    waiting_eq =
        sym (append-nil (waiting s))
        ∙ ap (λ t. waiting s ++ t)
            (sym (take_ge (cfg.buffer_size - 1 - length (waiting s)) [] (omega arith)));
    replies = refl;
    power = refl;
    config = refl;
    sound = v;
  }
  on_ground-Heard (b ∷ bytes) s v on mode =
      let written = write_to_rx_lem cfg.buffer_size s.rx (b ∷ bytes) v.ring in
      let powered : not (s.power_value == 0) ≡ true = ground arith in
      let some_bytes : ltb 0 (length (b ∷ bytes)) ≡ true = ground arith in
      rw (some_bytes, powered, mode)
        (update_interrupt-Heard (accepted (b ∷ bytes) s) s
          (record s {
            rx = (write_to_rx cfg.buffer_size s.rx (b ∷ bytes)).1;
            bytes_received = add32 s.bytes_received (length (b ∷ bytes));
          })
          (record {
            waiting_eq = written.1;
            replies = refl;
            power = refl;
            config = refl;
            sound = record { ring = written.0; off = inl on };
          }))

  -- A tick on which no command and nothing on the GPIO pins arrives.
  pub on_tick-Heard :
      (due : ℕ → ℕ → Bool) (sent : ℤ) (time : ℕ) (s : Sim)
      → IsSim cfg s
      → Heard [] s (on_tick cfg due sent time none none none s)
  unfolding on_tick
  on_tick-Heard due sent time s v = elim (Bool-cases (due time s.last_update_time)) [
    | inl now ↦ rw now (update_interrupt-Heard [] s _ (counted time))
    | inr later ↦ rw later (counted s.last_update_time)
  ]
    where
      counted :
          (last : ℕ)
          → Heard [] s (record s { tick_counter = add32 s.tick_counter 1; last_update_time = last })
      counted last = record {
        waiting_eq = sym (append-nil (waiting s));
        replies = refl;
        power = refl;
        config = refl;
        sound = record { ring = v.ring; off = v.off };
      }
