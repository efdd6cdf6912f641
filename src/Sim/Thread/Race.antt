-- ===== src/Sim/Thread/Race.antt =====
-- udp_ground_thread in sim/radio_sim.c tests the power before it takes the mutex, and the tick of the
-- other thread writes the power without it.
use tryspace_comp_radio.Base.{
  ℕ, ◌-◌, ◌≡◌, refl, sym, ap, ◌∙◌, subst, Bool, true, false, none, some, List, [], ◌∷◌, arith,
  length, take, ◌==◌, ◌<◌, ◌++◌, inl, inr, Bool-cases, pos, add32,
}
use tryspace_comp_radio.Hardware.{DeviceConfig}
use tryspace_comp_radio.Sim.Ring.{Ring, IsRing, rx_count, write_to_rx}
use tryspace_comp_radio.Sim.Ring.Fifo.{contents}
use tryspace_comp_radio.Sim.Ring.Queue.{write_to_rx_lem}
use tryspace_comp_radio.Sim.State.{Sim, update_interrupt}
use tryspace_comp_radio.Sim.Tick.{hears, on_tick, on_power_gpio, set_power}
use tryspace_comp_radio.Sim.Thread.{Tick, datagram, on_woken, after_ticks}

-- A tick in which the power is switched off, and no more.
abbrev pub power_off_tick : DeviceConfig → ℕ → Tick
power_off_tick cfg time = record {
  sent = pos 0;
  time = time;
  spi_bytes = none;
  power_bytes = some (1 ∷ cfg.gpio_power_pin ∷ 0 ∷ []);
  interrupt_bytes = none;
}

hears-on : (bytes : List ℕ) (s : Sim) → hears bytes s ≡ true → (s.power_value == 0) ≡ false
hears-on bytes s heard = ground (arith, heard)

module _ (cfg : DeviceConfig) (due : ℕ → ℕ → Bool) where
  update_interrupt-kept :
      (s : Sim)
      → ((update_interrupt cfg s).rx ≡ s.rx)
        × ((update_interrupt cfg s).power_value ≡ s.power_value)
  unfolding update_interrupt
  update_interrupt-kept s = (ground arith, ground arith)

  -- The receive buffer is emptied, and there is no power.
  abbrev Off : Sim → Sim → Type 0
  Off s s' = (s'.power_value ≡ 0) × (s'.rx ≡ record (s.rx) { head = 0; tail = 0 })

  on_power_gpio-Off :
      (s : Sim)
      → (s.power_value == 0) ≡ false
      → Off s (on_power_gpio cfg (1 ∷ cfg.gpio_power_pin ∷ 0 ∷ []) s)
  unfolding on_power_gpio set_power
  on_power_gpio-Off s on =
      let pin : (cfg.gpio_power_pin == cfg.gpio_power_pin) ≡ true = ground arith in
      let changed : (0 == s.power_value) ≡ false = ground (arith, on) in
      rw pin (rw changed (refl, refl))

  after_ticks-Off :
      (time : ℕ) (s : Sim)
      → (s.power_value == 0) ≡ false
      → Off s (after_ticks cfg due (power_off_tick cfg time ∷ []) s)
  unfolding after_ticks on_tick
  after_ticks-Off time s on =
      let counted : Sim = record s { tick_counter = add32 s.tick_counter 1 } in
      let timed : Sim = record counted { last_update_time = time } in
      let (rx, power) = update_interrupt-kept timed in
      elim (Bool-cases (due time s.last_update_time)) [
        | inr later ↦ rw later (on_power_gpio-Off counted on)
        | inl now ↦
            let (off, cleared) =
              on_power_gpio-Off (update_interrupt cfg timed) (ap (λ v. v == 0) power ∙ on) in
            rw now (off, cleared ∙ ap (λ (r : Ring). record r { head = 0; tail = 0 }) rx)
      ]

  contents-empty : (r : Ring) → contents cfg.buffer_size (record r { head = 0; tail = 0 }) ≡ []
  unfolding contents rx_count
  contents-empty r = refl

  -- If the ground thread found the power on and the mode one that receives, and a tick switches
  -- the power off before the thread takes the mutex, then the first bytes of the datagram, as
  -- many as the empty buffer holds, wait in a radio without power.
  pub on_woken-unpowered :
      (time : ℕ) (bytes : List ℕ) (s : Sim)
      → IsRing cfg.buffer_size s.rx
      → hears bytes s ≡ true
      → let s' = (on_woken cfg due (datagram bytes (power_off_tick cfg time ∷ [])) s).1 in
        (s'.power_value ≡ 0) × (contents cfg.buffer_size s'.rx ≡ take (cfg.buffer_size - 1) bytes)
  unfolding on_woken
  on_woken-unpowered time bytes s v heard =
      let off = after_ticks cfg due (power_off_tick cfg time ∷ []) s in
      let (power, cleared) = after_ticks-Off time s (hears-on bytes s heard) in
      let (rx, same) = update_interrupt-kept (record off {
        rx = (write_to_rx cfg.buffer_size off.rx bytes).1;
        bytes_received = add32 off.bytes_received (length bytes);
      }) in
      let start : 0 < cfg.buffer_size = omega (arith, v.head_in) in
      let v₁ : IsRing cfg.buffer_size off.rx =
        subst (IsRing cfg.buffer_size) (sym cleared)
          (record { length_buf = v.length_buf; head_in = start; tail_in = start }) in
      let empty : contents cfg.buffer_size off.rx ≡ [] =
        ap (contents cfg.buffer_size) cleared ∙ contents-empty s.rx in
      rw heard (
        same ∙ power,
        ap (contents cfg.buffer_size) rx
            ∙ (write_to_rx_lem cfg.buffer_size off.rx bytes v₁).1
            ∙ ap (λ q. q ++ take (cfg.buffer_size - 1 - length q) bytes) empty
            ∙ ap (λ k. take k bytes) (omega arith),
      )
