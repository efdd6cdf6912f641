-- ===== src/Sim/Tick/Invariant.antt =====
-- What every step of the simulated radio keeps: a tick, a datagram from the ground that no tick
-- interrupts, and a datagram that was tested before a tick.
use tryspace_comp_radio.Base.{
  ℕ, ◌<◌, ◌≡◌, refl, ap, ◌∙◌, sym, subst, ◌⊎◌, inl, inr, Bool, true, false, Option, none, some,
  List, [], arith, ℤ, Bool-cases, ltb, leb, ◌==◌, ◌&&◌, ◌||◌, add32, inc16, not, ◌∷◌, ◌++◌, length,
  if◌then◌else◌, get_or,
}
use tryspace_comp_radio.Hardware.{DeviceConfig}
use tryspace_comp_radio.Device.{
  mode_rx, mode_duplex, noop_cmd, req_hk_cmd, set_cfg_cmd, receive_cmd, send_cmd, device_hdr,
}
use tryspace_comp_radio.Sim.Ring.{Ring, IsRing, write_to_rx}
use tryspace_comp_radio.Sim.Ring.Queue.{write_to_rx_lem, read_from_rx_lem}
use tryspace_comp_radio.Sim.State.{Sim, update_interrupt, send_response, send_housekeeping}
use tryspace_comp_radio.Sim.Command.{
  handle_spi_command, dispatch, on_req_hk, on_set_cfg, on_receive, on_send, after_send,
}
use tryspace_comp_radio.Sim.Tick.{
  on_ground, set_power, on_power_gpio, on_interrupt_gpio, on_spi, on_tick, given,
}

-- The indices lie inside the array, and without power no bytes wait, up to an exception.
pub record IsSound (exception : Type 0) (cfg : DeviceConfig) (s : Sim) : Type 0 where
  pub ring : IsRing cfg.buffer_size s.rx
  pub off : (0 < s.power_value) ⊎ (exception ⊎ (s.rx.head ≡ s.rx.tail))

-- The indices lie inside the array, and without power no bytes wait.
abbrev pub IsSim : DeviceConfig → Sim → Type 0
IsSim cfg s = IsSound ⊥ cfg s

-- A step that leaves the buffer and the power alone.
abbrev pub Same : Sim → Sim → Type 0
Same s s' = (s'.rx ≡ s.rx) × (s'.power_value ≡ s.power_value)

on_send-Same :
    (sent : ℤ) (payload_len : ℕ) (bytes : List ℕ) (s : Sim)
    → Same s (on_send sent payload_len bytes s)
unfolding on_send after_send
on_send-Same sent payload_len bytes s = (ground arith, ground arith)

module _ {exception : Type 0} (cfg : DeviceConfig) where
  pub Same-IsSim : (s s' : Sim) → Same s s' → IsSound exception cfg s → IsSound exception cfg s'
  Same-IsSim s s' same v = record {
    ring = subst (IsRing cfg.buffer_size) (sym (same.0)) v.ring;
    off = elim v.off [
      | inl on ↦ inl (omega (arith, same.1))
      | inr (inl e) ↦ inr (inl e)
      | inr (inr empty) ↦ inr (
          inr
            (ap (λ (r : Ring). r.head) (same.0) ∙ empty ∙ sym (ap (λ (r : Ring). r.tail) (same.0))))
    ];
  }

  either-IsSim :
      (b : Bool) (x y : Sim)
      → IsSound exception cfg x
      → IsSound exception cfg y
      → IsSound exception cfg (if b then x else y)
  either-IsSim true x y u v = u
  either-IsSim false x y u v = v

  pub update_interrupt-IsSim :
      (s : Sim) → IsSound exception cfg s → IsSound exception cfg (update_interrupt cfg s)
  unfolding update_interrupt
  update_interrupt-IsSim s v = Same-IsSim s (update_interrupt cfg s) (ground arith, ground arith) v

  on_interrupt_gpio-IsSim :
      (req : List ℕ) (s : Sim)
      → IsSound exception cfg s
      → IsSound exception cfg (on_interrupt_gpio cfg req s)
  unfolding on_interrupt_gpio
  on_interrupt_gpio-IsSim req s v =
      Same-IsSim s (on_interrupt_gpio cfg req s) (ground arith, ground arith) v

  set_power-IsSim :
      (value : ℕ) (s : Sim) → IsSound exception cfg s → IsSound exception cfg (set_power value s)
  unfolding set_power
  set_power-IsSim value s v =
      let start : 0 < cfg.buffer_size = omega (arith, v.ring.head_in) in
      elim (Bool-cases (value == s.power_value)) [
        | inl same ↦ rw same v
        | inr changed ↦ elim (Bool-cases (value == 0)) [
          | inl zero_ ↦
              rw (changed, zero_)
                (record {
                  ring = record {
                    length_buf = v.ring.length_buf;
                    head_in = start;
                    tail_in = start;
                  };
                  off = inr (inr refl);
                })
          | inr on ↦ rw (changed, on) (record { ring = v.ring; off = inl (ground arith) })
        ]
      ]

  on_power_gpio-IsSim :
      (req : List ℕ) (s : Sim)
      → IsSound exception cfg s
      → IsSound exception cfg (on_power_gpio cfg req s)
  unfolding on_power_gpio
  on_power_gpio-IsSim req s v = either-IsSim (not (leb 2 (length req))) s _ v (
      either-IsSim (not (get_or req 1 0 == cfg.gpio_power_pin)) s _ v (
        either-IsSim (get_or req 0 0 == 0) _ _
          (Same-IsSim s
            (record s {
              power_out = s.power_out ++ ((0 ∷ get_or req 1 0 ∷ s.power_value ∷ []) ∷ []);
            })
            (refl, refl) v)
          (either-IsSim (get_or req 0 0 == 1 && leb 3 (length req)) _ s
            (set_power-IsSim (get_or req 2 0) s v) v)))

  pub on_ground-IsSim :
      (bytes : List ℕ) (s : Sim)
      → IsSound exception cfg s
      → IsSound exception cfg (on_ground cfg bytes s)
  unfolding on_ground
  on_ground-IsSim bytes s v =
      let condition : Bool =
        ltb 0 (length bytes)
        && not (s.power_value == 0)
        && (s.config.mode == mode_rx || s.config.mode == mode_duplex) in
      elim (Bool-cases condition) [
        | inr dropped ↦ rw dropped v
        | inl taken ↦ rw taken (
            update_interrupt-IsSim
              (record s {
                rx = (write_to_rx cfg.buffer_size s.rx bytes).1;
                bytes_received = add32 s.bytes_received (length bytes);
              })
              (record {
                ring = (write_to_rx_lem cfg.buffer_size s.rx bytes v.ring).0;
                off = inl (ground (arith, taken));
              }))
      ]

  on_receive-IsSim :
      (payload_len : ℕ) (bytes : List ℕ) (s : Sim)
      → 0 < s.power_value
      → IsSound exception cfg s
      → IsSound exception cfg (on_receive cfg payload_len bytes s)
  unfolding on_receive send_response
  on_receive-IsSim payload_len bytes s on v = elim (Bool-cases (payload_len == 2)) [
    | inr ignored ↦ rw ignored v
    | inl taken ↦
        rw taken
          (record { ring = (read_from_rx_lem cfg.buffer_size s.rx _ v.ring).0; off = inl on })
  ]

  dispatch-IsSim :
      (sent : ℤ) (command payload_len : ℕ) (bytes : List ℕ) (s : Sim)
      → 0 < s.power_value
      → IsSound exception cfg s
      → IsSound exception cfg (dispatch cfg sent command payload_len bytes s)
  unfolding dispatch on_req_hk send_housekeeping send_response on_set_cfg
  dispatch-IsSim sent command payload_len bytes s on v = counted _ (
      either-IsSim (command == noop_cmd) s _ v (
        either-IsSim (command == req_hk_cmd) (on_req_hk cfg s) _
          (Same-IsSim s (on_req_hk cfg s) (refl, refl) v)
          (either-IsSim (command == set_cfg_cmd) (on_set_cfg payload_len bytes s) _
            (Same-IsSim s (on_set_cfg payload_len bytes s) (ground arith, ground arith) v)
            (either-IsSim (command == receive_cmd) (on_receive cfg payload_len bytes s) _
              (on_receive-IsSim payload_len bytes s on v)
              (either-IsSim (command == send_cmd) (on_send sent payload_len bytes s) s
                (Same-IsSim s (on_send sent payload_len bytes s)
                  (on_send-Same sent payload_len bytes s) v)
                v)))))
    where
      counted :
          (t : Sim)
          → IsSound exception cfg t
          → IsSound exception cfg
              (record t { hk = record (t.hk) { command_counter = inc16 t.hk.command_counter } })
      counted t u = record { ring = u.ring; off = u.off }

  pub handle_spi_command-IsSim :
      (sent : ℤ) (bytes : List ℕ) (s : Sim)
      → 0 < s.power_value
      → IsSound exception cfg s
      → IsSound exception cfg (handle_spi_command cfg sent bytes s)
  unfolding handle_spi_command
  handle_spi_command-IsSim sent bytes s on v = either-IsSim _ s _ v (
      either-IsSim (s.power_value == 0) s _ v (
        either-IsSim (not (get_or bytes 0 0 == device_hdr)) s _ v (
          either-IsSim _ s _ v
            (either-IsSim _ s _ v (dispatch-IsSim sent (get_or bytes 1 0) _ bytes s on v)))))

  on_spi-IsSim :
      (sent : ℤ) (bytes : List ℕ) (s : Sim)
      → IsSound exception cfg s
      → IsSound exception cfg (on_spi cfg sent bytes s)
  unfolding on_spi
  on_spi-IsSim sent bytes s v = elim (Bool-cases (s.power_value == 0)) [
    | inl off ↦ rw off v
    | inr on ↦ rw on (handle_spi_command-IsSim sent bytes s (ground arith) v)
  ]

  given-IsSim :
      (handle : List ℕ → Sim → Sim) (delivered : Option (List ℕ)) (s : Sim)
      → ((bytes : List ℕ) (t : Sim)
          → IsSound exception cfg t
          → IsSound exception cfg (handle bytes t))
      → IsSound exception cfg s
      → IsSound exception cfg (given handle delivered s)
  given-IsSim handle none s h v = v
  given-IsSim handle (some bytes) s h v = h bytes s v

  pub on_tick-IsSim :
      (due : ℕ → ℕ → Bool) (sent : ℤ) (time : ℕ) (spi power interrupt : Option (List ℕ)) (s : Sim)
      → IsSound exception cfg s
      → IsSound exception cfg (on_tick cfg due sent time spi power interrupt s)
  unfolding on_tick
  on_tick-IsSim due sent time spi power interrupt s v =
      let counted : Sim = record s { tick_counter = add32 s.tick_counter 1 } in
      let u : IsSound exception cfg counted = record { ring = v.ring; off = v.off } in
      given-IsSim (on_interrupt_gpio cfg) interrupt _ on_interrupt_gpio-IsSim (
        given-IsSim (on_power_gpio cfg) power _ on_power_gpio-IsSim (
          given-IsSim (on_spi cfg sent) spi _ (on_spi-IsSim sent) (
            either-IsSim (due time s.last_update_time) _ counted
              (update_interrupt-IsSim (record counted { last_update_time = time })
                (record { ring = u.ring; off = u.off }))
              u)))
