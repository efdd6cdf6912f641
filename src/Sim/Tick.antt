-- ===== src/Sim/Tick.antt =====
-- `radio_sim_on_tick`, and the ground thread's handling of one datagram. A tick is given what the
-- transports deliver, as `none` for nothing.
pub mod Invariant
pub mod Runs
pub mod Ground
use tryspace_comp_radio.Base.{
  ℕ, Bool, ◌&&◌, ◌||◌, not, Option, none, some, List, [], ◌∷◌, ◌++◌, ℤ, leb, ltb, ◌==◌,
  if◌then◌else◌, length, get_or, add32,
}
use tryspace_comp_radio.Hardware.{DeviceConfig}
use tryspace_comp_radio.Device.{mode_sleep, mode_rx, mode_duplex}
use tryspace_comp_radio.Sim.Ring.{write_to_rx}
use tryspace_comp_radio.Sim.State.{Sim, update_interrupt, zero_config}
use tryspace_comp_radio.Sim.Command.{handle_spi_command}

-- The tests of udp_ground_thread on a datagram, which it makes before it takes the mutex.
abbrev pub hears : List ℕ → Sim → Bool
hears bytes s =
    ltb 0 (length bytes)
    && not (s.power_value == 0)
    && (s.config.mode == mode_rx || s.config.mode == mode_duplex)

-- What it does with the datagram while it holds the mutex.
abbrev pub put_datagram : DeviceConfig → List ℕ → Sim → Sim
put_datagram cfg bytes s = update_interrupt cfg (record s {
  rx = (write_to_rx cfg.buffer_size s.rx bytes).1;
  bytes_received = add32 s.bytes_received (length bytes);
})

-- A datagram from the ground station where no tick comes between the two.
unfoldable pub on_ground : DeviceConfig → List ℕ → Sim → Sim
on_ground cfg bytes s = if hears bytes s then put_datagram cfg bytes s else s

-- A new value on the power pin. Without power the buffers, the interrupt and the configuration are
-- cleared.
unfoldable pub set_power : ℕ → Sim → Sim
set_power value s =
    if value == s.power_value
    then s
    else if value == 0
    then record s {
      power_value = 0;
      rx = record (s.rx) { head = 0; tail = 0 };
      tx_buffer_head = 0;
      tx_buffer_tail = 0;
      interrupt_asserted = 0;
      interrupt_value = 0;
      config = zero_config;
      hk = record (s.hk) { mode = mode_sleep };
    }
    else record s { power_value = value }

-- A request on the power GPIO: command, pin, value.
unfoldable pub on_power_gpio : DeviceConfig → List ℕ → Sim → Sim
unfolding set_power
on_power_gpio cfg req s =
    let cmd = get_or req 0 0 in
    let pin = get_or req 1 0 in
    if not (leb 2 (length req))
    then s
    else if not (pin == cfg.gpio_power_pin)
    then s
    else if cmd == 0
    then record s { power_out = s.power_out ++ ((0 ∷ pin ∷ s.power_value ∷ []) ∷ []) }
    else if cmd == 1 && leb 3 (length req)
    then set_power (get_or req 2 0) s
    else s

-- A request on the interrupt GPIO.
unfoldable pub on_interrupt_gpio : DeviceConfig → List ℕ → Sim → Sim
on_interrupt_gpio cfg req s =
    let cmd = get_or req 0 0 in
    let pin = get_or req 1 0 in
    if not (leb 2 (length req))
    then s
    else if not (pin == cfg.gpio_interrupt_pin)
    then s
    else if cmd == 0
    then record s { interrupt_out = s.interrupt_out ++ ((0 ∷ pin ∷ s.interrupt_value ∷ []) ∷ []) }
    else if cmd == 1 && leb 3 (length req)
    then record s { interrupt_value = get_or req 2 0 }
    else s

abbrev given {ℓ} : {A : Type ℓ} → (List ℕ → A → A) → Option (List ℕ) → A → A
given handle none s = s
given handle (some bytes) s = handle bytes s

-- The SPI bytes are dropped while the radio has no power.
unfoldable pub on_spi : DeviceConfig → ℤ → List ℕ → Sim → Sim
on_spi cfg sent bytes s = if s.power_value == 0 then s else handle_spi_command cfg sent bytes s

-- radio_sim_on_tick. The test of the update rate, on `double` seconds, is the argument `due`.
unfoldable pub on_tick :
    DeviceConfig
    → (ℕ → ℕ → Bool)
    → ℤ
    → ℕ
    → Option (List ℕ)
    → Option (List ℕ)
    → Option (List ℕ)
    → Sim
    → Sim
on_tick cfg due sent time spi power interrupt s =
    let counted = record s { tick_counter = add32 s.tick_counter 1 } in
    let updated =
      if due time s.last_update_time
      then update_interrupt cfg (record counted { last_update_time = time })
      else counted in
    given (on_interrupt_gpio cfg) interrupt
      (given (on_power_gpio cfg) power (given (on_spi cfg sent) spi updated))
