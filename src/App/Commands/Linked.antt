-- ===== src/App/Commands/Linked.antt =====
-- RADIO_Configure in src/radio_app.c with the radio of sim/radio_sim.c behind the SPI device.
pub mod Report
use tryspace_comp_radio.Base.{
  ℕ, suc, ◌+◌, ◌/◌, ◌≤◌, ◌<◌, ◌≡◌, ◌≢◌, refl, sym, ap, ◌∙◌, subst, inl, inr, true, false, none,
  some, List, [], ◌∷◌, ◌++◌, arith, ℤ, pos, length, length-append, append_assoc, eq_int,
  eq_int_refl, ◌==◌, ltb, le→ltb, inc16,
}
use tryspace_comp_radio.Hardware.{Spi}
use tryspace_comp_radio.Device.{
  RadioConfig, DeviceHk, Status, os_success, os_error, Done, done, done_if, valid, req_hk_cmd,
  set_cfg_cmd, hk_size, command_device, build_packet, check_hk, request_hk, set_configuration,
}
use tryspace_comp_radio.Device.Packet.{command_packet, build_packet-none}
use tryspace_comp_radio.Device.Commands.{set_configuration_lem}
use tryspace_comp_radio.Env.{Env, Message}
use tryspace_comp_radio.Sim.Ring.{rx_count}
use tryspace_comp_radio.Sim.State.{Sim, send_response, send_housekeeping}
use tryspace_comp_radio.Sim.Command.{handle_spi_command, dispatch, on_req_hk}
use tryspace_comp_radio.Sim.Command.Accept.{length-command_packet, handle_spi_command-accept}
use tryspace_comp_radio.Sim.Effects.{counted, settings, handle-set_cfg, handle-req_hk}
use tryspace_comp_radio.Sim.Response.{IsHk}
use tryspace_comp_radio.Sim.Link.{IsLink, IsIdle, command_device-link, answered-IsIdle}
use tryspace_comp_radio.Sim.Tick.Invariant.{IsSim, handle_spi_command-IsSim}
use tryspace_comp_radio.App.Eid
use tryspace_comp_radio.App.State.{
  App, event, hk_packet, information, send, inc_command_count, inc_device_count,
}
use tryspace_comp_radio.App.Commands.{device_cfg, configure, configure_done, report_housekeeping}

module _ {W : Type 0} (env : Env W) (spi : Spi) (sent : List ℕ → W → ℤ) (sim : W → Sim)
    (seen : W → ℕ) (link : IsLink env.cfg env.hw spi sent sim seen) where
  abbrev pub Idle : W → Type 0
  Idle w = IsIdle env.cfg env.hw spi sent sim seen link w

  -- The radio with a configuration that was commanded.
  abbrev pub with_config : RadioConfig → Sim → Sim
  with_config c s = counted (record s {
    config = c;
    hk = record (s.hk) {
      mode = c.mode;
      rx_speed_setting = c.rx_speed_setting;
      rx_wavelength_setting = c.rx_wavelength_setting;
      tx_speed_setting = c.tx_speed_setting;
      tx_wavelength_setting = c.tx_wavelength_setting;
    };
  })

  set_configuration-link :
      (c : RadioConfig) (w : W)
      → Idle w
      → let (status, w') = set_configuration env.cfg env.hw (some spi) (some c) w in
        (status ≡ done) × (sim w' ≡ with_config c (sim w)) × (seen w' ≡ seen w)
  unfolding set_configuration
  set_configuration-link c w idle =
      let e =
        command_device-link env.cfg env.hw spi sent sim seen link set_cfg_cmd (settings c) w
          (omega arith) in
      let w' = (env.hw.spi_write spi (command_packet set_cfg_cmd (settings c)) w).1 in
      let on : (sim w).power_value ≢ 0 = λ z. omega (arith, z, idle.on) in
      (
        ap (λ (r : Done × W). r.0) e,
        ap (λ (r : Done × W). sim r.1) e
            ∙ link.handled (command_packet set_cfg_cmd (settings c)) w
            ∙ handle-set_cfg env.cfg (sent (command_packet set_cfg_cmd (settings c)) w) c (sim w)
                on,
        ap (λ (r : Done × W). seen r.1) e
            ∙ link.write_seen (command_packet set_cfg_cmd (settings c)) w,
      )

  -- A configuration that passes the two checks.
  configure-accepted :
      (msg : Message) (a : App) (w : W)
      → a.hk.device_enabled ≡ 1
      → msg.cfg_mode ≤ 3
      → let (status, w') =
          set_configuration env.cfg env.hw (some a.spi) (some (device_cfg env msg)) w in
        configure env msg a w ≡ (configure_done env status (inc_command_count a), w')
  unfolding configure
  configure-accepted msg a w enabled small =
      let test : (a.hk.device_enabled == 1) ≡ true = ground arith in
      rw (test, le→ltb 3 msg.cfg_mode small) refl

  pub configure-link :
      (msg : Message) (a : App) (w : W)
      → a.hk.device_enabled ≡ 1
      → msg.cfg_mode ≤ 3
      → a.spi ≡ spi
      → Idle w
      → let (a', w') = configure env msg a w in
        (a' ≡ send (event Eid.cmd_config_inf information) (inc_device_count (inc_command_count a)))
        × (sim w' ≡ with_config (device_cfg env msg) (sim w))
        × (seen w' ≡ seen w)
  unfolding configure_done
  configure-link msg a w enabled small handle idle =
      let c = device_cfg env msg in
      let (good, now, replies) = set_configuration-link c w idle in
      let e =
        configure-accepted msg a w enabled small
        ∙ ap
            (λ x.
              let (status, w') = set_configuration env.cfg env.hw (some x) (some c) w in
              (configure_done env status (inc_command_count a), w'))
            handle in
      (
        ap (λ (r : App × W). r.0) e
            ∙ ap (λ status. configure_done env status (inc_command_count a)) good,
        ap (λ (r : App × W). sim r.1) e ∙ now,
        ap (λ (r : App × W). seen r.1) e ∙ replies,
      )

  -- A configured radio is idle as before.
  pub with_config-IsIdle :
      (c : RadioConfig) (w w' : W)
      → Idle w
      → sim w' ≡ with_config c (sim w)
      → seen w' ≡ seen w
      → Idle w'
  with_config-IsIdle c w w' idle now replies = record {
    on = omega (arith, ap (λ (s : Sim). s.power_value) now, idle.on);
    sound = subst (IsSim env.cfg) (sym now) (record { ring = idle.sound.ring; off = inl idle.on });
    no_reply = ap (λ (s : Sim). length s.spi_out) now ∙ idle.no_reply ∙ sym replies;
  }
