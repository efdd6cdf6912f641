-- ===== src/App/Commands/Linked/Report.antt =====
-- RADIO_ReportHousekeeping in src/radio_app.c with the radio of sim/radio_sim.c behind the SPI device,
-- and a configuration in front of it.
use tryspace_comp_radio.Base.{
  ℕ, suc, ◌/◌, ◌≤◌, ◌<◌, ◌≡◌, ◌≢◌, refl, sym, ap, ◌∙◌, subst, true, none, some, List, [], ◌∷◌, ◌++◌,
  arith, ℤ, pos, append_assoc, eq_int, ◌==◌,
}
use tryspace_comp_radio.Hardware.{Spi}
use tryspace_comp_radio.Device.{
  DeviceHk, Status, os_success, os_error, Done, done, done_if, valid, req_hk_cmd, hk_size,
  command_device, check_hk, request_hk,
}
use tryspace_comp_radio.Device.Packet.{command_packet, build_packet-none}
use tryspace_comp_radio.Env.{Env, Message}
use tryspace_comp_radio.Sim.Ring.{rx_count}
use tryspace_comp_radio.Sim.State.{Sim, send_response, send_housekeeping}
use tryspace_comp_radio.Sim.Command.{handle_spi_command, dispatch, on_req_hk}
use tryspace_comp_radio.Sim.Command.Accept.{handle_spi_command-accept}
use tryspace_comp_radio.Sim.Effects.{handle-req_hk}
use tryspace_comp_radio.Sim.Response.{IsHk}
use tryspace_comp_radio.Sim.Link.{IsLink, answered-IsIdle}
use tryspace_comp_radio.App.Eid
use tryspace_comp_radio.App.State.{
  App, event, hk_packet, information, send, inc_command_count, inc_device_count,
}
use tryspace_comp_radio.App.Commands.{device_cfg, configure, report_housekeeping}
use tryspace_comp_radio.App.Commands.Linked.{Idle, with_config, configure-link, with_config-IsIdle}

-- While the task waits, nothing reaches the radio.
pub record IsCalm {W : Type 0} (env : Env W) (sim : W → Sim) (seen : W → ℕ) : Type 0 where
  pub radio : (ms : ℕ) (w : W) → sim (env.hw.os_task_delay ms w) ≡ sim w
  pub replies : (ms : ℕ) (w : W) → seen (env.hw.os_task_delay ms w) ≡ seen w

module _ {W : Type 0} (env : Env W) (spi : Spi) (sent : List ℕ → W → ℤ) (sim : W → Sim)
    (seen : W → ℕ) (link : IsLink env.cfg env.hw spi sent sim seen)
    (calm : IsCalm env sim seen) where
  -- What the radio reports.
  abbrev pub reported : Sim → DeviceHk
  reported s = record (s.hk) {
    bytes_in_rx_buffer = rx_count env.cfg.buffer_size s.rx;
    bytes_received = s.bytes_received;
    bytes_sent = s.bytes_sent;
  }

  -- What a housekeeping request hands back and leaves.
  record Requested (w : W) (r : Status DeviceHk × W) : Type 0 where
    payload : r.0 ≡ os_success (reported (sim w))
    config : (sim r.1).config ≡ (sim w).config
    idle : Idle env spi sent sim seen link r.1

  handle-req_hk-kept :
      (status : ℤ) (s : Sim)
      → s.power_value ≢ 0
      → let s' = handle_spi_command env.cfg status (command_packet req_hk_cmd []) s in
        (s'.config ≡ s.config) × (s'.power_value ≡ s.power_value)
  unfolding dispatch on_req_hk send_housekeeping send_response
  handle-req_hk-kept status s on =
      let e = handle_spi_command-accept env.cfg status req_hk_cmd [] s on (omega arith) in
      (ap (λ t. t.config) e, ap (λ t. t.power_value) e)

  command_device-req_hk :
      (w : W)
      → command_device env.cfg env.hw (some spi) req_hk_cmd 0 none w
        ≡ (done, (env.hw.spi_write spi (command_packet req_hk_cmd []) w).1)
  unfolding command_device
  command_device-req_hk w =
      let after : ℤ × W → Done × W = λ r. (done_if (eq_int r.0 (pos 5)), r.1) in
      ap (λ p. after (env.hw.spi_write spi p w))
        (build_packet-none (env.hw.stack w) req_hk_cmd (env.hw.length-stack w))
      ∙ ap
          (λ status. (
            done_if (eq_int status (pos 5)),
            (env.hw.spi_write spi (command_packet req_hk_cmd []) w).1,
          ))
          (link.written (command_packet req_hk_cmd []) w)

  request_hk-reply :
      (reply : List ℕ) (w w₁ w₂ : W)
      → command_device env.cfg env.hw (some spi) req_hk_cmd 0 none w ≡ (done, w₁)
      → env.hw.spi_read spi hk_size (env.hw.os_task_delay (env.cfg.ms_timeout / 100) w₁)
        ≡ (pos hk_size, reply, w₂)
      → request_hk env.cfg env.hw (some spi) valid w ≡ (check_hk (pos hk_size) reply, w₂)
  unfolding request_hk
  request_hk-reply reply w w₁ w₂ e f =
      let after_read : ℤ × List ℕ × W → Status DeviceHk × W = λ r. (check_hk r.0 r.1, r.2) in
      let after_sent : Done × W → Status DeviceHk × W = λ s. elim s.0 [
        | os_error ↦ (os_error, s.1)
        | os_success _ ↦
            after_read
              (env.hw.spi_read spi hk_size (env.hw.os_task_delay (env.cfg.ms_timeout / 100) s.1))
      ] in
      ap after_sent e ∙ ap after_read f

  request_hk-Requested :
      (w : W)
      → Idle env spi sent sim seen link w
      → IsHk (reported (sim w))
      → rx_count env.cfg.buffer_size (sim w).rx < 4294967296
      → Requested w (request_hk env.cfg env.hw (some spi) valid w)
  request_hk-Requested w idle v few =
      let packet = command_packet req_hk_cmd [] in
      let ms = env.cfg.ms_timeout / 100 in
      let w₁ = (env.hw.spi_write spi packet w).1 in
      let on : (sim w).power_value ≢ 0 = λ z. omega (arith, z, idle.on) in
      let (reply, answered, parsed) =
        handle-req_hk env.cfg (sent packet w) (sim w) on
          (record { counter_in = v.counter_in; received_in = v.received_in; sent_in = v.sent_in })
          few in
      let (config, power) = handle-req_hk-kept (sent packet w) (sim w) on in
      let now₁ : sim (env.hw.os_task_delay ms w₁)
          ≡ handle_spi_command env.cfg (sent packet w) packet (sim w) =
        calm.radio ms w₁ ∙ link.handled packet w in
      let seen₁ : seen (env.hw.os_task_delay ms w₁) ≡ seen w =
        calm.replies ms w₁ ∙ link.write_seen packet w in
      let (w₂, got, same, counted₂) =
        link.read hk_size (env.hw.os_task_delay ms w₁) (sim w).spi_out reply
          (ap (λ (s : Sim). s.spi_out) now₁ ∙ answered) (idle.no_reply ∙ sym seen₁) in
      let now : sim w₂ ≡ handle_spi_command env.cfg (sent packet w) packet (sim w) = same ∙ now₁ in
      subst (Requested w) (sym (request_hk-reply reply w w₁ w₂ (command_device-req_hk w) got))
        (record {
          payload = parsed;
          config = ap (λ (s : Sim). s.config) now ∙ config;
          idle =
              answered-IsIdle env.cfg env.hw spi sent sim seen link (sent packet w) packet reply w
                w₂ idle now power answered (counted₂ ∙ ap suc seen₁);
        })

  -- The application with the housekeeping that the radio reported.
  abbrev pub with_report : Sim → App → App
  with_report s a = inc_device_count (record a { hk = record (a.hk) { device_hk = reported s } })

  report_housekeeping-link :
      (a : App) (w : W)
      → a.hk.device_enabled ≡ 1
      → a.spi ≡ spi
      → Idle env spi sent sim seen link w
      → IsHk (reported (sim w))
      → rx_count env.cfg.buffer_size (sim w).rx < 4294967296
      → let (a', w') = report_housekeeping env a w in
        (a' ≡ send (hk_packet (with_report (sim w) a).hk) (with_report (sim w) a))
        × ((sim w').config ≡ (sim w).config)
        × Idle env spi sent sim seen link w'
  unfolding report_housekeeping
  report_housekeeping-link a w enabled handle idle v few =
      let test : (a.hk.device_enabled == 1) ≡ true = ground arith in
      let r =
        subst (λ x. Requested w (request_hk env.cfg env.hw (some x) valid w)) (sym handle)
          (request_hk-Requested w idle v few) in
      rw (test, r.payload, report_housekeeping) (refl, r.config, r.idle)

  -- If what is written over SPI reaches the simulated radio whole and a read takes its oldest
  -- unread reply, nothing reaches the radio while the task waits, the radio is sound, has power
  -- and no reply unread, its counts fit their fields, and the device is enabled, then a
  -- configuration command with a mode up to duplex and the housekeeping request behind it leave
  -- the radio with exactly the settings of the command, and the housekeeping packet that goes out
  -- shows them, with the radio's counts and the number of bytes that wait, behind one event.
  pub configure-reported :
      (msg : Message) (a : App) (w : W)
      → a.hk.device_enabled ≡ 1
      → msg.cfg_mode ≤ 3
      → a.spi ≡ spi
      → Idle env spi sent sim seen link w
      → (sim w).bytes_received < 4294967296
      → (sim w).bytes_sent < 4294967296
      → rx_count env.cfg.buffer_size (sim w).rx < 4294967296
      → let c = device_cfg env msg in
        let (a₁, w₁) = configure env msg a w in
        let (a₂, w₂) = report_housekeeping env a₁ w₁ in
        (a₂.out ≡ a.out ++ (event Eid.cmd_config_inf information ∷ hk_packet a₂.hk ∷ []))
        × (a₂.hk.device_hk ≡ reported (with_config env spi sent sim seen link c (sim w)))
        × ((sim w₂).config ≡ c)
        × Idle env spi sent sim seen link w₂
  configure-reported msg a w enabled small handle idle received_in sent_in few =
      let c = device_cfg env msg in
      let (a₁, w₁) = configure env msg a w in
      let b₁ : App =
        send (event Eid.cmd_config_inf information) (inc_device_count (inc_command_count a)) in
      let (now_a, now, replies) =
        configure-link env spi sent sim seen link msg a w enabled small handle idle in
      let v : IsHk (reported (with_config env spi sent sim seen link c (sim w))) = record {
        counter_in = omega arith;
        received_in = received_in;
        sent_in = sent_in;
      } in
      let (e, kept, idle₂) =
        report_housekeeping-link a₁ w₁ (ap (λ (x : App). x.hk.device_enabled) now_a ∙ enabled)
          (ap (λ (x : App). x.spi) now_a ∙ handle)
          (with_config-IsIdle env spi sent sim seen link c w w₁ idle now replies)
          (subst (λ s. IsHk (reported s)) (sym now) v)
          (subst (λ (s : Sim). rx_count env.cfg.buffer_size s.rx < 4294967296) (sym now) few) in
      let s = with_config env spi sent sim seen link c (sim w) in
      let published : Sim → App → App =
        λ t x. send (hk_packet (with_report t x).hk) (with_report t x) in
      let full : (report_housekeeping env a₁ w₁).0 ≡ published s b₁ =
        e ∙ ap (λ t. published t a₁) now ∙ ap (published s) now_a in
      (
        ap (λ (x : App). x.out) full
            ∙ append_assoc a.out (event Eid.cmd_config_inf information ∷ [])
                (hk_packet (with_report s b₁).hk ∷ [])
            ∙ ap (λ h. a.out ++ (event Eid.cmd_config_inf information ∷ hk_packet h ∷ []))
                (sym (ap (λ (x : App). x.hk) full)),
        ap (λ (x : App). x.hk.device_hk) full,
        kept ∙ ap (λ (t : Sim). t.config) now,
        idle₂,
      )
