-- ===== src/App/Dispatch.antt =====
-- How src/radio_app.c handles a message: RADIO_ProcessCommandPacket, RADIO_ProcessGroundCommand,
-- RADIO_ProcessTelemetryRequest, and RADIO_Service. Two loops of RADIO_Service take a number of
-- turns, and `none` says that they were not enough.
pub mod Refusal
pub mod Service
pub mod Invariant
pub mod Duplex
use tryspace_comp_radio.Base.{
  ℕ, zero, suc, Bool, true, false, ◌&&◌, ◌||◌, Option, none, some, ◌==◌, if◌then◌else◌,
}
use tryspace_comp_radio.Device.{mode_tx, mode_rx, mode_duplex}
use tryspace_comp_radio.Env.{Env, Message}
use tryspace_comp_radio.App.Eid
use tryspace_comp_radio.App.State.{
  App, event, information, error, device_enabled, noop_cc, reset_counters_cc, enable_cc, disable_cc,
  config_cc, service_cc, req_hk_tlm, cmd_mid, req_hk_mid, send, inc_command_count,
  inc_command_error,
}
use tryspace_comp_radio.App.Commands.{
  verify_cmd_length, reset_counters, enable, disable, configure, report_housekeeping,
}
use tryspace_comp_radio.App.Uplink.Service.{service_uplink}
use tryspace_comp_radio.App.Downlink.{service_downlink}

module _ {W : Type 0} (env : Env W) (turns : ℕ) where
  -- The downlink pipe is read until it is empty.
  unfoldable pub drain : ℕ → W → Option W
  drain zero w = none
  drain (suc left) w =
      let (polled, w') = env.cfe.poll_downlink w in
      let rest = drain left w' in elim polled [ none ↦ some w' | some _ ↦ rest ]

  abbrev pub enabled_in : App → ℕ → Bool
  enabled_in a mode =
      a.hk.device_enabled == device_enabled
      && (a.hk.device_hk.mode == mode || a.hk.device_hk.mode == mode_duplex)

  -- RADIO_Service
  unfoldable pub service : App → W → Option (App × W)
  service a w =
      let (a₁, w₁) = if enabled_in a mode_rx then service_uplink env (a, w) else (a, w) in
      let down = service_downlink env turns a₁ w₁ in
      let drained = drain turns w₁ in
      if enabled_in a₁ mode_tx then down else elim drained [ none ↦ none | some w₂ ↦ some (a₁, w₂) ]

  -- A command is carried out only if the length of its message fits.
  unfoldable pub checked : Message → ℕ → App → W → (App → Option (App × W)) → Option (App × W)
  checked msg expected a w act =
      let (fits, a') = verify_cmd_length msg expected a in
      let result = act a' in if fits then result else some (a', w)

  -- RADIO_ProcessGroundCommand
  unfoldable pub process_ground_command : Message → App → W → Option (App × W)
  process_ground_command msg a w =
      let no_args = env.cfe.no_args_cmd_size in
      if msg.fcn_code == noop_cc
      then checked msg no_args a w
          (λ a'. some (send (event Eid.cmd_noop_inf information) (inc_command_count a'), w))
      else if msg.fcn_code == reset_counters_cc
      then checked msg no_args a w (λ a'. some (reset_counters a', w))
      else if msg.fcn_code == enable_cc
      then checked msg no_args a w (λ a'. some (enable env a' w))
      else if msg.fcn_code == disable_cc
      then checked msg no_args a w (λ a'. some (disable env a' w))
      else if msg.fcn_code == config_cc
      then checked msg env.cfe.config_cmd_size a w (λ a'. some (configure env msg a' w))
      else if msg.fcn_code == service_cc
      then checked msg no_args a w (λ a'. service a' w)
      else some (send (event Eid.cmd_err error) (inc_command_error a), w)

  -- RADIO_ProcessTelemetryRequest
  unfoldable pub process_telemetry_request : Message → App → W → App × W
  process_telemetry_request msg a w =
      if msg.fcn_code == req_hk_tlm
      then report_housekeeping env a w
      else (send (event Eid.device_tlm_err error) (inc_command_error a), w)

  -- RADIO_ProcessCommandPacket
  unfoldable pub process_command_packet : Message → App → W → Option (App × W)
  process_command_packet msg a w =
      if msg.msg_id == cmd_mid
      then process_ground_command msg a w
      else if msg.msg_id == req_hk_mid
      then some (process_telemetry_request msg a w)
      else some (send (event Eid.process_cmd_err error) (inc_command_error a), w)
