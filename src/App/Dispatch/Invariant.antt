-- ===== src/App/Dispatch/Invariant.antt =====
-- What every message leaves sound in the application's data.
use tryspace_comp_radio.Base.{
  ℕ, ◌≤◌, ◌≡◌, subst, sym, ap, inl, inr, Bool, true, false, Option, none, some, arith, ◌==◌,
  if◌then◌else◌, length, Bool-cases, Option-cases,
}
use tryspace_comp_radio.Env.{Env, Message}
use tryspace_comp_radio.App.State.{
  App, noop_cc, reset_counters_cc, enable_cc, disable_cc, config_cc, service_cc, cmd_mid,
  req_hk_mid, req_hk_tlm, event, information, error, inc_command_count, send, inc_command_error,
}
use tryspace_comp_radio.App.Eid
use tryspace_comp_radio.App.Commands.{
  verify_cmd_length, reset_counters, setup_handles, enable, enable_done, disable, configure,
  configure_done, report_housekeeping,
}
use tryspace_comp_radio.App.Downlink.{service_downlink}
use tryspace_comp_radio.App.Downlink.Frame.{View, view, service_downlink-view}
use tryspace_comp_radio.App.Uplink.Service.{service_uplink}
use tryspace_comp_radio.App.Uplink.Service.Buffer.{service_uplink-IsBuffer}
use tryspace_comp_radio.App.Uplink.Service.Kept.{Kept, service_uplink-kept}
use tryspace_comp_radio.App.Dispatch.{
  drain, service, checked, process_ground_command, process_telemetry_request,
  process_command_packet,
}

-- The device is enabled or disabled, and the receive buffer holds 1024 bytes, at least one free.
pub record IsView (v : View) : Type 0 where
  pub flag : v.enabled ≤ 1
  pub sized : length v.buffer ≡ 1024
  pub below : v.waiting ≤ 1023

abbrev pub IsApp : App → Type 0
IsApp a = IsView (view a)

error-IsApp : (id : ℕ) (a : App) → IsApp a → IsApp (send (event id error) (inc_command_error a))
error-IsApp id a v = record { flag = v.flag; sized = v.sized; below = v.below }

noop-IsApp :
    (a : App) → IsApp a → IsApp (send (event Eid.cmd_noop_inf information) (inc_command_count a))
noop-IsApp a v = record { flag = v.flag; sized = v.sized; below = v.below }

module _ {W : Type 0} (env : Env W) where
  enable-IsApp : (a : App) (w : W) → IsApp a → IsApp (enable env a w).0
  unfolding enable setup_handles enable_done
  enable-IsApp a w v = record { flag = ground arith; sized = ground arith; below = ground arith }

  pub disable-IsApp : (a : App) (w : W) → IsApp a → IsApp (disable env a w).0
  unfolding disable
  disable-IsApp a w v = record { flag = ground arith; sized = ground arith; below = ground arith }

  configure-view : (msg : Message) (a : App) (w : W) → view (configure env msg a w).0 ≡ view a
  unfolding configure configure_done
  configure-view msg a w = ground arith

  report_housekeeping-view : (a : App) (w : W) → view (report_housekeeping env a w).0 ≡ view a
  unfolding report_housekeeping
  report_housekeeping-view a w = ground arith

  service_uplink-IsApp : (s : App × W) → IsApp s.0 → IsApp (service_uplink env s).0
  service_uplink-IsApp s v =
      let b = service_uplink-IsBuffer env s (record { sized = v.sized; below = v.below }) in
      record {
        flag = omega (arith, v.flag, ap (λ (k : Kept). k.enabled) (service_uplink-kept env s));
        sized = b.sized;
        below = b.below;
      }

  -- A result that is there is sound.
  data Sound : Option (App × W) → Type 0 where
    nothing : Sound none
    result : (r : App × W) → IsApp r.0 → Sound (some r)

  result-IsApp : {r : App × W} → Sound (some r) → IsApp r.0
  result-IsApp (result r v) = v

  downlink-Sound : (turns : ℕ) (a : App) (w : W) → IsApp a → Sound (service_downlink env turns a w)
  downlink-Sound turns a w v = elim (Option-cases (service_downlink env turns a w)) [
    | inl out_of_turns ↦ rw out_of_turns nothing
    | inr (r, sent) ↦
        rw sent (result r (subst IsView (sym (service_downlink-view env turns a w r sent)) v))
  ]

  drained-Sound :
      (turns : ℕ) (a : App) (drained : Option W)
      → IsApp a
      → Sound (elim drained [ none ↦ none | some w₂ ↦ some (a, w₂) ])
  drained-Sound turns a none v = nothing
  drained-Sound turns a (some w₂) v = result (a, w₂) v

  uplink-IsApp :
      (b : Bool) (a : App) (w : W)
      → IsApp a
      → IsApp (if b then service_uplink env (a, w) else (a, w)).0
  uplink-IsApp true a w v = service_uplink-IsApp (a, w) v
  uplink-IsApp false a w v = v

  sent-Sound :
      (turns : ℕ) (b : Bool) (a : App) (w : W)
      → IsApp a
      → Sound (
          if b
          then service_downlink env turns a w
          else elim (drain env turns turns w) [ none ↦ none | some w₂ ↦ some (a, w₂) ])
  sent-Sound turns true a w v = downlink-Sound turns a w v
  sent-Sound turns false a w v = drained-Sound turns a (drain env turns turns w) v

  service-Sound : (turns : ℕ) (a : App) (w : W) → IsApp a → Sound (service env turns a w)
  unfolding service
  service-Sound turns a w v = sent-Sound turns _ _ _ (uplink-IsApp _ a w v)

  checked-Sound :
      (turns : ℕ) (msg : Message) (expected : ℕ) (a : App) (w : W) (act : App → Option (App × W))
      → IsApp a
      → ((a' : App) → IsApp a' → Sound (act a'))
      → Sound (checked env turns msg expected a w act)
  unfolding checked verify_cmd_length
  checked-Sound turns msg expected a w act v h = elim (Bool-cases (expected == msg.size)) [
    | inl fits ↦ rw fits (h a v)
    | inr wrong ↦ rw wrong (result _ (record { flag = v.flag; sized = v.sized; below = v.below }))
  ]

  either-Sound :
      (b : Bool) (x y : Option (App × W)) → Sound x → Sound y → Sound (if b then x else y)
  either-Sound true x y u v = u
  either-Sound false x y u v = v

  no_args-Sound :
      (turns : ℕ) (msg : Message) (a : App) (w : W)
      → IsApp a
      → (act : App → Option (App × W)) → ((a' : App) → IsApp a' → Sound (act a'))
      → Sound (checked env turns msg env.cfe.no_args_cmd_size a w act)
  no_args-Sound turns msg a w v act h = checked-Sound turns msg env.cfe.no_args_cmd_size a w act v h

  reset-IsApp : (a : App) → IsApp a → IsApp (reset_counters a)
  unfolding reset_counters
  reset-IsApp a v = record { flag = v.flag; sized = v.sized; below = v.below }

  process_ground_command-Sound :
      (turns : ℕ) (msg : Message) (a : App) (w : W)
      → IsApp a
      → Sound (process_ground_command env turns msg a w)
  unfolding process_ground_command
  process_ground_command-Sound turns msg a w v =
      either-Sound (msg.fcn_code == noop_cc) _ _
        (no_args-Sound turns msg a w v
          (λ a'. some (send (event Eid.cmd_noop_inf information) (inc_command_count a'), w))
          (λ a' v'. result _ (noop-IsApp a' v')))
        (either-Sound (msg.fcn_code == reset_counters_cc) _ _
          (no_args-Sound turns msg a w v (λ a'. some (reset_counters a', w))
            (λ a' v'. result (reset_counters a', w) (reset-IsApp a' v')))
          (either-Sound (msg.fcn_code == enable_cc) _ _
            (no_args-Sound turns msg a w v (λ a'. some (enable env a' w))
              (λ a' v'. result (enable env a' w) (enable-IsApp a' w v')))
            (either-Sound (msg.fcn_code == disable_cc) _ _
              (no_args-Sound turns msg a w v (λ a'. some (disable env a' w))
                (λ a' v'. result (disable env a' w) (disable-IsApp a' w v')))
              (either-Sound (msg.fcn_code == config_cc) _ _
                (checked-Sound turns msg env.cfe.config_cmd_size a w
                  (λ a'. some (configure env msg a' w)) v
                  (λ a' v'.
                    result (configure env msg a' w)
                      (subst IsView (sym (configure-view msg a' w)) v')))
                (either-Sound (msg.fcn_code == service_cc) _ _
                  (no_args-Sound turns msg a w v (λ a'. service env turns a' w)
                    (λ a' v'. service-Sound turns a' w v'))
                  (result (send (event Eid.cmd_err error) (inc_command_error a), w)
                    (error-IsApp Eid.cmd_err a v)))))))

  request-IsApp :
      (b : Bool) (a : App) (w : W)
      → IsApp a
      → IsApp
          (if b
            then report_housekeeping env a w
            else (send (event Eid.device_tlm_err error) (inc_command_error a), w)).0
  request-IsApp true a w v = subst IsView (sym (report_housekeeping-view a w)) v
  request-IsApp false a w v = error-IsApp Eid.device_tlm_err a v

  -- If the device is enabled or disabled (0 or 1), the receive buffer has 1024 bytes and at most
  -- 1023 of them wait, then all this holds again after any message whose handling returns.
  pub process_command_packet-IsApp :
      (turns : ℕ) (msg : Message) (a : App) (w : W) (r : App × W)
      → IsApp a
      → process_command_packet env turns msg a w ≡ some r
      → IsApp r.0
  unfolding process_command_packet process_telemetry_request
  process_command_packet-IsApp turns msg a w r v h = result-IsApp (
      subst Sound h (
        either-Sound (msg.msg_id == cmd_mid) _ _ (process_ground_command-Sound turns msg a w v) (
          either-Sound (msg.msg_id == req_hk_mid) _ _
            (result (process_telemetry_request env turns msg a w)
              (request-IsApp (msg.fcn_code == req_hk_tlm) a w v))
            (result (send (event Eid.process_cmd_err error) (inc_command_error a), w)
              (error-IsApp Eid.process_cmd_err a v)))))
