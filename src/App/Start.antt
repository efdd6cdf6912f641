-- ===== src/App/Start.antt =====
-- RADIO_AppInit in src/radio_app.c: calls of cFE that must succeed one after the other, and the
-- initial data behind them. The version text, the system log and the pattern of the idle packet are
-- left out.
pub mod Ready
pub mod Table
use tryspace_comp_radio.Base.{
  ℕ, Bool, true, false, ◌||◌, Option, none, some, List, [], ◌∷◌, ℤ, eq_int, if◌then◌else◌, not,
  take, replicate,
}
use tryspace_comp_radio.Env.{Env}
use tryspace_comp_radio.App.Eid
use tryspace_comp_radio.App.State.{
  App, Subscription, app_run, event, information, error, device_disabled, cmd_mid, req_hk_mid, send,
}
use tryspace_comp_radio.App.Executive.{Executive, downlink_pipe, command_pipe}
use tryspace_comp_radio.App.Commands.{reset_counters, setup_handles}

-- How far the start-up has come: it returned a status, or goes on.
pub data Progress (W : Type 0) : Type 0 where
  returned : ℤ → App → W → Progress W
  going : App → W → Progress W

module _ {W : Type 0} where
  abbrev pub and_then : Progress W → (App → W → Progress W) → Progress W
  and_then (returned status a w) next = returned status a w
  and_then (going a w) next = next a w

  -- The status that RADIO_AppInit returns, with what it leaves.
  abbrev pub outcome : Progress W → (App → W → ℤ × App × W) → ℤ × App × W
  outcome (returned status a w) next = (status, a, w)
  outcome (going a w) next = next a w

abbrev pub pipe_error : App → App
pipe_error = send (event Eid.pipe_err error)

module _ {W : Type 0} (env : Env W) (es : Executive W) where
  -- `if (status != CFE_SUCCESS) { report; return status; }`
  unfoldable pub required : (W → ℤ × W) → (App → App) → App → W → Progress W
  required call report a w =
      let (status, w') = call w in
      if eq_int status es.cfe_success then going a w' else returned status (report a) w'

  -- The same where the call writes a handle too.
  unfoldable pub stored : (W → ℤ × ℕ × W) → (ℕ → App → App) → App → W → Progress W
  stored call keep a w =
      let (status, handle, w') = call w in
      if eq_int status es.cfe_success
      then going (keep handle a) w'
      else returned status (pipe_error (keep handle a)) w'

  -- The loop over the subscription table.
  unfoldable pub subscribe_all : List Subscription → App → W → App × W
  subscribe_all [] a w = (a, w)
  subscribe_all (sub ∷ subs) a w =
      let (status, w') = es.subscribe_ex sub a.downlink_pipe w in
      let next = subscribe_all subs (if eq_int status es.cfe_success then a else pipe_error a) w' in
      if es.is_valid_msg_id sub.stream then next else (a, w)

  -- The subscriptions to the streams of the table, if there is one.
  unfoldable pub subscribe_streams : App → W → Progress W
  unfolding subscribe_all
  subscribe_streams a w = elim a.subs_table [
    | none ↦ going a w
    | some subs ↦
        let (a', w') = subscribe_all (take env.cfg.max_subscriptions subs) a w in going a' w'
  ]

  -- The table's address, which may be new.
  unfoldable pub get_table : App → W → Progress W
  get_table a w =
      let (status, table, w') = es.tbl_get_address a.subs_handle w in
      let a' = record a { subs_table = table } in
      if eq_int status es.cfe_success || eq_int status es.info_updated
      then going a' w'
      else returned status (pipe_error a') w'

  -- The calls that must succeed.
  unfoldable pub register : App → W → Progress W
  unfolding required stored get_table subscribe_streams
  register a w = and_then (required es.evs_register (λ a₁. a₁) a w) (λ a₁ w₁.
      and_then (stored es.tbl_register (λ h b. record b { subs_handle = h }) a₁ w₁) (λ a₂ w₂.
        and_then (required (es.tbl_load a₂.subs_handle) pipe_error a₂ w₂) (λ a₃ w₃.
          and_then (get_table a₃ w₃) (λ a₄ w₄.
            and_then
              (stored (es.create_pipe downlink_pipe) (λ p b. record b { downlink_pipe = p }) a₄ w₄)
              (λ a₅ w₅. and_then (subscribe_streams a₅ w₅) (λ a₆ w₆.
                and_then
                  (stored (es.create_pipe command_pipe) (λ p b. record b { cmd_pipe = p }) a₆ w₆)
                  (λ a₇ w₇.
                    and_then
                      (required (es.subscribe cmd_mid a₇.cmd_pipe)
                        (send (event Eid.sub_cmd_err error)) a₇ w₇)
                      (λ a₈ w₈.
                        required (es.subscribe req_hk_mid a₈.cmd_pipe)
                          (send (event Eid.sub_req_hk_err error)) a₈ w₈))))))))

  -- The application's data behind them.
  unfoldable pub initial : App → App
  unfolding reset_counters setup_handles
  initial a =
      let a₁ = reset_counters a in
      let a₂ = record a₁ {
        hk = record (a₁.hk) {
          device_error_count = 0;
          device_count = 0;
          device_enabled = device_disabled;
        };
      } in
      record (setup_handles env a₂) { receive_buffer = replicate 1024 0; receive_buff_length = 0 }

  -- An error of a library that does not end the start-up.
  abbrev pub report_unless : Bool → App → App
  report_unless ok a = if ok then a else send (event Eid.req_data_err error) a

  -- The libraries for the downlink, and the event that ends the start-up.
  unfoldable pub start_libraries : App → W → ℤ × App × W
  start_libraries a w =
      let (synced, w₁) = es.tm_sync_init w in
      let a₁ = report_unless (eq_int synced es.tm_sync_success) a in
      let (opened, info, w₂) = env.tm.init_channel a₁.frame_info w₁ in
      let a₂ =
        report_unless (eq_int opened env.tm.sdlp_success) (record a₁ { frame_info = info }) in
      let (status, w₃) = es.startup_sent w₂ in
      (status, send (event Eid.startup_inf information) a₂, w₃)

  -- RADIO_AppInit
  unfoldable pub app_init : App → W → ℤ × App × W
  unfolding register initial start_libraries
  app_init a w =
      outcome (register (record a { run_status = app_run }) w)
        (λ a₁ w₁. start_libraries (initial a₁) w₁)
