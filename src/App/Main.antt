-- ===== src/App/Main.antt =====
-- RADIO_AppMain in src/radio_app.c. The loop takes a number of turns, and `none` says that they
-- were not enough. Performance markers are left out.
pub mod Runs
use tryspace_comp_radio.Base.{
  ℕ, zero, suc, Bool, true, false, Option, none, some, eq_int, if◌then◌else◌,
}
use tryspace_comp_radio.Env.{Env, Message}
use tryspace_comp_radio.App.Eid
use tryspace_comp_radio.App.State.{App, app_error, event, error, send}
use tryspace_comp_radio.App.Executive.{Executive}
use tryspace_comp_radio.App.Commands.{disable}
use tryspace_comp_radio.App.Dispatch.{process_command_packet}
use tryspace_comp_radio.App.Start.{app_init}

-- A turn of the loop: the loop is left, or gone on with, or the handling of the message took too
-- many turns.
pub data Turn (W : Type 0) : Type 0 where
  stops goes_on : App → W → Turn W
  unfinished : Turn W

module _ {W : Type 0} (env : Env W) (es : Executive W) (service_turns : ℕ) where
  -- A read error of the command pipe.
  abbrev pub pipe_failed : App → App
  pipe_failed a = record (send (event Eid.pipe_err error) a) { run_status = app_error }

  -- The handling of a message.
  abbrev pub served : Option (App × W) → Turn W
  served none = unfinished
  served (some (a, w)) = goes_on a w

  abbrev pub on_received : Option Message → App → W → Turn W
  on_received none a w = goes_on (pipe_failed a) w
  on_received (some msg) a w = served (process_command_packet env service_turns msg a w)

  -- The condition of the loop and its body.
  unfoldable pub main_turn : App → W → Turn W
  main_turn a w =
      let (running, status, w₁) = es.run_loop a.run_status w in
      let a₁ = record a { run_status = status } in
      let (received, w₂) = es.receive_command a.cmd_pipe w₁ in
      let next = on_received received a₁ w₂ in if running then next else stops a₁ w₁

  unfoldable pub main_loop : ℕ → App → W → Option (App × W)
  unfolding main_turn
  main_loop zero a w = none
  main_loop (suc turns) a w = elim (main_turn a w) [
    | stops a' w' ↦ some (a', w')
    | goes_on a' w' ↦ main_loop turns a' w'
    | unfinished ↦ none
  ]

  -- RADIO_AppMain
  unfoldable pub app_main : ℕ → App → W → Option (App × W)
  unfolding app_init
  app_main turns a w =
      let (status, a₁, w₁) = app_init env es a w in
      let a₂ = if eq_int status es.cfe_success then a₁ else record a₁ { run_status = app_error } in
      elim (main_loop turns a₂ w₁) [ none ↦ none | some (a₃, w₃) ↦ some (disable env a₃ w₃) ]
