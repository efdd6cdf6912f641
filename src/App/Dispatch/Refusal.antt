-- ===== src/App/Dispatch/Refusal.antt =====
-- The ground commands that RADIO_ProcessGroundCommand in src/radio_app.c does not carry out.
use tryspace_comp_radio.Base.{ℕ, ◌≡◌, Bool, false, ◌&&◌, some, arith, ltb, ◌==◌, if◌then◌else◌}
use tryspace_comp_radio.Env.{Env, Message}
use tryspace_comp_radio.App.Eid
use tryspace_comp_radio.App.State.{App, event, error, send, inc_command_error}
use tryspace_comp_radio.App.Commands.{verify_cmd_length}
use tryspace_comp_radio.App.Dispatch.{checked, process_ground_command}

module _ {W : Type 0} (env : Env W) (turns : ℕ) where
  -- The length of a command's message.
  abbrev pub cmd_size : Message → ℕ
  cmd_size msg = if msg.fcn_code == 4 then env.cfe.config_cmd_size else env.cfe.no_args_cmd_size

  -- A command that the application knows, of the right length.
  abbrev pub is_accepted : Message → Bool
  is_accepted msg = ltb msg.fcn_code 6 && cmd_size msg == msg.size

  -- A command with an unknown code or a message of the wrong length is one command error and one
  -- event, which tells the two apart, and nothing else happens.
  pub process_ground_command-refused :
      (msg : Message) (a : App) (w : W)
      → is_accepted msg ≡ false
      → process_ground_command env turns msg a w
        ≡ some (
          inc_command_error
              (send (event (if ltb msg.fcn_code 6 then Eid.len_err else Eid.cmd_err) error) a),
          w,
        )
  unfolding process_ground_command checked verify_cmd_length
  process_ground_command-refused msg a w h = ground arith
