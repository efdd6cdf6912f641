-- ===== src/Cli/Refusal.antt =====
-- What `process_command` in cli/radio_cli.c refuses.
use tryspace_comp_radio.Base.{ℕ, ◌≡◌, refl, Bool, true, false, List, ltb, ◌==◌, arith, not}
use tryspace_comp_radio.Hardware.{Hardware, DeviceConfig}
use tryspace_comp_radio.Cli.Tokens.{Command}
use tryspace_comp_radio.Cli.Execute.{
  Cli, Report, say, execute, report_interrupt, process_command, is_exit,
}

-- Whether a command takes that number of arguments.
abbrev pub accepts : Command → ℕ → Bool
accepts Command.unknown num = false
accepts Command.help num = true
accepts Command.exit num = true
accepts Command.noop num = num == 0
accepts Command.hk num = num == 0
accepts Command.cfg num = num == 5
accepts Command.send num = num == 1
accepts Command.receive num = not (ltb 1 num)
accepts Command.power_on num = num == 0
accepts Command.power_off num = num == 0

module _ {W : Type 0} (cfg : DeviceConfig) (hw : Hardware W) where
  receive-num : (num : ℕ) → not (ltb 1 num) ≡ false → ltb 1 num ≡ true
  receive-num num h = ground arith

  receive-one : (num : ℕ) → not (ltb 1 num) ≡ false → (num == 1) ≡ false
  receive-one num h = ground arith

  execute-refused :
      (cmd : Command) (num : ℕ) (tokens : List ℕ) (c : Cli) (w : W)
      → accepts cmd num ≡ false
      → execute cfg hw cmd num tokens c w ≡ (say Report.invalid_format c, w)
  unfolding execute
  execute-refused Command.unknown num tokens c w h = refl
  execute-refused Command.help num tokens c w h = absurd (ground arith)
  execute-refused Command.exit num tokens c w h = absurd (ground arith)
  execute-refused Command.noop num tokens c w h = rw (h) refl
  execute-refused Command.hk num tokens c w h = rw (h) refl
  execute-refused Command.cfg num tokens c w h = rw (h) refl
  execute-refused Command.send num tokens c w h = rw (h) refl
  execute-refused Command.receive num tokens c w h = rw (receive-one num h, receive-num num h) refl
  execute-refused Command.power_on num tokens c w h = rw (h) refl
  execute-refused Command.power_off num tokens c w h = rw (h) refl

  refused-is_exit : (cmd : Command) (num : ℕ) → accepts cmd num ≡ false → is_exit cfg hw cmd ≡ false
  refused-is_exit Command.exit num h = absurd (ground arith)
  refused-is_exit Command.unknown num h = refl
  refused-is_exit Command.help num h = refl
  refused-is_exit Command.noop num h = refl
  refused-is_exit Command.hk num h = refl
  refused-is_exit Command.cfg num h = refl
  refused-is_exit Command.send num h = refl
  refused-is_exit Command.receive num h = refl
  refused-is_exit Command.power_on num h = refl
  refused-is_exit Command.power_off num h = refl

  -- An unknown command, or one with a number of arguments that it does not take, is reported as
  -- invalid, and the interrupt line is looked at; nothing else is done and the loop goes on.
  pub process_command-refused :
      (cmd : Command) (num : ℕ) (tokens : List ℕ) (c : Cli) (w : W)
      → accepts cmd num ≡ false
      → process_command cfg hw cmd num tokens c w ≡ (
          let (c', w') = report_interrupt cfg hw (say Report.invalid_format c) w in (false, c', w'))
  unfolding process_command
  process_command-refused cmd num tokens c w h =
      rw (execute-refused cmd num tokens c w h, refused-is_exit cmd num h) refl
