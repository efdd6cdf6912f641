-- ===== src/Cli/Execute.antt =====
-- `process_command` in cli/radio_cli.c. What it prints is kept as a list of reports, without the
-- wording.
use tryspace_comp_radio.Base.{
  ℕ, ◌-◌, ◌%◌, Bool, true, false, none, some, List, [], ◌∷◌, ◌++◌, ltb, ◌==◌, if◌then◌else◌, length,
}
use tryspace_comp_radio.Hardware.{Hardware, DeviceConfig, Spi, Gpio}
use tryspace_comp_radio.Device.{
  os_success, os_error, Done, DeviceHk, RadioConfig, valid, noop_cmd, max_payload_size,
  command_device, request_hk, set_configuration, send_data, receive_data, power_on, power_off,
  check_interrupt,
}
use tryspace_comp_radio.Cli.Text.{cstr, strncpy, atoi, to_uint8, to_uint16}
use tryspace_comp_radio.Cli.Tokens.{Command, token}

-- What a command prints: the help, "Invalid command format", that it succeeded or failed, the bytes
-- received, that the interrupt is active.
pub data Report : Type 0 where
  help_text invalid_format interrupt_active : Report
  success failure : Command → Report
  received : List ℕ → Report

-- The globals of the program, and what it printed.
pub record Cli : Type 0 where
  pub spi : Spi
  pub power_gpio : Gpio
  pub interrupt_gpio : Gpio
  pub hk : DeviceHk
  pub config : RadioConfig
  pub printed : List Report

abbrev pub say : Report → Cli → Cli
say r c = record c { printed = c.printed ++ r ∷ [] }

-- A command that hands back no more than its status.
abbrev pub say_status : Command → Done → Cli → Cli
say_status cmd (os_success _) c = say (success cmd) c
say_status cmd os_error c = say (failure cmd) c

-- The settings of CMD_CFG, each `(uint8_t) atoi(tokens[i])`.
unfoldable pub settings_of : List ℕ → RadioConfig
unfolding token atoi
settings_of tokens = record {
  mode = to_uint8 (atoi (token 0 tokens));
  rx_speed_setting = to_uint8 (atoi (token 1 tokens));
  rx_wavelength_setting = to_uint8 (atoi (token 2 tokens));
  tx_speed_setting = to_uint8 (atoi (token 3 tokens));
  tx_wavelength_setting = to_uint8 (atoi (token 4 tokens));
}

-- The `send_data` array of CMD_SEND.
unfoldable pub send_buffer : List ℕ → List ℕ
unfolding token
send_buffer tokens = strncpy (max_payload_size - 1) (token 0 tokens) ++ 0 ∷ []

-- The `max_length` of CMD_RECEIVE with one argument.
unfoldable pub receive_length : List ℕ → ℕ
unfolding token atoi
receive_length tokens =
    let max_length = to_uint16 (atoi (token 0 tokens)) in
    if ltb max_payload_size max_length then max_payload_size else max_length

module _ {W : Type 0} (cfg : DeviceConfig) (hw : Hardware W) where
  -- check_number_arguments, and what is done if the number fits.
  abbrev pub with_arguments : ℕ → ℕ → Cli → W → Cli × W → Cli × W
  with_arguments actual expected c w done =
      if actual == expected then done else (say Report.invalid_format c, w)

  -- CMD_RECEIVE with a length.
  unfoldable pub execute_receive : ℕ → Cli → W → Cli × W
  execute_receive max_length c w =
      let (status, w') = receive_data cfg hw (some c.spi) valid max_length w in
      elim status [
        | os_success bytes ↦ (say (Report.received bytes) (say (success Command.receive) c), w')
        | os_error ↦ (say (failure Command.receive) c, w')
      ]

  -- CMD_HK, CMD_CFG and CMD_SEND behind the check of their arguments.
  unfoldable pub execute_hk : Cli → W → Cli × W
  execute_hk c w =
      let (status, w') = request_hk cfg hw (some c.spi) valid w in
      elim status [
        | os_success hk ↦ (say (success Command.hk) (record c { hk = hk }), w')
        | os_error ↦ (say (failure Command.hk) c, w')
      ]

  unfoldable pub execute_cfg : List ℕ → Cli → W → Cli × W
  execute_cfg tokens c w =
      let config = settings_of tokens in
      let (status, w') = set_configuration cfg hw (some c.spi) (some config) w in
      (say_status Command.cfg status (record c { config = config }), w')

  unfoldable pub execute_send : List ℕ → Cli → W → Cli × W
  execute_send tokens c w =
      let buffer = send_buffer tokens in
      let (status, w') =
        send_data cfg hw (some c.spi) (some buffer) (length (cstr buffer) % 65536) w in
      (say_status Command.send status c, w')

  -- The switch.
  unfoldable pub execute : Command → ℕ → List ℕ → Cli → W → Cli × W
  execute Command.help num tokens c w = (say Report.help_text c, w)
  execute Command.exit num tokens c w = (c, w)
  execute Command.noop num tokens c w =
      let (status, w') = command_device cfg hw (some c.spi) noop_cmd 0 none w in
      with_arguments num 0 c w (say_status Command.noop status c, w')
  execute Command.hk num tokens c w = with_arguments num 0 c w (execute_hk c w)
  execute Command.cfg num tokens c w = with_arguments num 5 c w (execute_cfg tokens c w)
  execute Command.send num tokens c w = with_arguments num 1 c w (execute_send tokens c w)
  execute Command.receive num tokens c w =
      if num == 1
      then execute_receive (receive_length tokens) c w
      else if ltb 1 num
      then (say Report.invalid_format c, w)
      else execute_receive 64 c w
  execute Command.power_on num tokens c w =
      let (status, w') = power_on cfg hw (some c.power_gpio) w in
      with_arguments num 0 c w (say_status Command.power_on status c, w')
  execute Command.power_off num tokens c w =
      let (status, w') = power_off cfg hw (some c.power_gpio) w in
      with_arguments num 0 c w (say_status Command.power_off status c, w')
  execute Command.unknown num tokens c w = (say Report.invalid_format c, w)

  -- The look at the interrupt line behind the switch.
  unfoldable pub report_interrupt : Cli → W → Cli × W
  report_interrupt c w =
      let (status, w') = check_interrupt cfg hw (some c.interrupt_gpio) valid w in
      elim status [
        | os_success value ↦ (if value == 0 then c else say Report.interrupt_active c, w')
        | os_error ↦ (c, w')
      ]

  abbrev pub is_exit : Command → Bool
  is_exit Command.exit = true
  is_exit _ = false

  -- process_command. The flag says that its status is OS_ERROR, which is how `exit` ends the loop.
  unfoldable pub process_command : Command → ℕ → List ℕ → Cli → W → Bool × Cli × W
  process_command cmd num tokens c w =
      let (c₁, w₁) = execute cmd num tokens c w in
      let (c₂, w₂) = report_interrupt c₁ w₁ in (is_exit cmd, c₂, w₂)
