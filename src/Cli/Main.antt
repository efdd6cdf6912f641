-- ===== src/Cli/Main.antt =====
-- `main` in cli/radio_cli.c. The standard input is the list of bytes that it will give.
use tryspace_comp_radio.Base.{
  ℕ, zero, suc, ◌-◌, Bool, false, Option, none, some, List, [], ◌∷◌, ◌==◌, if◌then◌else◌,
}
use tryspace_comp_radio.Hardware.{Hardware, DeviceConfig, closed, opened, input, output, Spi, Gpio}
use tryspace_comp_radio.Device.{os_success, os_error, Done, done, init_device, power_on, power_off}
use tryspace_comp_radio.App.State.{target}
use tryspace_comp_radio.Cli.Tokens.{max_input_buf, tokenize}
use tryspace_comp_radio.Cli.Execute.{Cli, Report, say, process_command}

-- `fgets`: up to `n` bytes, with the newline that ends the line, and what is left of the input.
abbrev pub fgets : ℕ → List ℕ → List ℕ × List ℕ
fgets zero s = ([], s)
fgets (suc n) [] = ([], [])
fgets (suc n) (c ∷ s) =
    let (line, rest) = fgets n s in if c == 10 then (c ∷ [], s) else (c ∷ line, rest)

module _ {W : Type 0} (cfg : DeviceConfig) (hw : Hardware W) (last : ℕ) where
  -- A turn of the loop with a line: whether the loop ends, the rows and the rest of the state.
  unfoldable pub handle_line : List ℕ → List ℕ → Cli → W → Bool × List ℕ × Cli × W
  handle_line line memory c w = elim (tokenize last line memory) [
    | none ↦ (false, memory, c, w)
    | some (cmd, num, memory') ↦
        let (ends, c', w') = process_command cfg hw cmd num memory' c w in (ends, memory', c', w')
  ]

  -- The loop. `none` says that the turns were not enough.
  unfoldable pub repl : ℕ → List ℕ → List ℕ → Cli → W → Option (Cli × W)
  repl zero stdin memory c w = none
  repl (suc turns) [] memory c w = some (c, w)
  repl (suc turns) (b ∷ stdin) memory c w =
      let (line, rest) = fgets (max_input_buf - 1) (b ∷ stdin) in
      let (ends, memory', c', w') = handle_line line memory c w in
      let next = repl turns rest memory' c' w' in if ends then some (c', w') else next

  -- The start: the handles, the device, and its power. The status is that of the last step.
  unfoldable pub start : Cli → W → Done × Cli × W
  start c w =
      let spi : Spi = record { bus = cfg.spi_bus; cs = cfg.spi_cs; is_open = closed } in
      let power : Gpio = record {
        pin = cfg.gpio_power_pin;
        direction = output;
        is_open = closed;
      } in
      let interrupt = record (c.interrupt_gpio) {
        pin = cfg.gpio_interrupt_pin;
        direction = input;
      } in
      let (inited, spi', power', interrupt', w₁) =
        init_device cfg hw (some spi) (some power) (some interrupt) w in
      let c₁ = record c {
        spi = target spi' spi;
        power_gpio = target power' power;
        interrupt_gpio = target interrupt' interrupt;
      } in
      let (powered, w₂) = power_on cfg hw (some c₁.power_gpio) w₁ in
      elim inited [ os_error ↦ (os_error, c₁, w₁) | os_success _ ↦ (powered, c₁, w₂) ]

  -- The end: each open device is closed. The power pin is driven low and marked closed.
  unfoldable pub shut : Cli → W → Cli × W
  shut c w =
      let (spi', w₁) : Spi × W = elim c.spi.is_open [
        | opened ↦ let (s, v) = hw.spi_close_device c.spi w in (record s { is_open = closed }, v)
        | closed ↦ (c.spi, w)
      ] in
      let (power', w₂) : Gpio × W = elim c.power_gpio.is_open [
        | opened ↦ (
          record (c.power_gpio) { is_open = closed },
          (power_off cfg hw (some c.power_gpio) w₁).1,
        )
        | closed ↦ (c.power_gpio, w₁)
      ] in
      let (interrupt', w₃) : Gpio × W = elim c.interrupt_gpio.is_open [
        | opened ↦
            let (g, v) = hw.gpio_close c.interrupt_gpio w₂ in (record g { is_open = closed }, v)
        | closed ↦ (c.interrupt_gpio, w₂)
      ] in
      (record c { spi = spi'; power_gpio = power'; interrupt_gpio = interrupt' }, w₃)

  -- main, with the globals and the rows as they are at the start. The help is printed in any case,
  -- the loop is entered only if the radio is on.
  unfoldable pub run_main : ℕ → List ℕ → List ℕ → Cli → W → Option (Done × Cli × W)
  run_main turns stdin memory c w =
      let (status, c₁, w₁) = start c w in
      let c₂ = say Report.help_text c₁ in
      let looped = repl turns stdin memory c₂ w₁ in
      elim status [
        | os_error ↦ let (c', w') = shut c₂ w₁ in some (os_error, c', w')
        | os_success _ ↦ elim looped [
          | none ↦ none
          | some (c₃, w₃) ↦ let (c', w') = shut c₃ w₃ in some (done, c', w')
        ]
      ]
