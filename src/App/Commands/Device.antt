-- ===== src/App/Commands/Device.antt =====
-- Enabling, disabling and configuring the device (RADIO_Enable, RADIO_Disable, RADIO_Configure in
-- src/radio_app.c): what the outcome depends on, and what is left of the device.
use tryspace_comp_radio.Base.{
  ◌<◌, ◌≡◌, ◌≢◌, refl, ◌⊎◌, inl, inr, true, false, some, [], ◌∷◌, ◌++◌, arith, ◌==◌, ltb,
  if◌then◌else◌, inc8, lt→ltb, Bool-cases,
}
use tryspace_comp_radio.Hardware.{Spi, Gpio, Handle, closed, opened}
use tryspace_comp_radio.Device.{os_success, os_error, Done, done, init_device, power_on, power_off}
use tryspace_comp_radio.Env.{Env, Message}
use tryspace_comp_radio.App.Eid
use tryspace_comp_radio.App.State.{App, event, information, error, send, inc_command_error, target}
use tryspace_comp_radio.App.Uplink.Service.Buffer.{Status-cases}
use tryspace_comp_radio.App.Commands.{
  setup_handles, enable_done, enable, close_spi, close_gpio, disable, configure,
}

module _ {W : Type 0} (env : Env W) where
  Handle-cases : (h : Handle) → (h ≡ closed) ⊎ (h ≡ opened)
  Handle-cases closed = inl refl
  Handle-cases opened = inr refl

  close_spi-closed : (spi : Spi) (w : W) → (close_spi env spi w).0.is_open ≡ closed
  unfolding close_spi
  close_spi-closed spi w = elim (Handle-cases spi.is_open) [
    | inl shut ↦ rw (shut, close_spi) shut
    | inr open_ ↦ rw (open_, close_spi) refl
  ]

  close_gpio-closed : (gpio : Gpio) (w : W) → (close_gpio env gpio w).0.is_open ≡ closed
  unfolding close_gpio
  close_gpio-closed gpio w = elim (Handle-cases gpio.is_open) [
    | inl shut ↦ rw (shut, close_gpio) shut
    | inr open_ ↦ rw (open_, close_gpio) refl
  ]

  -- Whatever the hardware answers, disabling an enabled device leaves it disabled with its three
  -- handles closed, counts one command and one device operation, and reports it.
  pub disable-closed :
      (a : App) (w : W)
      → a.hk.device_enabled ≡ 1
      → let a' = (disable env a w).0 in
        (a'.hk.device_enabled ≡ 0)
        × (a'.spi.is_open ≡ closed)
        × (a'.power_gpio.is_open ≡ closed)
        × (a'.interrupt_gpio.is_open ≡ closed)
        × (a'.hk.command_count ≡ inc8 a.hk.command_count)
        × (a'.hk.device_count ≡ inc8 a.hk.device_count)
        × (a'.out ≡ a.out ++ (event Eid.disable_inf information ∷ []))
  unfolding disable
  disable-closed a w on =
      let w₁ = (power_off env.cfg env.hw (some a.power_gpio) w).1 in
      let (_, w₂) = close_spi env a.spi w₁ in
      let (_, w₃) = close_gpio env a.power_gpio w₂ in
      rw on (
        refl,
        close_spi-closed a.spi w₁,
        close_gpio-closed a.power_gpio w₂,
        close_gpio-closed a.interrupt_gpio w₃,
        refl,
        refl,
        refl,
      )

  -- Bringing the device up: the devices of RADIO_Enable, initialised and powered, and the status of
  -- the first step that fails.
  abbrev pub bring_up : App → W → Done
  bring_up a w =
      let a₁ = setup_handles env a in
      let (inited, _, power', _, w₁) =
        init_device env.cfg env.hw (some a₁.spi) (some a₁.power_gpio) (some a₁.interrupt_gpio) w in
      elim inited [
        | os_error ↦ os_error
        | os_success _ ↦ (power_on env.cfg env.hw (some (target power' a₁.power_gpio)) w₁).0
      ]

  -- A disabled device becomes enabled exactly if it comes up; the command is counted, and either
  -- the device operation or the device error, with the event that says so.
  pub enable-bring_up :
      (a : App) (w : W)
      → a.hk.device_enabled ≡ 0
      → let a' = (enable env a w).0 in
        let up = bring_up a w in
        ((up ≡ done)
          × (a'.hk.device_enabled ≡ 1)
          × (a'.hk.device_count ≡ inc8 a.hk.device_count)
          × (a'.hk.command_count ≡ inc8 a.hk.command_count)
          × (a'.out ≡ a.out ++ (event Eid.enable_inf information ∷ [])))
        ⊎ ((up ≡ os_error)
            × (a'.hk.device_enabled ≡ 0)
            × (a'.hk.device_error_count ≡ inc8 a.hk.device_error_count)
            × (a'.hk.command_count ≡ inc8 a.hk.command_count)
            × (a'.out ≡ a.out ++ (event Eid.enable_err error ∷ [])))
  unfolding enable setup_handles enable_done
  enable-bring_up a w off =
      let a₁ = setup_handles env a in
      let (inited, _, power', _, w₁) =
        init_device env.cfg env.hw (some a₁.spi) (some a₁.power_gpio) (some a₁.interrupt_gpio) w in
      let powered = (power_on env.cfg env.hw (some (target power' a₁.power_gpio)) w₁).0 in
      let test : (a.hk.device_enabled == 0) ≡ true = ground arith in
      elim (Status-cases inited) [
        | inl failed ↦ rw (test, failed, bring_up) (inr (refl, off, refl, refl, refl))
        | inr (_, ok) ↦ elim (Status-cases powered) [
          | inl failed ↦ rw (test, ok, failed, bring_up) (inr (refl, off, refl, refl, refl))
          | inr (_, on) ↦ rw (test, ok, on, bring_up) (inl (refl, refl, refl, refl, refl))
        ]
      ]

  -- An enabled device is not brought up again: the command is an error, and neither the hardware
  -- nor a handle is touched.
  pub enable-refused :
      (a : App) (w : W)
      → a.hk.device_enabled ≢ 0
      → enable env a w ≡ (send (event Eid.enable_err error) (inc_command_error a), w)
  unfolding enable
  enable-refused a w on =
      let test : (a.hk.device_enabled == 0) ≡ false = ground arith in rw test refl

  -- A disabled device is not taken down: the command is an error, and neither the hardware nor a
  -- handle is touched.
  pub disable-refused :
      (a : App) (w : W)
      → a.hk.device_enabled ≢ 1
      → disable env a w ≡ (send (event Eid.disable_err error) (inc_command_error a), w)
  unfolding disable
  disable-refused a w off =
      let test : (a.hk.device_enabled == 1) ≡ false = ground arith in rw test refl

  -- A configuration is refused if the device is not enabled or the mode is above duplex. Each of
  -- the two reasons is counted and reported on its own, and the radio is not written to.
  pub configure-refused :
      (msg : Message) (a : App) (w : W)
      → a.hk.device_enabled ≢ 1 ⊎ (3 < msg.cfg_mode)
      → let a₁ = send (event Eid.cmd_config_en_err error) (inc_command_error a) in
        configure env msg a w ≡ (
          if a.hk.device_enabled == 1
          then (send (event Eid.cmd_config_val_err error) (inc_command_error a), w)
          else if ltb 3 msg.cfg_mode
          then (send (event Eid.cmd_config_val_err error) (inc_command_error a₁), w)
          else (a₁, w))
  unfolding configure
  configure-refused msg a w (inl off) =
      let test : (a.hk.device_enabled == 1) ≡ false = ground arith in
      elim (Bool-cases (ltb 3 msg.cfg_mode)) [
        | inl bad ↦ rw (test, bad) refl
        | inr good ↦ rw (test, good) refl
      ]
  configure-refused msg a w (inr h) =
      let bad : ltb 3 msg.cfg_mode ≡ true = lt→ltb 3 msg.cfg_mode h in
      elim (Bool-cases (a.hk.device_enabled == 1)) [
        | inl on ↦ rw (on, bad) refl
        | inr off ↦ rw (off, bad) refl
      ]
