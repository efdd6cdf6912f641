-- ===== src/App/Commands.antt =====
-- The ground commands of src/radio_app.c that do not move data: reset, enable, disable, configure,
-- the length check, and the housekeeping report.
pub mod Device
pub mod Linked
use tryspace_comp_radio.Base.{
  ℕ, Bool, true, false, ◌&&◌, ◌||◌, not, some, List, ltb, ◌==◌, if◌then◌else◌,
}
use tryspace_comp_radio.Hardware.{Spi, Gpio, Handle, closed, opened, input, output}
use tryspace_comp_radio.Device.{
  Status, os_success, os_error, DeviceHk, valid, mode_duplex, init_device, power_on, power_off,
  request_hk, set_configuration, RadioConfig,
}
use tryspace_comp_radio.Env.{Env, Message}
use tryspace_comp_radio.App.State.{
  App, Hk, Output, event, hk_packet, information, error, device_disabled, device_enabled, send,
  inc_command_count, inc_command_error, inc_device_count, inc_device_error, target,
}
use tryspace_comp_radio.App.Eid

-- RADIO_VerifyCmdLength: whether the length fits, and the state after.
unfoldable pub verify_cmd_length : Message → ℕ → App → Bool × App
verify_cmd_length msg expected_length a =
    if not (expected_length == msg.size)
    then (false, inc_command_error (send (event Eid.len_err error) a))
    else (true, a)

-- RADIO_ResetCounters
unfoldable pub reset_counters : App → App
reset_counters a = send (event Eid.cmd_reset_inf information) (record a {
  hk = record (a.hk) {
    command_error_count = 0;
    command_count = 0;
    device_error_count = 0;
    device_count = 0;
  };
})

module _ {W : Type 0} (env : Env W) where
  -- The handles as RADIO_AppInit and RADIO_Enable set them up.
  unfoldable pub setup_handles : App → App
  setup_handles a = record a {
    spi = record { bus = env.cfg.spi_bus; cs = env.cfg.spi_cs; is_open = closed };
    power_gpio = record { pin = env.cfg.gpio_power_pin; direction = output; is_open = closed };
    interrupt_gpio = record {
      pin = env.cfg.gpio_interrupt_pin;
      direction = input;
      is_open = closed;
    };
  }

  -- RADIO_Enable behind RADIO_InitDevice and RADIO_PowerOn.
  unfoldable pub enable_done : Status (Unit {0}) → App → App
  enable_done (os_success _) a =
      send (event Eid.enable_inf information)
        (inc_device_count (record a { hk = record (a.hk) { device_enabled = device_enabled } }))
  enable_done os_error a = send (event Eid.enable_err error) (inc_device_error a)

  -- RADIO_Enable
  unfoldable pub enable : App → W → App × W
  unfolding setup_handles enable_done
  enable a w =
      let a₁ = setup_handles (inc_command_count a) in
      let (inited, spi', power', interrupt', w₁) =
        init_device env.cfg env.hw (some a₁.spi) (some a₁.power_gpio) (some a₁.interrupt_gpio) w in
      let a₂ = record a₁ {
        spi = target spi' a₁.spi;
        power_gpio = target power' a₁.power_gpio;
        interrupt_gpio = target interrupt' a₁.interrupt_gpio;
      } in
      let (powered, w₂) = power_on env.cfg env.hw (some a₂.power_gpio) w₁ in
      let (a', w') : App × W = elim inited [
        | os_error ↦ (enable_done os_error a₂, w₁)
        | os_success _ ↦ (enable_done powered a₂, w₂)
      ] in
      if a.hk.device_enabled == device_disabled
      then (a', w')
      else (send (event Eid.enable_err error) (inc_command_error a), w)

  -- `if (isOpen) { spi_close_device(..); isOpen = CLOSED; }`
  unfoldable pub close_spi : Spi → W → Spi × W
  close_spi spi w =
      let (spi', w') = env.hw.spi_close_device spi w in
      elim spi.is_open [ opened ↦ (record spi' { is_open = closed }, w') | closed ↦ (spi, w) ]

  -- The same for a GPIO pin.
  unfoldable pub close_gpio : Gpio → W → Gpio × W
  close_gpio gpio w =
      let (gpio', w') = env.hw.gpio_close gpio w in
      elim gpio.is_open [ opened ↦ (record gpio' { is_open = closed }, w') | closed ↦ (gpio, w) ]

  -- RADIO_Disable. The status of RADIO_PowerOff is not looked at.
  unfoldable pub disable : App → W → App × W
  unfolding close_spi close_gpio
  disable a w =
      let a₁ = inc_command_count a in
      let (_, w₁) = power_off env.cfg env.hw (some a₁.power_gpio) w in
      let (spi', w₂) = close_spi a₁.spi w₁ in
      let (power', w₃) = close_gpio a₁.power_gpio w₂ in
      let (interrupt', w₄) = close_gpio a₁.interrupt_gpio w₃ in
      if a.hk.device_enabled == device_enabled
      then (
        send (event Eid.disable_inf information) (
            inc_device_count (record a₁ {
              spi = spi';
              power_gpio = power';
              interrupt_gpio = interrupt';
              hk = record (a₁.hk) { device_enabled = device_disabled };
            })),
        w₄,
      )
      else (send (event Eid.disable_err error) (inc_command_error a), w)

  -- The end of RADIO_Configure, by the device's status.
  unfoldable pub configure_done : Status (Unit {0}) → App → App
  configure_done (os_success _) a = send (event Eid.cmd_config_inf information) (inc_device_count a)
  configure_done os_error a = send (event Eid.cmd_config_dev_err error) (inc_device_error a)

  -- The configuration that a command carries.
  abbrev pub device_cfg : Message → RadioConfig
  device_cfg msg = record {
    mode = msg.cfg_mode;
    rx_speed_setting = msg.cfg_rx_speed;
    rx_wavelength_setting = msg.cfg_rx_wavelength;
    tx_speed_setting = msg.cfg_tx_speed;
    tx_wavelength_setting = msg.cfg_tx_wavelength;
  }

  -- RADIO_Configure: both checks are made, each with its own error count and event.
  unfoldable pub configure : Message → App → W → App × W
  unfolding configure_done
  configure msg a w =
      let is_disabled = not (a.hk.device_enabled == device_enabled) in
      let is_invalid = ltb mode_duplex msg.cfg_mode in
      let a₁ =
        if is_disabled then send (event Eid.cmd_config_en_err error) (inc_command_error a) else a in
      let a₂ =
        if is_invalid
        then send (event Eid.cmd_config_val_err error) (inc_command_error a₁)
        else a₁ in
      let (device_status, w') =
        set_configuration env.cfg env.hw (some a₂.spi) (some (device_cfg msg)) w in
      if is_disabled || is_invalid
      then (a₂, w)
      else (configure_done device_status (inc_command_count a₂), w')

  -- RADIO_ReportHousekeeping. The time stamp of the packet is left out.
  unfoldable pub report_housekeeping : App → W → App × W
  report_housekeeping a w =
      let (status, w₁) = request_hk env.cfg env.hw (some a.spi) valid w in
      let a₁ : App = elim status [
        | os_success device_hk ↦
            inc_device_count (record a { hk = record (a.hk) { device_hk = device_hk } })
        | os_error ↦ send (event Eid.req_hk_err error) (inc_device_error a)
      ] in
      if a.hk.device_enabled == device_enabled
      then (send (hk_packet a₁.hk) a₁, w₁)
      else (send (hk_packet a.hk) a, w)
