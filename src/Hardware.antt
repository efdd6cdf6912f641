-- ===== src/Hardware.antt =====
-- The hardware library (hwlib: libspi, libgpio) and OS services that `shared/radio_device.c` calls.
-- They are not part of the repository: their operations over a state `W` of the world outside the
-- program are fields of a record, which the driver takes as a parameter.
use tryspace_comp_radio.Base.{ℕ, ◌≡◌, Option, List, ℤ, length}

-- `isOpen` of `spi_info_t` and `gpio_info_t`.
pub data Handle : Type 0 where
  closed opened : Handle

-- `direction` of `gpio_info_t`.
pub data Direction : Type 0 where
  input output : Direction

pub record Spi : Type 0 where
  pub bus : ℕ
  pub cs : ℕ
  pub is_open : Handle

pub record Gpio : Type 0 where
  pub pin : ℕ
  pub direction : Direction
  pub is_open : Handle

-- The constants of the generated header device_cfg.h, one for each line of its template.
pub record DeviceConfig : Type 0 where
  pub spi_bus : ℕ
  pub spi_cs : ℕ
  pub gpio_power_pin : ℕ
  pub gpio_interrupt_pin : ℕ
  pub buffer_size : ℕ
  pub interrupt_threshold : ℕ
  pub ms_timeout : ℕ
  pub max_rx_msgs_per_poll : ℕ
  pub max_tx_msgs_per_poll : ℕ
  pub max_subscriptions : ℕ

-- An operation that takes a pointer to a handle returns the handle as it leaves it. `spi_read`
-- returns its status with the bytes that it stored from the start of the caller's array.
pub record Hardware (W : Type 0) : Type 0 where
  pub spi_success : ℤ
  pub gpio_success : ℤ
  pub spi_init_dev : Spi → W → ℤ × Spi × W
  pub spi_write : Spi → List ℕ → W → ℤ × W
  pub spi_read : Spi → ℕ → W → ℤ × List ℕ × W
  pub spi_close_device : Spi → W → Spi × W
  pub gpio_init : Gpio → W → ℤ × Gpio × W
  pub gpio_write : Gpio → ℕ → W → ℤ × W
  pub gpio_read : Gpio → W → ℤ × ℕ × W
  pub gpio_close : Gpio → W → Gpio × W
  pub os_task_delay : ℕ → W → W
  -- What a call comes to that wrote behind the end of a local array, which C leaves undefined: it may
  -- hand back bytes or not, and leave the world in any state.
  pub overrun : W → Option (List ℕ) × W
  -- What an uninitialised local array of 2048 bytes happens to hold.
  pub stack : W → List ℕ
  pub length-stack : (w : W) → length (stack w) ≡ 2048
