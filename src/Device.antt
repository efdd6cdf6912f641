-- ===== src/Device.antt =====
-- shared/radio_device.h and shared/radio_device.c: the driver of the radio over SPI and two GPIO
-- pins. A pointer argument that may be NULL is an `Option`, or a `Pointer` where only its being NULL
-- matters; what a function writes through an out pointer is part of its result. Console output
-- (`OS_printf`) is left out.
use tryspace_comp_radio.Base.{
  ℕ, ◌+◌, ◌-◌, ◌*◌, ◌/◌, ◌<◌, ◌≡◌, Bool, true, false, ◌&&◌, ◌||◌, not, Option, none, some, List, [],
  ◌∷◌, ℤ, pos, negsuc, eq_int, ltb, leb, ◌==◌, if◌then◌else◌, length, get_or, set, take, drop,
  memcpy, byte_at, be16, be32,
}
use tryspace_comp_radio.Hardware.{Hardware, Spi, Gpio, DeviceConfig}
pub mod Packet
pub mod Commands

-- OS_SUCCESS with what the function hands back, or OS_ERROR.
pub data Status (A : Type 0) : Type 0 where
  os_success : A → Status A
  os_error : Status A

pub data Pointer : Type 0 where
  null valid : Pointer

abbrev pub device_hdr : ℕ
device_hdr = 0xAA

abbrev pub device_trailer : ℕ
device_trailer = 0x11

abbrev pub noop_cmd : ℕ
noop_cmd = 0

abbrev pub req_hk_cmd : ℕ
req_hk_cmd = 1

abbrev pub set_cfg_cmd : ℕ
set_cfg_cmd = 2

abbrev pub receive_cmd : ℕ
receive_cmd = 3

abbrev pub send_cmd : ℕ
send_cmd = 4

abbrev pub mode_sleep : ℕ
mode_sleep = 0

abbrev pub mode_tx : ℕ
mode_tx = 1

abbrev pub mode_rx : ℕ
mode_rx = 2

abbrev pub mode_duplex : ℕ
mode_duplex = 3

abbrev pub max_payload_size : ℕ
max_payload_size = 1024

abbrev pub cfg_payload_size : ℕ
cfg_payload_size = 5

-- RADIO_DEVICE_HK_SIZE: the 20 bytes of the packed structure, header and trailer.
abbrev pub hk_size : ℕ
hk_size = 22

-- RADIO_Device_HK_tlm_t
pub record DeviceHk : Type 0 where
  pub command_counter : ℕ
  pub mode : ℕ
  pub ground_lock : ℕ
  pub rx_speed_setting : ℕ
  pub rx_wavelength_setting : ℕ
  pub tx_speed_setting : ℕ
  pub tx_wavelength_setting : ℕ
  pub bytes_in_rx_buffer : ℕ
  pub bytes_received : ℕ
  pub bytes_sent : ℕ

-- RADIO_Device_Config_t
pub record RadioConfig : Type 0 where
  pub mode : ℕ
  pub rx_speed_setting : ℕ
  pub rx_wavelength_setting : ℕ
  pub tx_speed_setting : ℕ
  pub tx_wavelength_setting : ℕ

-- The size of `tx_buffer` and of `rx_buffer`.
abbrev pub buffer_bytes : ℕ
buffer_bytes = 2048

-- `memcpy(&tx_buffer[4], payload, payload_len)`, unless `payload` is NULL.
unfoldable pub copy_payload : List ℕ → ℕ → Option (List ℕ) → List ℕ
copy_payload tx_buffer payload_len none = tx_buffer
copy_payload tx_buffer payload_len (some payload) = memcpy tx_buffer 4 (take payload_len payload)

-- The writes of RADIO_CommandDevice into `tx_buffer`: four bytes, the payload if there is one, and
-- the trailer behind it. The result is what goes to `spi_write`.
unfoldable pub build_packet : List ℕ → ℕ → ℕ → Option (List ℕ) → List ℕ
unfolding copy_payload
build_packet tx_buffer cmd payload_len payload = take (5 + payload_len) (
    set
      (copy_payload
        (memcpy tx_buffer 0 (device_hdr ∷ cmd ∷ byte_at 1 payload_len ∷ byte_at 0 payload_len ∷ []))
        payload_len payload)
      (4 + payload_len) device_trailer)

-- The fields that RADIO_RequestHK reads from `rx_buffer`.
unfoldable pub parse_hk : List ℕ → DeviceHk
parse_hk rx = record {
  command_counter = be16 (get_or rx 1 0) (get_or rx 2 0);
  mode = get_or rx 3 0;
  ground_lock = get_or rx 4 0;
  rx_speed_setting = get_or rx 5 0;
  rx_wavelength_setting = get_or rx 6 0;
  tx_speed_setting = get_or rx 7 0;
  tx_wavelength_setting = get_or rx 8 0;
  bytes_in_rx_buffer = be32 (get_or rx 9 0) (get_or rx 10 0) (get_or rx 11 0) (get_or rx 12 0);
  bytes_received = be32 (get_or rx 13 0) (get_or rx 14 0) (get_or rx 15 0) (get_or rx 16 0);
  bytes_sent = be32 (get_or rx 17 0) (get_or rx 18 0) (get_or rx 19 0) (get_or rx 20 0);
}

-- What RADIO_RequestHK makes of the status of `spi_read` and of `rx_buffer`.
unfoldable pub check_hk : ℤ → List ℕ → Status DeviceHk
unfolding parse_hk
check_hk status rx =
    if not (eq_int status (pos hk_size))
    then os_error
    else if not (get_or rx 0 0 == device_hdr) || not (get_or rx (hk_size - 1) 0 == device_trailer)
    then os_error
    else os_success (parse_hk rx)

-- The checks of RADIO_ReceiveData on `bytes_read` bytes in `rx_buffer`, and the payload that it
-- copies out. `*actual_length` is the payload's length.
unfoldable pub check_received : ℕ → ℕ → List ℕ → Status (List ℕ)
check_received max_length bytes_read rx =
    let response_len = be16 (get_or rx 1 0) (get_or rx 2 0) in
    let trailer_index = 3 + response_len in
    if leb bytes_read 0
    then os_error
    else if ltb bytes_read 4
    then os_error
    else if not (get_or rx 0 0 == device_hdr)
    then os_error
    else if ltb max_length response_len
    then os_error
    else if leb bytes_read trailer_index
    then os_error
    else if not (get_or rx trailer_index 0 == device_trailer)
    then os_error
    else os_success (take response_len (drop 3 rx))

-- A function that hands back its status alone.
abbrev pub Done : Type 0
Done = Status (Unit {0})

abbrev pub done : Done
done = os_success tt

-- The two tests of a library's status against its success constant.
abbrev pub done_if : Bool → Done
done_if true = done
done_if false = os_error

abbrev pub to_status : {A : Type 0} → Option A → Status A
to_status none = os_error
to_status (some x) = os_success x

module _ {W : Type 0} (cfg : DeviceConfig) (hw : Hardware W) where
  open hw use {
    spi_success, gpio_success, spi_init_dev, spi_write, spi_read, gpio_init, gpio_write, gpio_read,
    os_task_delay, stack, overrun,
  }

  -- The part of RADIO_InitDevice for the SPI device.
  unfoldable pub init_spi : Option Spi → W → Done × Option Spi × W
  init_spi none w = (done, none, w)
  init_spi (some spi) w =
      let (status, spi', w') = spi_init_dev spi w in
      (done_if (eq_int status spi_success), some spi', w')

  -- Its part for a GPIO pin, which is there twice.
  unfoldable pub init_gpio : Option Gpio → W → Done × Option Gpio × W
  init_gpio none w = (done, none, w)
  init_gpio (some gpio) w =
      let (status, gpio', w') = gpio_init gpio w in
      (done_if (eq_int status gpio_success), some gpio', w')

  -- RADIO_InitDevice: it returns at the first device that fails, with the handles as they are then.
  unfoldable pub init_device :
      Option Spi → Option Gpio → Option Gpio → W → Done × Option Spi × Option Gpio × Option Gpio × W
  init_device spi power interrupt w =
      let (s₁, spi', w₁) = init_spi spi w in
      let (s₂, power', w₂) = init_gpio power w₁ in
      let (s₃, interrupt', w₃) = init_gpio interrupt w₂ in
      elim s₁ [
        | os_error ↦ (os_error, spi', power, interrupt, w₁)
        | os_success _ ↦ elim s₂ [
          | os_error ↦ (os_error, spi', power', interrupt, w₂)
          | os_success _ ↦ (s₃, spi', power', interrupt', w₃)
        ]
      ]

  -- RADIO_PowerOn
  unfoldable pub power_on : Option Gpio → W → Done × W
  power_on none w = (os_error, w)
  power_on (some gpio) w =
      let (status, w') = gpio_write gpio 1 w in
      if eq_int status gpio_success
      then (done, os_task_delay (cfg.ms_timeout / 100) w')
      else (os_error, w')

  -- RADIO_PowerOff
  unfoldable pub power_off : Option Gpio → W → Done × W
  power_off none w = (os_error, w)
  power_off (some gpio) w =
      let (status, w') = gpio_write gpio 0 w in (done_if (eq_int status gpio_success), w')

  -- RADIO_CheckInterrupt. On an error `*interrupt_status` may have been written all the same, which
  -- no caller reads.
  unfoldable pub check_interrupt : Option Gpio → Pointer → W → Status ℕ × W
  check_interrupt none out w = (os_error, w)
  check_interrupt (some gpio) null w = (os_error, w)
  check_interrupt (some gpio) valid w =
      let (status, value, w') = gpio_read gpio w in
      (if eq_int status gpio_success then os_success value else os_error, w')

  -- RADIO_CommandDevice
  unfoldable pub command_device : Option Spi → ℕ → ℕ → Option (List ℕ) → W → Done × W
  command_device none cmd payload_len payload w = (os_error, w)
  command_device (some spi) cmd payload_len payload w =
      let total_len = 5 + payload_len in
      let (status, w') = spi_write spi (build_packet (stack w) cmd payload_len payload) w in
      if ltb (buffer_bytes - 5) payload_len
      then (os_error, w)
      else (done_if (eq_int status (pos total_len)), w')

  -- RADIO_RequestHK
  unfoldable pub request_hk : Option Spi → Pointer → W → Status DeviceHk × W
  request_hk none data_ptr w = (os_error, w)
  request_hk (some spi) null w = (os_error, w)
  request_hk (some spi) valid w =
      let (sent, w₁) = command_device (some spi) req_hk_cmd 0 none w in
      let (status, rx, w₂) = spi_read spi hk_size (os_task_delay (cfg.ms_timeout / 100) w₁) in
      elim sent [ os_error ↦ (os_error, w₁) | os_success _ ↦ (check_hk status rx, w₂) ]

  -- RADIO_SetConfiguration
  unfoldable pub set_configuration : Option Spi → Option RadioConfig → W → Done × W
  set_configuration none config w = (os_error, w)
  set_configuration (some spi) none w = (os_error, w)
  set_configuration (some spi) (some c) w =
      command_device (some spi) set_cfg_cmd cfg_payload_size
        (some (
          c.mode ∷ c.rx_speed_setting ∷ c.rx_wavelength_setting ∷ c.tx_speed_setting
          ∷ c.tx_wavelength_setting ∷ []))
        w

  -- RADIO_SendData
  unfoldable pub send_data : Option Spi → Option (List ℕ) → ℕ → W → Done × W
  send_data none bytes data_length w = (os_error, w)
  send_data (some spi) none data_length w = (os_error, w)
  send_data (some spi) (some bytes) data_length w =
      command_device (some spi) send_cmd data_length (some bytes) w

  -- RADIO_ReceiveData: on success the bytes that it copies to `data`, whose number is
  -- `*actual_length`. `data_ptr` is null if either out pointer is. The read asks for four bytes more
  -- than `max_length`, whatever the size of `rx_buffer`.
  unfoldable pub receive_data : Option Spi → Pointer → ℕ → W → Status (List ℕ) × W
  receive_data none data_ptr max_length w = (os_error, w)
  receive_data (some spi) null max_length w = (os_error, w)
  receive_data (some spi) valid max_length w =
      let (sent, w₁) =
        command_device (some spi) receive_cmd 2
          (some (byte_at 1 max_length ∷ byte_at 0 max_length ∷ [])) w in
      let (status, rx, w₂) = spi_read spi (max_length + 4) w₁ in
      elim sent [
        | os_error ↦ (os_error, w₁)
        | os_success _ ↦
            if ltb buffer_bytes (max_length + 4)
            then (to_status (overrun w₁).0, (overrun w₁).1)
            else elim status [
              | negsuc _ ↦ (os_error, w₂)
              | pos bytes_read ↦ (check_received max_length bytes_read rx, w₂)
            ]
      ]
