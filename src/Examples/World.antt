-- ===== src/Examples/World.antt =====
-- A world outside the program that can be run: SPI replies and downlink packets that wait, and what
-- was written over SPI.
use tryspace_comp_radio.Base.{
  ℕ, ◌-◌, true, false, Option, none, some, List, [], ◌∷◌, ◌++◌, ℤ, pos, negsuc, length, take, drop,
  replicate, length-replicate,
}
use tryspace_comp_radio.Hardware.{closed, opened, input, output, Spi, DeviceConfig, Hardware}
use tryspace_comp_radio.Env.{Message, Env}
use tryspace_comp_radio.App.State.{App, app_run}
use tryspace_comp_radio.Sim.State.{zero_hk}

pub record World : Type 0 where
  pub replies : List (List ℕ)
  pub written : List (List ℕ)
  pub downlink : List (List ℕ)

abbrev pub cfg : DeviceConfig
cfg = record {
  spi_bus = 1;
  spi_cs = 0;
  gpio_power_pin = 10;
  gpio_interrupt_pin = 11;
  buffer_size = 8;
  interrupt_threshold = 4;
  ms_timeout = 250;
  max_rx_msgs_per_poll = 2;
  max_tx_msgs_per_poll = 2;
  max_subscriptions = 4;
}

abbrev read_reply : Spi → ℕ → World → ℤ × List ℕ × World
read_reply spi n w = elim w.replies [
  | [] ↦ (negsuc 0, [], w)
  | r ∷ rs ↦ (pos (length r), r, record w { replies = rs })
]

abbrev pub hw : Hardware World
hw = record {
  spi_success = pos 0;
  gpio_success = pos 0;
  spi_init_dev = λ spi w. (pos 0, record spi { is_open = opened }, w);
  spi_write = λ spi bytes w. (pos (length bytes), record w { written = w.written ++ (bytes ∷ []) });
  spi_read = read_reply;
  spi_close_device = λ spi w. (spi, w);
  gpio_init = λ gpio w. (pos 0, record gpio { is_open = opened }, w);
  gpio_write = λ gpio v w. (pos 0, w);
  gpio_read = λ gpio w. (pos 0, 1, w);
  gpio_close = λ gpio w. (gpio, w);
  os_task_delay = λ ms w. w;
  overrun = λ w. (none, w);
  stack = λ w. replicate 2048 0;
  length-stack = λ w. length-replicate {A = ℕ} 2048 0;
}

-- No packet on the bus has more than 100 bytes.
abbrev next_downlink : World → Option (List ℕ) × World
next_downlink w = elim w.downlink [
  | [] ↦ (none, w)
  | p ∷ ps ↦ (some (take 100 p), record w { downlink = ps })
]

abbrev pub env : Env World
env = record {
  cfg = cfg;
  hw = hw;
  cfe = record {
    no_args_cmd_size = 8;
    config_cmd_size = 13;
    poll_downlink = next_downlink;
    packet_size = λ p. length p;
  };
  crypto = record {
    crypto_success = pos 0;
    managed_parameters_not_found = negsuc 1;
    process_security = λ frame w. (pos 0, drop 5 frame, w);
    has_association = λ w. (false, w);
    apply_security = λ frame w. (pos 0, frame, w);
  };
  tm = record {
    sdlp_success = pos 0;
    asm_size = 4;
    init_channel = λ info w. (pos 0, info, w);
    start_frame = λ info w. (pos 0, record info { is_ready = true; free_octets = 1000 }, w);
    add_packet = λ info p w. (
      pos 0,
      record info { free_octets = info.free_octets - length p; frame = info.frame ++ p },
      w,
    );
    add_idle_packet = λ info w. (info, w);
    complete_frame = λ info w. (pos 0, record info { is_ready = false }, w);
    synchronize = λ cadu w. (pos (length cadu), cadu, w);
  };
}

-- The application as it starts, with an enabled or a disabled device.
abbrev pub app_with : ℕ → App
app_with enabled = record {
  hk = record {
    command_error_count = 0;
    command_count = 0;
    device_error_count = 0;
    device_count = 0;
    device_enabled = enabled;
    device_hk = zero_hk;
  };
  cmd_pipe = 0;
  run_status = app_run;
  spi = record { bus = 1; cs = 0; is_open = closed };
  power_gpio = record { pin = 10; direction = output; is_open = closed };
  interrupt_gpio = record { pin = 11; direction = input; is_open = closed };
  receive_buffer = replicate 1024 0;
  receive_buff_length = 0;
  subs_handle = 0;
  subs_table = none;
  downlink_pipe = 0;
  frame_info = record { is_ready = false; free_octets = 0; frame = [] };
  cadu_buffer = [];
  out = [];
}

-- A command message, by its code and its size.
abbrev pub message : ℕ → ℕ → Message
message code size = record {
  msg_id = 0x18D2;
  fcn_code = code;
  size = size;
  cfg_mode = 1;
  cfg_rx_speed = 2;
  cfg_rx_wavelength = 3;
  cfg_tx_speed = 4;
  cfg_tx_wavelength = 5;
}
