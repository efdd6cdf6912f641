-- ===== src/Examples/Link.antt =====
-- The driver of shared/radio_device.c with a simulated radio behind it that can be run.
use tryspace_comp_radio.Base.{
  ℕ, suc, ◌≡◌, refl, ap, sym, ◌∙◌, [], ◌∷◌, ◌++◌, arith, pos, inl, length, get_or, get_or-append_at,
  replicate, length-replicate, take, drop, none, some, Option, true, false, List, ℤ, ◌-◌,
}
use tryspace_comp_radio.Hardware.{closed, opened, DeviceConfig, Hardware, Spi}
use tryspace_comp_radio.Device.{send_cmd}
use tryspace_comp_radio.Device.Packet.{command_packet}
use tryspace_comp_radio.Sim.Command.Accept.{length-command_packet}
use tryspace_comp_radio.Sim.Ring.{rx_count}
use tryspace_comp_radio.Sim.Ring.Fifo.{contents}
use tryspace_comp_radio.Sim.State.{Sim, init}
use tryspace_comp_radio.Sim.Command.{handle_spi_command}
use tryspace_comp_radio.Sim.Link.{IsLink, IsIdle}
use tryspace_comp_radio.Env.{Env}
use tryspace_comp_radio.App.Uplink.Frames.{frame_len}
use tryspace_comp_radio.App.Uplink.Frames.Stream.{IsFrame}
use tryspace_comp_radio.App.Uplink.Service.{service_uplink}
use tryspace_comp_radio.App.Uplink.Service.Linked.{IsApart, Polled, service_uplink-Polled}
use tryspace_comp_radio.App.Eid
use tryspace_comp_radio.App.State.{event, hk_packet, information}
use tryspace_comp_radio.App.Commands.{configure, report_housekeeping, device_cfg}
use tryspace_comp_radio.App.Commands.Linked.{with_config}
use tryspace_comp_radio.App.Commands.Linked.Report.{IsCalm, reported, configure-reported}
use tryspace_comp_radio.Examples.World.{cfg, app_with, message}

pub record Linked : Type 0 where
  pub radio : Sim
  pub seen : ℕ
  pub queue : List (List ℕ)

-- Datagrams are sent whole.
abbrev pub sendto : List ℕ → Linked → ℤ
sendto packet w = pos (length packet - 5)

pub sendto-whole :
    (payload : List ℕ) (w : Linked)
    → sendto (command_packet send_cmd payload) w ≡ pos (length payload)
sendto-whole payload w = ap pos (omega (arith, length-command_packet send_cmd payload))

abbrev pub hw_with : DeviceConfig → Hardware Linked
hw_with c = record {
  spi_success = pos 0;
  gpio_success = pos 0;
  spi_init_dev = λ dev w. (pos 0, dev, w);
  spi_write = λ dev bytes w. (
    pos (length bytes),
    record w { radio = handle_spi_command c (sendto bytes w) bytes w.radio },
  );
  spi_read = λ dev n w. (pos n, get_or w.radio.spi_out w.seen [], record w { seen = suc w.seen });
  spi_close_device = λ dev w. (dev, w);
  gpio_init = λ gpio w. (pos 0, gpio, w);
  gpio_write = λ gpio v w. (pos 0, w);
  gpio_read = λ gpio w. (pos 0, 1, w);
  gpio_close = λ gpio w. (gpio, w);
  os_task_delay = λ ms w. w;
  overrun = λ w. (none, w);
  stack = λ w. replicate 2048 0;
  length-stack = λ w. length-replicate {A = ℕ} 2048 0;
}

abbrev hw : Hardware Linked
hw = hw_with cfg

abbrev spi : Spi
spi = record { bus = 1; cs = 0; is_open = opened }

pub link_with :
    (c : DeviceConfig) (dev : Spi) → IsLink c (hw_with c) dev sendto (λ w. w.radio) (λ w. w.seen)
link_with c dev = record {
  written = λ bytes w. refl;
  handled = λ bytes w. refl;
  write_seen = λ bytes w. refl;
  read = λ n w before reply e l. (
    record w { seen = suc w.seen },
    ap (λ r. (pos n, r, record w { seen = suc w.seen }))
        (ap (λ out. get_or out w.seen []) e
          ∙ ap (λ k. get_or (before ++ (reply ∷ [])) k []) (sym l)
          ∙ get_or-append_at before [] reply []),
    refl,
    refl,
  );
}

-- Three bytes wait, across the end of the array.
abbrev filled : Linked
filled = record {
  radio = record (init cfg 1 0) {
    rx = record { buf = 3 ∷ 0 ∷ 0 ∷ 0 ∷ 0 ∷ 0 ∷ 1 ∷ 2 ∷ []; head = 1; tail = 6 };
  };
  seen = 0;
  queue = [];
}

-- The next packet of the downlink, of which at most 100 bytes are kept.
abbrev pub give : List (List ℕ) → Linked → Option (List ℕ) × Linked
give [] w = (none, record w { queue = [] })
give (p ∷ ps) w = (some (take 100 p), record w { queue = ps })

-- CryptoLib takes the five bytes of a header off. A frame has room for 1000 bytes of packets, and is
-- filled up with zeros.
abbrev pub env_with : DeviceConfig → Env Linked
env_with c = record {
  cfg = c;
  hw = hw_with c;
  cfe = record {
    no_args_cmd_size = 8;
    config_cmd_size = 13;
    poll_downlink = λ w. give w.queue w;
    packet_size = λ p. suc (length p - 1);
  };
  crypto = record {
    crypto_success = pos 0;
    managed_parameters_not_found = pos 1;
    process_security = λ frame w. (pos 0, drop 5 frame, w);
    has_association = λ w. (false, w);
    apply_security = λ frame w. (pos 0, frame, w);
  };
  tm = record {
    sdlp_success = pos 0;
    asm_size = 4;
    init_channel = λ info w. (pos 0, info, w);
    start_frame =
        λ info w. (pos 0, record info { is_ready = true; free_octets = 1000; frame = [] }, w);
    add_packet = λ info p w. (
      pos 0,
      record info { free_octets = info.free_octets - suc (length p - 1); frame = info.frame ++ p },
      w,
    );
    add_idle_packet = λ info w. (info, w);
    complete_frame = λ info w. (
      pos 0,
      record info {
        is_ready = false;
        frame = info.frame ++ replicate (1786 - length info.frame) 0;
      },
      w,
    );
    synchronize = λ cadu w. (pos (length cadu), cadu, w);
  };
}

abbrev env : Env Linked
env = env_with cfg

-- The handle as the application sets it up.
abbrev pub app_spi : Spi
app_spi = record { bus = 1; cs = 0; is_open = closed }

app_link : IsLink cfg hw app_spi sendto (λ w. w.radio) (λ w. w.seen)
app_link = link_with cfg app_spi

pub apart_with : (c : DeviceConfig) → IsApart (env_with c) (λ w. w.radio) (λ w. w.seen)
apart_with c = record { radio = λ frame w. refl; replies = λ frame w. refl }

apart : IsApart env (λ w. w.radio) (λ w. w.seen)
apart = apart_with cfg

-- A frame of the least length and a part of the next one wait in the radio.
abbrev pub frame : List ℕ
frame = 0 ∷ 0 ∷ 0 ∷ 4 ∷ 7 ∷ []

pub frame-IsFrame : IsFrame frame
unfolding frame_len
frame-IsFrame = record { long = omega arith; framed = refl }

abbrev pub loaded : Linked
loaded = record {
  radio = record (init cfg 1 0) {
    rx = record { buf = frame ++ (0 ∷ 0 ∷ 9 ∷ []); head = 7; tail = 0 };
  };
  seen = 0;
  queue = [];
}

loaded-IsIdle : IsIdle cfg hw app_spi sendto (λ w. w.radio) (λ w. w.seen) app_link loaded
unfolding init
loaded-IsIdle = record {
  on = omega arith;
  sound = record {
    ring = record { length_buf = refl; head_in = omega arith; tail_in = omega arith };
    off = inl (omega arith);
  };
  no_reply = refl;
}

service_uplink-Polled_example :
    Polled env app_spi sendto
      (λ w. w.radio)
      (λ w. w.seen)
      app_link
      apart
      2
      (frame ∷ [])
      (0 ∷ 0 ∷ [])
      (app_with 1, loaded)
      (service_uplink env (app_with 1, loaded))
unfolding contents rx_count
service_uplink-Polled_example =
    service_uplink-Polled env app_spi sendto (λ w. w.radio) (λ w. w.seen) app_link apart
      (frame ∷ []) (0 ∷ 0 ∷ []) (app_with 1) loaded
      (record { sized = length-replicate {A = ℕ} 1024 0; below = omega arith }) (inl (omega arith))
      refl loaded-IsIdle (frame-IsFrame, tt) (inl (omega arith)) refl

calm : IsCalm env (λ w. w.radio) (λ w. w.seen)
calm = record { radio = λ ms w. refl; replies = λ ms w. refl }

configure-reported_example :
    let (a₁, w₁) = configure env (message 4 13) (app_with 1) loaded in
    let (a₂, w₂) = report_housekeeping env a₁ w₁ in
    (a₂.out ≡ event Eid.cmd_config_inf information ∷ hk_packet a₂.hk ∷ [])
    × (a₂.hk.device_hk
        ≡ reported env app_spi sendto
            (λ w. w.radio)
            (λ w. w.seen)
            app_link
            calm
            (with_config env app_spi sendto
              (λ w. w.radio)
              (λ w. w.seen)
              app_link
              (device_cfg env (message 4 13))
              loaded.radio))
    × (w₂.radio.config ≡ device_cfg env (message 4 13))
    × IsIdle cfg hw app_spi sendto (λ w. w.radio) (λ w. w.seen) app_link w₂
unfolding init rx_count
configure-reported_example =
    configure-reported env app_spi sendto (λ w. w.radio) (λ w. w.seen) app_link calm (message 4 13)
      (app_with 1) loaded refl (omega arith) refl loaded-IsIdle (omega arith) (omega arith)
      (omega arith)
