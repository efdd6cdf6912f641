-- ===== src/Examples/Radio.antt =====
-- The theorems on the driver and the simulated radio at concrete commands.
use tryspace_comp_radio.Base.{
  ℕ, ◌≡◌, ◌≢◌, ◌<◌, refl, true, false, length-replicate, List, [], ◌∷◌, arith, take, drop, pos,
  byte_at,
}
use tryspace_comp_radio.Device.{
  os_success, RadioConfig, hk_size, check_hk, check_received, req_hk_cmd, set_cfg_cmd, receive_cmd,
  send_cmd,
}
use tryspace_comp_radio.Device.Packet.{command_packet}
use tryspace_comp_radio.Sim.Ring.{Ring, IsRing, rx_count}
use tryspace_comp_radio.Sim.Ring.Fifo.{contents}
use tryspace_comp_radio.Sim.Ring.Queue.{write, read, run_ring, run_queue, run_ring_refines}
use tryspace_comp_radio.Sim.State.{Sim, zero_hk, zero_config}
use tryspace_comp_radio.Sim.Command.{handle_spi_command}
use tryspace_comp_radio.Sim.Effects.{
  counted, settings, Sent, handle-set_cfg, handle-req_hk, handle-send, handle-receive,
}
use tryspace_comp_radio.Sim.State.{init}
use tryspace_comp_radio.Sim.Thread.{
  Wait, Tick, datagram, interrupted, timed_out, ground_thread, after_ticks, all_continue, continues,
  ground_thread-IsRing, on_woken,
}
use tryspace_comp_radio.Sim.Thread.Race.{power_off_tick, on_woken-unpowered}
use tryspace_comp_radio.Examples.World.{World, cfg}

-- A full turn round the array: eight bytes, three of them waiting across its end.
abbrev ring : Ring
ring = record { buf = 3 ∷ 0 ∷ 0 ∷ 0 ∷ 0 ∷ 0 ∷ 1 ∷ 2 ∷ []; head = 1; tail = 6 }

ring-IsRing : IsRing 8 ring
ring-IsRing = record { length_buf = refl; head_in = omega arith; tail_in = omega arith }

-- A radio with power, in duplex mode.
abbrev radio : Sim
radio = record {
  interrupt_asserted = 0;
  hk = record zero_hk { mode = 3 };
  config = record zero_config { mode = 3 };
  tick_counter = 0;
  rx = ring;
  tx_buffer_head = 0;
  tx_buffer_tail = 0;
  bytes_received = 3;
  bytes_sent = 0;
  last_update_time = 0;
  power_value = 1;
  interrupt_value = 0;
  spi_out = [];
  power_out = [];
  interrupt_out = [];
  ground_out = [];
}

powered : radio.power_value ≢ 0
powered e = omega arith

abbrev transmit_config : RadioConfig
transmit_config = record {
  mode = 1;
  rx_speed_setting = 2;
  rx_wavelength_setting = 3;
  tx_speed_setting = 4;
  tx_wavelength_setting = 5;
}

abbrev world : World
world = record { replies = []; written = []; downlink = [] }

run_ring_refines_example :
    run_ring 8 ring (read 2 ∷ write (4 ∷ 5 ∷ []) ∷ read 9 ∷ [])
    ≡ run_queue 8 (contents 8 ring) (read 2 ∷ write (4 ∷ 5 ∷ []) ∷ read 9 ∷ [])
run_ring_refines_example =
    run_ring_refines 8 (read 2 ∷ write (4 ∷ 5 ∷ []) ∷ read 9 ∷ []) ring ring-IsRing

handle-set_cfg_example :
    (handle_spi_command cfg (pos 0) (command_packet set_cfg_cmd (settings transmit_config)) radio)
    ≡ counted (record radio {
      config = transmit_config;
      hk = record (radio.hk) {
        mode = 1;
        rx_speed_setting = 2;
        rx_wavelength_setting = 3;
        tx_speed_setting = 4;
        tx_wavelength_setting = 5;
      };
    })
handle-set_cfg_example = handle-set_cfg cfg (pos 0) transmit_config radio powered

few_waiting : rx_count 8 ring < 4294967296
unfolding rx_count
few_waiting = omega arith

handle-req_hk_example :
    let s' = handle_spi_command cfg (pos 0) (command_packet req_hk_cmd []) radio in
    (response : List ℕ) × (s'.spi_out ≡ response ∷ [])
    × (check_hk (pos hk_size) response
        ≡ os_success (record (radio.hk) {
          bytes_in_rx_buffer = rx_count 8 ring;
          bytes_received = 3;
          bytes_sent = 0;
        }))
handle-req_hk_example =
    handle-req_hk cfg (pos 0) radio powered
      (record { counter_in = omega arith; received_in = omega arith; sent_in = omega arith })
      few_waiting

handle-send_example :
    Sent
      (pos 2)
      (7 ∷ 8 ∷ [])
      radio
      (handle_spi_command cfg (pos 2) (command_packet send_cmd (7 ∷ 8 ∷ [])) radio)
handle-send_example = handle-send cfg (pos 2) (7 ∷ 8 ∷ []) radio powered (omega arith) (omega arith)

handle-receive_example :
    let s' =
      handle_spi_command cfg
        (pos 0)
        (command_packet receive_cmd (byte_at 1 2 ∷ byte_at 0 2 ∷ []))
        radio in
    let waiting = contents 8 ring in
    (response : List ℕ) × (s'.spi_out ≡ response ∷ [])
    × (check_received 2 6 response ≡ os_success (take 2 waiting))
    × (contents 8 s'.rx ≡ drop 2 waiting)
handle-receive_example = handle-receive cfg (pos 0) 2 radio powered ring-IsRing (omega arith)

-- A tick in which the power is cut.
abbrev cut : Tick
cut = power_off_tick cfg 1

-- Two bytes from the ground before which the power is cut, a signal, and the flag goes down.
abbrev turns : List Wait
turns =
    record { running = true; ticks = []; woken = datagram (1 ∷ 2 ∷ []) (cut ∷ []) }
    ∷ record { running = true; ticks = []; woken = interrupted }
    ∷ record { running = false; ticks = []; woken = timed_out }
    ∷ []

ground_thread-IsRing_example :
    let (go_on, s) = ground_thread cfg (λ now last. true) turns (init cfg 1 0) in
    (go_on ≡ false) × IsRing cfg.buffer_size (after_ticks cfg (λ now last. true) (cut ∷ []) s).rx
unfolding all_continue continues
ground_thread-IsRing_example =
    ground_thread-IsRing cfg (λ now last. true) 1 0 turns (cut ∷ []) (omega arith)

on_woken-unpowered_example :
    let s' =
      (on_woken cfg (λ now last. true) (datagram (1 ∷ 2 ∷ []) (cut ∷ [])) (init cfg 1 0)).1 in
    (s'.power_value ≡ 0) × (contents cfg.buffer_size s'.rx ≡ 1 ∷ 2 ∷ [])
unfolding init
on_woken-unpowered_example =
    on_woken-unpowered cfg (λ now last. true) 1 (1 ∷ 2 ∷ []) (init cfg 1 0)
      (record {
        length_buf = length-replicate {A = ℕ} cfg.buffer_size 0;
        head_in = omega arith;
        tail_in = omega arith;
      })
      refl
