-- ===== src/Examples/Delivery.antt =====
-- The way up at two datagrams, with a radio that can be run.
use tryspace_comp_radio.Base.{
  ℕ, ◌≡◌, ◌≤◌, refl, inl, arith, List, [], ◌∷◌, Bool, false, none, length, length-replicate,
}
use tryspace_comp_radio.Hardware.{DeviceConfig}
use tryspace_comp_radio.Sim.Ring.{rx_count, write_to_rx}
use tryspace_comp_radio.Sim.Ring.Fifo.{contents, length-contents, rx_count-lt}
use tryspace_comp_radio.Sim.State.{init, update_interrupt}
use tryspace_comp_radio.Sim.Tick.{on_ground, on_tick}
use tryspace_comp_radio.App.State.{App}
use tryspace_comp_radio.App.Uplink.Frames.{frame_len}
use tryspace_comp_radio.App.Uplink.Frames.Stream.{IsFrame}
use tryspace_comp_radio.App.Uplink.Packets.{packet_id, total_packet_size}
use tryspace_comp_radio.App.Uplink.Packets.Slices.{IsPacket}
use tryspace_comp_radio.App.Uplink.Service.{service_uplink}
use tryspace_comp_radio.App.Uplink.Service.Handled.{pending}
use tryspace_comp_radio.App.Uplink.Delivery.{
  IsAir, Steps, here, datagram, tick_step, poll, IsReady, Delivered, Steps-Delivered,
}
use tryspace_comp_radio.App.Uplink.Delivery.Bus.{bus, Carries, nothing, opened, Steps-bus}
use tryspace_comp_radio.Examples.World.{cfg, app_with}
use tryspace_comp_radio.Examples.Link.{Linked, env_with, link_with, apart_with, app_spi, sendto}

-- A radio with room for 31 bytes, and 40 attempts for a poll.
abbrev roomy : DeviceConfig
roomy = record cfg { buffer_size = 32; max_rx_msgs_per_poll = 40 }

abbrev never : ℕ → ℕ → Bool
never time last = false

abbrev deliver : List ℕ → Linked → Linked
deliver d w = record w { radio = on_ground roomy d w.radio }

abbrev tick : ℕ → Linked → Linked
tick time w = record w { radio = on_tick roomy never (sendto [] w) time none none none w.radio }

air : IsAir roomy sendto never (λ w. w.radio) (λ w. w.seen) deliver tick
air = record {
  heard = λ d w. refl;
  heard_seen = λ d w. refl;
  ticked = λ time w. refl;
  ticked_seen = λ time w. refl;
}

-- A frame with one packet behind its five bytes of header.
abbrev packet : List ℕ
packet = 0x18 ∷ 0xD2 ∷ 0xC0 ∷ 0 ∷ 0 ∷ 0 ∷ 9 ∷ []

packet-IsPacket : IsPacket packet
unfolding packet_id total_packet_size
packet-IsPacket = record { long = omega arith; version = refl; command = refl; sized = refl }

abbrev frame : List ℕ
frame = 0 ∷ 0 ∷ 0 ∷ 11 ∷ 7 ∷ packet

frame-IsFrame : IsFrame frame
unfolding frame_len
frame-IsFrame = record { long = omega arith; framed = refl }

frame-Carries : Carries (env_with roomy) (frame ∷ []) (packet ∷ [])
frame-Carries =
    opened (packet ∷ []) [] (λ w. refl) (λ w. refl) (packet-IsPacket, tt) (omega arith) nothing

-- The radio as it starts, with power.
abbrev fresh : Linked
fresh = record { radio = init roomy 1 0; seen = 0; queue = [] }

abbrev waits : Linked → List ℕ
waits w = contents 32 w.radio.rx

-- The frame comes in two datagrams, the second with the first byte of the next frame, and a tick in
-- between.
abbrev front : List ℕ
front = 0 ∷ 0 ∷ 0 ∷ 11 ∷ 7 ∷ 0x18 ∷ []

abbrev back : List ℕ
back = 0xD2 ∷ 0xC0 ∷ 0 ∷ 0 ∷ 0 ∷ 9 ∷ 0 ∷ []

abbrev arrived : Linked
arrived = deliver back (tick 5 (deliver front fresh))

fresh-IsReady :
    IsReady
      (env_with roomy)
      app_spi
      sendto
      (λ w. w.radio)
      (λ w. w.seen)
      (link_with roomy app_spi)
      (apart_with roomy)
      never
      deliver
      tick
      air
      (app_with 1)
      fresh
unfolding init
fresh-IsReady = record {
  buffer = record { sized = length-replicate {A = ℕ} 1024 0; below = omega arith };
  partial = inl (omega arith);
  handle = refl;
  idle = record {
    on = omega arith;
    sound = record {
      ring = record { length_buf = refl; head_in = omega arith; tail_in = omega arith };
      off = inl (omega arith);
    };
    no_reply = refl;
  };
  mode = refl;
}

abbrev polled : App × Linked
polled = service_uplink (env_with roomy) (app_with 1, arrived)

steps :
    Steps
      (env_with roomy)
      app_spi
      sendto
      (λ w. w.radio)
      (λ w. w.seen)
      (link_with roomy app_spi)
      (apart_with roomy)
      never
      deliver
      tick
      air
      (front ∷ back ∷ [])
      (app_with 1, fresh)
      polled
unfolding init contents rx_count on_ground on_tick update_interrupt write_to_rx
steps = datagram front (tick_step 5 (datagram back (poll here)))

Steps-Delivered_example :
    Delivered
      (env_with roomy)
      app_spi
      sendto
      (λ w. w.radio)
      (λ w. w.seen)
      (link_with roomy app_spi)
      (apart_with roomy)
      never
      deliver
      tick
      air
      (frame ∷ [])
      (0 ∷ [])
      (app_with 1, fresh)
      polled
unfolding init contents rx_count
Steps-Delivered_example =
    Steps-Delivered (env_with roomy) app_spi sendto (λ w. w.radio) (λ w. w.seen)
      (link_with roomy app_spi) (apart_with roomy) never deliver tick air (frame ∷ []) (0 ∷ [])
      steps fresh-IsReady (frame-IsFrame, tt) (inl (omega arith)) refl

polled-room : length (waits polled.1) ≤ 40
unfolding init contents rx_count
polled-room =
    let d =
      Steps-Delivered (env_with roomy) app_spi sendto (λ w. w.radio) (λ w. w.seen)
        (link_with roomy app_spi) (apart_with roomy) never deliver tick air (frame ∷ []) (0 ∷ [])
        steps fresh-IsReady (frame-IsFrame, tt) (inl (omega arith)) refl in
    omega (
      arith,
      length-contents 32 polled.1.radio.rx,
      rx_count-lt 32 polled.1.radio.rx d.ready.idle.sound.ring,
    )

Steps-bus_example :
    (bus (service_uplink (env_with roomy) polled).0.out ≡ packet ∷ [])
    × (pending (service_uplink (env_with roomy) polled).0 ≡ 0 ∷ [])
    × (waits (service_uplink (env_with roomy) polled).1 ≡ [])
unfolding init contents rx_count
Steps-bus_example =
    Steps-bus (env_with roomy) app_spi sendto (λ w. w.radio) (λ w. w.seen) (link_with roomy app_spi)
      (apart_with roomy) never deliver tick air (frame ∷ []) (packet ∷ []) (0 ∷ []) steps
      fresh-IsReady (frame-IsFrame, tt) frame-Carries (inl (omega arith)) refl polled-room
