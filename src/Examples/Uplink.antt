-- ===== src/Examples/Uplink.antt =====
-- The uplink theorems at concrete streams.
use tryspace_comp_radio.Base.{
  ℕ, ◌+◌, ◌≡◌, ◌<◌, ◌≤◌, refl, inl, List, [], ◌∷◌, ◌++◌, arith, length, length-replicate,
}
use tryspace_comp_radio.Device.{receive_data, command_device, build_packet, check_received}
use tryspace_comp_radio.App.Uplink.Frames.{frame_len, resync, process_frames}
use tryspace_comp_radio.App.Uplink.Frames.Stream.{IsFrame}
use tryspace_comp_radio.App.Uplink.Frames.Bounds.{process_frames-rest}
use tryspace_comp_radio.App.Uplink.Frames.Resync.{Finds, resync-Finds}
use tryspace_comp_radio.App.Uplink.Packets.{packet_id, total_packet_size, packets}
use tryspace_comp_radio.App.Uplink.Packets.Slices.{IsPacket, Slices, packets-Slices}
use tryspace_comp_radio.App.Uplink.Packets.Stream.{packets-concat}
use tryspace_comp_radio.App.Uplink.Service.{
  receive_turns, receive_once, absorb, store, split_buffer, keep_rest, service_uplink,
}
use tryspace_comp_radio.App.Uplink.Service.Buffer.{IsBuffer, service_uplink-IsBuffer}
use tryspace_comp_radio.App.Uplink.Service.Handled.{pending, Handles}
use tryspace_comp_radio.App.Uplink.Service.Reassembly.{Delivers, receive_turns-frames}
use tryspace_comp_radio.Examples.World.{World, env, app_with}

-- A transfer frame of the least length, and a partial one.
abbrev frame : List ℕ
frame = 0 ∷ 0 ∷ 0 ∷ 4 ∷ 7 ∷ []

frame-IsFrame : IsFrame frame
unfolding frame_len
frame-IsFrame = record { long = omega arith; framed = refl }

-- A command packet of the least length.
abbrev packet : List ℕ
packet = 0x18 ∷ 0xD2 ∷ 0xC0 ∷ 0 ∷ 0 ∷ 0 ∷ 9 ∷ []

packet-IsPacket : IsPacket packet
unfolding packet_id total_packet_size
packet-IsPacket = record { long = omega arith; version = refl; command = refl; sized = refl }

-- The two chunks of a frame, as the radio replies with them.
abbrev chunks : List (List ℕ)
chunks = (0 ∷ 0 ∷ 0 ∷ []) ∷ (4 ∷ 7 ∷ 5 ∷ []) ∷ []

abbrev world : World
world = record {
  replies = (0xAA ∷ 0 ∷ 3 ∷ 0 ∷ 0 ∷ 0 ∷ 0x11 ∷ []) ∷ (0xAA ∷ 0 ∷ 3 ∷ 4 ∷ 7 ∷ 5 ∷ 0x11 ∷ []) ∷ [];
  written = [];
  downlink = [];
}

empty-IsBuffer : IsBuffer (app_with 1)
empty-IsBuffer = record { sized = length-replicate {A = ℕ} 1024 0; below = omega arith }

chunks-Delivers : Delivers env chunks (app_with 1, world)
unfolding receive_data command_device build_packet check_received receive_once absorb store
    split_buffer process_frames frame_len keep_rest
chunks-Delivers = (refl, (refl, tt))

receive_turns-frames_example :
    (pending (receive_turns env (length chunks) (app_with 1, world)).0 ≡ (5 ∷ []))
    × Handles env
        (frame ∷ [])
        (app_with 1, world)
        (receive_turns env (length chunks) (app_with 1, world))
receive_turns-frames_example =
    receive_turns-frames env chunks (frame ∷ []) (5 ∷ []) (app_with 1) world empty-IsBuffer
      (inl (omega arith)) chunks-Delivers (frame-IsFrame, tt) (inl (omega arith)) refl

service_uplink-IsBuffer_example : IsBuffer (service_uplink env (app_with 1, world)).0
service_uplink-IsBuffer_example = service_uplink-IsBuffer env (app_with 1, world) empty-IsBuffer

packets-concat_example : packets ((packet ++ packet ++ []) ++ (1 ∷ 2 ∷ [])) ≡ packet ∷ packet ∷ []
packets-concat_example =
    packets-concat (packet ∷ packet ∷ []) (1 ∷ 2 ∷ []) (packet-IsPacket, (packet-IsPacket, tt))
      (omega arith)

packets-Slices_example : Slices (3 ∷ packet) (packets (3 ∷ packet))
packets-Slices_example = packets-Slices (3 ∷ packet)

-- The frames that a run hands over, the last first.
abbrev collect : List ℕ → List (List ℕ) → List (List ℕ)
collect f fs = f ∷ fs

abbrev keep : List (List ℕ) → List (List ℕ)
keep fs = fs

abbrev buffer : List ℕ
buffer = 0 ∷ 0 ∷ 0 ∷ 4 ∷ 7 ∷ 0 ∷ 0 ∷ 0 ∷ 4 ∷ 8 ∷ 1 ∷ 99 ∷ []

process_frames-rest_example :
    ((process_frames collect keep 12 buffer 11 0 []).0 ≤ 11)
    × (11 < (process_frames collect keep 12 buffer 11 0 []).0 + 1024)
process_frames-rest_example =
    process_frames-rest collect keep buffer 11 12 0 [] (omega arith) (omega arith)

-- The scan behind a byte that starts no frame.
resync-Finds_example : Finds (0 ∷ frame) 6 0 (resync 6 (0 ∷ frame) 6 0)
resync-Finds_example = resync-Finds 6 (0 ∷ frame) 6 0 (omega arith)
