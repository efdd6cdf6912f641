-- ===== src/App/Uplink/Service/Buffer.antt =====
-- The receive buffer through RADIO_ServiceUplink.
use tryspace_comp_radio.Base.{
  false, ℕ, zero, suc, ◌+◌, ◌-◌, ◌*◌, ◌≤◌, ◌<◌, ◌≡◌, refl, ap, ◌∙◌, ◌⊎◌, inl, inr, true, List, [],
  ◌∷◌, arith, ℤ, eq_int, if◌then◌else◌, ltb, length, length-memcpy, length-take_bound, get_or, take,
  drop, Bool-cases, le→ltb, some,
}
use tryspace_comp_radio.Device.{Status, os_success, os_error, valid, receive_data, check_received}
use tryspace_comp_radio.Hardware.{Hardware, DeviceConfig, Spi}
use tryspace_comp_radio.Env.{Env}
use tryspace_comp_radio.App.State.{App, send, space_packet, event, error}
use tryspace_comp_radio.App.Eid
use tryspace_comp_radio.App.Uplink.Packets.{packets}
use tryspace_comp_radio.App.Uplink.Frames.Bounds.{process_frames-rest, process_frames_inv}
use tryspace_comp_radio.App.Uplink.Frames.{process_frames}
use tryspace_comp_radio.App.Uplink.Service.{
  send_packets, store, keep_rest, on_frame, on_drop, split_buffer, absorb, receive_once,
  receive_turns, service_uplink, room,
}

-- No more bytes are received than were asked for.
check_received-le :
    (max n : ℕ) (rx bytes : List ℕ)
    → check_received max n rx ≡ os_success bytes
    → length bytes ≤ max
unfolding check_received
check_received-le max n rx bytes h =
    ground (arith, length-take_bound (get_or rx 1 0 * 256 + get_or rx 2 0) (drop 3 rx))

pub receive_data-le :
    {W : Type 0} (cfg : DeviceConfig) (hw : Hardware W) (spi : Spi) (max : ℕ) (w : W)
    (bytes : List ℕ)
    → max ≤ 2044
    → (receive_data cfg hw (some spi) valid max w).0 ≡ os_success bytes
    → length bytes ≤ max
unfolding receive_data
receive_data-le cfg hw spi max w bytes small h =
    let fits : ltb 2048 (max + 4) ≡ false = ground (arith, small) in
    grind (arith, fits, check_received-le)

-- The buffer between two polls: 1024 bytes, of which at least one is free.
pub record IsBuffer (a : App) : Type 0 where
  pub sized : length a.receive_buffer ≡ 1024
  pub below : a.receive_buff_length ≤ 1023

-- Received bytes that fit are written behind those that wait.
pub store_lem :
    (bytes : List ℕ) (a : App)
    → IsBuffer a
    → length bytes ≤ 1024 - a.receive_buff_length
    → ((store bytes a).receive_buff_length ≡ a.receive_buff_length + length bytes)
      × (length (store bytes a).receive_buffer ≡ 1024)
unfolding store
store_lem bytes a v h =
    (omega arith, length-memcpy a.receive_buffer a.receive_buff_length bytes ∙ v.sized)

pub Status-cases : {A : Type 0} (s : Status A) → (s ≡ os_error) ⊎ ((x : A) × (s ≡ os_success x))
Status-cases (os_success x) = inr (x, refl)
Status-cases os_error = inl refl

-- The buffer is as in another state.
abbrev pub SameBuffer : App → App → Type 0
SameBuffer a b =
    (a.receive_buffer ≡ b.receive_buffer) × (a.receive_buff_length ≡ b.receive_buff_length)

send_packets-SameBuffer :
    (ps : List (List ℕ)) (a b : App) → SameBuffer a b → SameBuffer (send_packets ps a) b
unfolding send_packets
send_packets-SameBuffer [] a b h = h
send_packets-SameBuffer (p ∷ ps) a b h = send_packets-SameBuffer ps (send (space_packet p) a) b h

module _ {W : Type 0} (env : Env W) where
  on_frame-SameBuffer :
      (b : App) (frame : List ℕ) (s : App × W)
      → SameBuffer s.0 b
      → SameBuffer (on_frame env frame s).0 b
  unfolding on_frame
  on_frame-SameBuffer b frame (a, w) h =
      elim (Bool-cases (eq_int status env.crypto.crypto_success)) [
        | inl good ↦ rw good (
            send_packets-SameBuffer (packets (env.crypto.process_security frame w).1) told b
              told_same)
        | inr bad ↦ rw bad told_same
      ]
    where
      status : ℤ
      status = (env.crypto.process_security frame w).0

      told : App
      told =
          if eq_int status env.crypto.managed_parameters_not_found
          then send (event Eid.req_data_err error) a
          else a

      told_same : SameBuffer told b
      told_same = ground arith

  on_drop-SameBuffer : (b : App) (s : App × W) → SameBuffer s.0 b → SameBuffer (on_drop env s).0 b
  unfolding on_drop
  on_drop-SameBuffer b (a, w) h = h

  -- The frame loop leaves the receive buffer as it is.
  pub process_frames-SameBuffer :
      (buf : List ℕ) (n turns off : ℕ) (a : App) (w : W)
      → SameBuffer (process_frames (on_frame env) (on_drop env) turns buf n off (a, w)).1.0 a
  process_frames-SameBuffer buf n turns off a w =
      process_frames_inv (on_frame env) (on_drop env) buf n (λ s. SameBuffer s.0 a)
        (on_frame-SameBuffer a) (on_drop-SameBuffer a) turns off (a, w) (refl, refl)

  keep_rest-IsBuffer :
      (offset n : ℕ) (a : App)
      → length a.receive_buffer ≡ 1024
      → offset ≤ n
      → n < offset + 1024
      → IsBuffer (keep_rest offset n a)
  unfolding keep_rest
  keep_rest-IsBuffer offset n a sized le h =
      ground
        (arith, length-memcpy a.receive_buffer 0 (take (n - offset) (drop offset a.receive_buffer)))

  split_buffer-IsBuffer :
      (a : App) (w : W) → length a.receive_buffer ≡ 1024 → IsBuffer (split_buffer env (a, w)).0
  unfolding split_buffer
  split_buffer-IsBuffer a w sized =
      let n = a.receive_buff_length in
      let r = process_frames (on_frame env) (on_drop env) (n + 1) a.receive_buffer n 0 (a, w) in
      let (le, lt) =
        process_frames-rest (on_frame env) (on_drop env) a.receive_buffer n (n + 1) 0 (a, w)
          (omega arith) (omega arith) in
      let same = process_frames-SameBuffer a.receive_buffer n (n + 1) 0 a w in
      keep_rest-IsBuffer r.0 n r.1.0 (ap length (same.0) ∙ sized) le lt

  -- With the bytes that the room allows, a turn always goes on, and leaves the buffer sound.
  pub absorb-IsBuffer :
      (bytes : List ℕ) (a : App) (w : W)
      → IsBuffer a
      → length bytes ≤ 1024 - a.receive_buff_length
      → ((absorb env bytes (a, w)).0 ≡ true) × IsBuffer (absorb env bytes (a, w)).1
  unfolding absorb
  absorb-IsBuffer bytes a w v h =
      let n : ℕ = (store bytes a).receive_buff_length in
      let (len, sized) = store_lem bytes a v h in
      elim (Bool-cases (ltb 0 n)) [
        | inl some_bytes ↦
            rw (le→ltb 1024 n (omega (arith, len)), some_bytes)
              (refl, split_buffer-IsBuffer (store bytes a) w sized)
        | inr no_bytes ↦
            rw (le→ltb 1024 n (omega (arith, len)), no_bytes)
              (refl, record { sized = sized; below = ground arith })
      ]

  receive_once-IsBuffer : (s : App × W) → IsBuffer s.0 → IsBuffer (receive_once env s).1
  unfolding receive_once
  receive_once-IsBuffer (a, w) v =
      elim (Status-cases (receive_data env.cfg env.hw (some a.spi) valid (room env a) w).0) [
        | inl failed ↦ rw (failed, receive_once) (record { sized = v.sized; below = v.below })
        | inr (bytes, received) ↦
            rw (received, receive_once)
              (absorb-IsBuffer bytes a
                (receive_data env.cfg env.hw (some a.spi) valid (room env a) w).1 v
                (omega (
                  arith,
                  receive_data-le env.cfg env.hw a.spi (room env a) w bytes (omega (arith, v.below))
                      received,
                ))).1
      ]

  receive_turns-IsBuffer :
      (turns : ℕ) (s : App × W) → IsBuffer s.0 → IsBuffer (receive_turns env turns s).0
  unfolding receive_turns
  receive_turns-IsBuffer zero s v = v
  receive_turns-IsBuffer (suc turns) s v =
      let v' = receive_once-IsBuffer s v in
      elim (Bool-cases (receive_once env s).0) [
        | inl on ↦
            rw on (receive_turns-IsBuffer turns ((receive_once env s).1, (receive_once env s).2) v')
        | inr off ↦ rw off v'
      ]

  -- A poll keeps the receive buffer at 1024 bytes with at most 1023 of them waiting, whatever the
  -- radio and CryptoLib answer: no partial frame fills it up.
  pub service_uplink-IsBuffer : (s : App × W) → IsBuffer s.0 → IsBuffer (service_uplink env s).0
  unfolding service_uplink
  service_uplink-IsBuffer s v = receive_turns-IsBuffer env.cfg.max_rx_msgs_per_poll s v
