-- ===== src/App/Uplink/Service/Kept.antt =====
-- What RADIO_ServiceUplink in src/radio_app.c leaves alone in the application's data.
use tryspace_comp_radio.Base.{
  ℕ, zero, suc, ◌+◌, some, ◌≡◌, refl, ◌∙◌, List, [], ◌∷◌, arith, Bool-cases, inl, inr,
}
use tryspace_comp_radio.Env.{Env, FrameInfo}
use tryspace_comp_radio.Device.{DeviceHk, valid, receive_data}
use tryspace_comp_radio.App.State.{App, send, space_packet}
use tryspace_comp_radio.App.Uplink.Frames.{process_frames}
use tryspace_comp_radio.App.Uplink.Frames.Bounds.{process_frames_inv}
use tryspace_comp_radio.App.Uplink.Service.{
  send_packets, store, keep_rest, on_frame, on_drop, split_buffer, absorb, receive_once,
  receive_turns, service_uplink, room,
}
use tryspace_comp_radio.App.Uplink.Service.Buffer.{Status-cases}

-- Whether the device is enabled, what it last reported, and the data of the downlink.
pub record Kept : Type 0 where
  pub enabled : ℕ
  pub device_hk : DeviceHk
  pub frame_info : FrameInfo
  pub cadu : List ℕ

abbrev pub kept : App → Kept
kept a = record {
  enabled = a.hk.device_enabled;
  device_hk = a.hk.device_hk;
  frame_info = a.frame_info;
  cadu = a.cadu_buffer;
}

send_packets-kept : (ps : List (List ℕ)) (a : App) → kept (send_packets ps a) ≡ kept a
unfolding send_packets
send_packets-kept [] a = refl
send_packets-kept (p ∷ ps) a = send_packets-kept ps (send (space_packet p) a)

module _ {W : Type 0} (env : Env W) where
  on_frame-kept : (frame : List ℕ) (s : App × W) → kept (on_frame env frame s).0 ≡ kept s.0
  unfolding on_frame
  on_frame-kept frame (a, w) = grind (arith, send_packets-kept)

  keep_rest-kept : (offset n : ℕ) (a : App) → kept (keep_rest offset n a) ≡ kept a
  unfolding keep_rest
  keep_rest-kept offset n a = ground arith

  split_buffer-kept : (s : App × W) → kept (split_buffer env s).0 ≡ kept s.0
  unfolding split_buffer on_drop
  split_buffer-kept (a, w) =
      let n = a.receive_buff_length in
      let r = process_frames (on_frame env) (on_drop env) (n + 1) a.receive_buffer n 0 (a, w) in
      keep_rest-kept r.0 n r.1.0
      ∙ process_frames_inv (on_frame env) (on_drop env) a.receive_buffer n (λ t. kept t.0 ≡ kept a)
          (λ f t h. on_frame-kept f t ∙ h) (λ t h. h) (n + 1) 0 (a, w) refl

  absorb-kept : (bytes : List ℕ) (s : App × W) → kept (absorb env bytes s).1 ≡ kept s.0
  unfolding absorb store
  absorb-kept bytes (a, w) = ground (arith, split_buffer-kept (store bytes a, w))

  receive_once-kept : (s : App × W) → kept (receive_once env s).1 ≡ kept s.0
  unfolding receive_once
  receive_once-kept (a, w) =
      elim (Status-cases (receive_data env.cfg env.hw (some a.spi) valid (room env a) w).0) [
        | inl failed ↦ rw (failed, receive_once) refl
        | inr (bytes, received) ↦
            rw (received, receive_once)
              (absorb-kept bytes
                (a, (receive_data env.cfg env.hw (some a.spi) valid (room env a) w).1))
      ]

  receive_turns-kept : (turns : ℕ) (s : App × W) → kept (receive_turns env turns s).0 ≡ kept s.0
  unfolding receive_turns
  receive_turns-kept zero s = refl
  receive_turns-kept (suc turns) s =
      let (go_on, a', w') = receive_once env s in
      elim (Bool-cases go_on) [
        | inl on ↦ rw on (receive_turns-kept turns (a', w') ∙ receive_once-kept s)
        | inr off ↦ rw off (receive_once-kept s)
      ]

  pub service_uplink-kept : (s : App × W) → kept (service_uplink env s).0 ≡ kept s.0
  unfolding service_uplink
  service_uplink-kept s = receive_turns-kept env.cfg.max_rx_msgs_per_poll s
