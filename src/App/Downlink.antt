-- ===== src/App/Downlink.antt =====
-- RADIO_ServiceDownlink in src/radio_app.c: packets from the downlink pipe are put into TM frames,
-- and each frame goes through security and synchronisation to the radio. The loop over the frames
-- may go on for ever, so it takes a number of turns, and `none` says that they were not enough.
pub mod Frame
pub mod Filled
pub mod Ends
pub mod Stuck
pub mod Laws
pub mod Flow
pub mod Delivery
use tryspace_comp_radio.Base.{
  ℕ, zero, suc, ◌+◌, ◌%◌, Bool, true, false, not, Option, none, some, List, pos_part, is_negative,
  eq_int, ltb, ◌==◌, if◌then◌else◌, take, memcpy, ℤ, pos,
}
use tryspace_comp_radio.Device.{os_success, os_error, send_data}
use tryspace_comp_radio.Env.{Env, FrameInfo}
use tryspace_comp_radio.App.Eid
use tryspace_comp_radio.App.State.{App, event, error, send, inc_device_count, inc_device_error}

-- RADIO_TM_FRAME_SIZE
abbrev pub tm_frame_size : ℕ
tm_frame_size = 1786

-- The locals of the loops, with the application and the world: the packet count, the length of the
-- packet that waits (0 if none does), and the packet read last.
pub record Down (W : Type 0) : Type 0 where
  pub pkt_count : ℕ
  pub pkt_len : ℕ
  pub packet : List ℕ
  pub app : App
  pub world : W

-- An error event on the data path, with the device error counted.
abbrev pub data_error : App → App
data_error a = send (event Eid.req_data_err error) (inc_device_error a)

module _ {W : Type 0} (env : Env W) where
  abbrev max_tx : ℕ
  max_tx = env.cfg.max_tx_msgs_per_poll

  -- A packet is read unless one waits. `none` is the end of the pipe.
  unfoldable pub next_packet : Down W → Option (Down W)
  next_packet d =
      let (polled, w') = env.cfe.poll_downlink d.world in
      if d.pkt_len == 0
      then elim polled [ none ↦ none | some p ↦ some (record d { packet = p; world = w' }) ]
      else some d

  -- The frame is started if it is not ready. The flag says whether it is now.
  unfoldable pub ready_frame : Down W → Bool × Down W
  ready_frame d =
      let (status, info', w') = env.tm.start_frame d.app.frame_info d.world in
      let d' = record d { app = record (d.app) { frame_info = info' }; world = w' } in
      if d.app.frame_info.is_ready
      then (true, d)
      else if eq_int status env.tm.sdlp_success
      then (true, d')
      else (false, record d' { app = data_error d'.app })

  -- The packet goes into the frame if there is room. The flag says whether the loop goes on.
  unfoldable pub put_packet : Down W → Bool × Down W
  put_packet d =
      let size = env.cfe.packet_size d.packet in
      let (add_status, info', w') = env.tm.add_packet d.app.frame_info d.packet d.world in
      let added = record d {
        pkt_len = size;
        app = record (d.app) { frame_info = info' };
        world = w';
      } in
      if ltb size d.app.frame_info.free_octets
      then if is_negative add_status
        then (false, record added { app = data_error added.app })
        else (true, record added { pkt_len = 0; pkt_count = d.pkt_count + 1 })
      else (false, record d { pkt_len = size })

  -- One turn of the inner loop.
  unfoldable pub fill_once : Down W → Bool × Down W
  fill_once d = elim (next_packet d) [
    | none ↦ (false, record d { pkt_count = max_tx; world = (env.cfe.poll_downlink d.world).1 })
    | some d₁ ↦ let (ready, d₂) = ready_frame d₁ in if ready then put_packet d₂ else (false, d₂)
  ]

  -- The inner loop. Each turn that goes on counts a packet, so `max_tx` turns are all that it makes.
  unfoldable pub fill_frame : ℕ → Down W → Down W
  fill_frame zero d = d
  fill_frame (suc turns) d =
      let (go_on, d') = fill_once d in
      let rest = fill_frame turns d' in
      if ltb d.pkt_count max_tx then if go_on then rest else d' else d

  -- CryptoLib on the finished frame, if there is a security association. An error is counted, and
  -- the frame is sent all the same.
  unfoldable pub secure_frame : App → W → App × W
  secure_frame a w =
      let (has_sa, w₁) = env.crypto.has_association w in
      let (sec_status, frame', w₂) = env.crypto.apply_security a.frame_info.frame w₁ in
      let secured = record a { frame_info = record (a.frame_info) { frame = frame' } } in
      if has_sa
      then (if eq_int sec_status (pos 0) then secured else data_error secured, w₂)
      else (data_error a, w₁)

  -- The frame with its marker, over the radio. The flag says whether the outer loop goes on.
  unfoldable pub transmit_frame : App → W → Bool × App × W
  transmit_frame a w =
      let cadu = memcpy a.cadu_buffer env.tm.asm_size (take tm_frame_size a.frame_info.frame) in
      let (cadu_size, cadu', w₁) = env.tm.synchronize cadu w in
      let a₁ = record a { cadu_buffer = cadu' } in
      let (tx_status, w₂) =
        send_data env.cfg env.hw (some a.spi) (some cadu') (pos_part cadu_size % 65536) w₁ in
      let a₂ : App = elim tx_status [
        | os_success _ ↦ inc_device_count a₁
        | os_error ↦ data_error a₁
      ] in
      if is_negative cadu_size then (false, data_error a₁, w₁) else (true, a₂, w₂)

  -- One turn of the outer loop: a frame is filled, completed and sent.
  unfoldable pub frame_once : Down W → Bool × Down W
  frame_once d =
      let filled = fill_frame max_tx d in
      let (info₁, w₁) = env.tm.add_idle_packet filled.app.frame_info filled.world in
      let (status, info₂, w₂) = env.tm.complete_frame info₁ w₁ in
      let a₂ = record (filled.app) { frame_info = info₂ } in
      let (a₃, w₃) = secure_frame a₂ w₂ in
      let (go_on, a₄, w₄) = transmit_frame a₃ w₃ in
      if eq_int status env.tm.sdlp_success
      then (go_on, record filled { app = a₄; world = w₄ })
      else (false, record filled { app = data_error a₂; world = w₂ })

  -- The outer loop.
  unfoldable pub send_frames : ℕ → Down W → Option (Down W)
  send_frames zero d = none
  send_frames (suc turns) d =
      let (go_on, d') = frame_once d in
      let rest = send_frames turns d' in
      if ltb d.pkt_count max_tx then if go_on then rest else some d' else some d

  -- The channel is set up and a frame started if the frame is not ready. The flag says whether the
  -- function goes on.
  unfoldable pub open_channel : App → W → Bool × App × W
  open_channel a w =
      let (s₁, info₁, w₁) = env.tm.init_channel a.frame_info w in
      let a₁ = record a { frame_info = info₁ } in
      let (s₂, info₂, w₂) = env.tm.start_frame info₁ w₁ in
      let a₂ = record a { frame_info = info₂ } in
      if a.frame_info.is_ready
      then (true, a, w)
      else if not (eq_int s₁ env.tm.sdlp_success)
      then (false, data_error a₁, w₁)
      else if not (eq_int s₂ env.tm.sdlp_success)
      then (false, data_error a₂, w₂)
      else (true, a₂, w₂)

  -- RADIO_ServiceDownlink
  unfoldable pub service_downlink : ℕ → App → W → Option (App × W)
  service_downlink turns a w =
      let (opened, a₁, w₁) = open_channel a w in
      let sent =
        send_frames turns
          (record { pkt_count = 0; pkt_len = 0; packet = List.[]; app = a₁; world = w₁ }) in
      if opened then elim sent [ none ↦ none | some d ↦ some (d.app, d.world) ] else some (a₁, w₁)
