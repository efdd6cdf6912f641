-- ===== src/App/Dispatch/Duplex.antt =====
-- A service command to src/radio_app.c while the device is enabled in duplex mode, with the radio of
-- sim/radio_sim.c behind the SPI device: the way up, and then the way down.
use tryspace_comp_radio.Base.{
  ℕ, ◌+◌, ◌<◌, ◌≡◌, refl, sym, ap, ◌∙◌, subst, true, false, some, List, [], ◌++◌, arith, ◌==◌, ◌||◌,
  concat, All, length, take, ◌⊎◌,
}
use tryspace_comp_radio.Device.{RadioConfig, mode_rx, mode_tx, mode_duplex}
use tryspace_comp_radio.Env.{Env, Message, FrameInfo}
use tryspace_comp_radio.Sim.Ring.Fifo.{contents}
use tryspace_comp_radio.Sim.Tick.Invariant.{Same-IsSim}
use tryspace_comp_radio.App.State.{App, cmd_mid, service_cc}
use tryspace_comp_radio.App.Commands.{verify_cmd_length}
use tryspace_comp_radio.App.Dispatch.{
  enabled_in, service, checked, process_ground_command, process_command_packet,
}
use tryspace_comp_radio.App.Uplink.Frames.Stream.{IsFrame, IsPartial}
use tryspace_comp_radio.App.Uplink.Service.{service_uplink}
use tryspace_comp_radio.App.Uplink.Service.Buffer.{IsBuffer}
use tryspace_comp_radio.App.Uplink.Service.Handled.{pending}
use tryspace_comp_radio.App.Uplink.Service.Kept.{Kept, service_uplink-kept}
use tryspace_comp_radio.App.Uplink.Service.Linked.{
  IsApart, Idle, radio_waiting, Polled, service_uplink-Polled,
}
use tryspace_comp_radio.App.Downlink.{service_downlink}
use tryspace_comp_radio.App.Downlink.Frame.{View, service_downlink-view}
use tryspace_comp_radio.App.Downlink.Laws.{DownlinkSide}
use tryspace_comp_radio.App.Downlink.Delivery.{IsUp}
use tryspace_comp_radio.App.Downlink.Delivery.Frames.{Downlinked, Closed}
use tryspace_comp_radio.App.Downlink.Delivery.Channel.{OpenFrame, service_downlink-Downlinked}

-- A service command.
pub record IsService {W : Type 0} (env : Env W) (msg : Message) : Type 0 where
  pub id : msg.msg_id ≡ cmd_mid
  pub code : msg.fcn_code ≡ service_cc
  pub size : msg.size ≡ env.cfe.no_args_cmd_size

module _ {W : Type 0} (env : Env W) where
  process_command_packet-service :
      (turns : ℕ) (msg : Message) (a : App) (w : W)
      → IsService env msg
      → process_command_packet env turns msg a w ≡ service env turns a w
  unfolding process_command_packet process_ground_command checked verify_cmd_length
  process_command_packet-service turns msg a w v =
      let to_app : (msg.msg_id == 0x18D2) ≡ true = ground (arith, v.id) in
      let fits : (env.cfe.no_args_cmd_size == msg.size) ≡ true = ground (arith, v.size) in
      rw (to_app, v.code, fits) refl

  -- Enabled in duplex mode, both ways are served.
  service-both :
      (turns : ℕ) (a : App) (w : W)
      → a.hk.device_enabled ≡ 1
      → a.hk.device_hk.mode ≡ mode_duplex
      → let (a₁, w₁) = service_uplink env (a, w) in
        service env turns a w ≡ service_downlink env turns a₁ w₁
  unfolding service
  service-both turns a w enabled mode =
      let (a₁, _) = service_uplink env (a, w) in
      let same = service_uplink-kept env (a, w) in
      let enabled₁ : a₁.hk.device_enabled ≡ 1 = ap (λ (k : Kept). k.enabled) same ∙ enabled in
      let mode₁ : a₁.hk.device_hk.mode ≡ 3 = ap (λ (k : Kept). k.device_hk.mode) same ∙ mode in
      let up : enabled_in env turns a mode_rx ≡ true = ground (arith, enabled, mode) in
      let down : enabled_in env turns a₁ mode_tx ≡ true = ground (arith, enabled₁, mode₁) in
      rw (up, down) refl

module _ {W : Type 0} (env : Env W) (side : DownlinkSide env)
    (apart : IsApart env side.sim side.seen) where
  open side use {spi, status, sim, seen, link, queue, Holds}

  -- A service command that returned: what the way up did, and then the way down.
  pub record Served (turns : ℕ) (msg : Message) (frames : List (List ℕ)) (rest : List ℕ)
      (ps : List (List ℕ)) (a : App) (w : W) : Type 0 where
    pub between : App × W
    pub result : App × W
    pub returned : process_command_packet env turns msg a w ≡ some result
    pub polled :
        Polled env spi status sim seen link apart env.cfg.max_rx_msgs_per_poll frames rest
          (a, w)
          between
    pub down : Downlinked env side ps (queue between.1) 0 between.1 result.1
    pub closed : Closed env side result.0 result.1
    -- The way down leaves the receive buffer as it is.
    pub waiting : pending result.0 ≡ pending between.0
    -- So is what waits in the radio, which is ready for the next service command.
    pub on_radio :
        radio_waiting env spi status sim seen link apart result.1
        ≡ radio_waiting env spi status sim seen link apart between.1
    pub idle : Idle env spi status sim seen link apart result.1

  -- If the radio behind the SPI device, the downlink pipe, the TM libraries and CryptoLib do what
  -- is documented of them, the radio's socket takes every datagram whole, the device is enabled
  -- and last reported duplex mode, the radio is sound, has power, transmits and has no reply
  -- unread, the receive buffer is sound, the bytes that wait in it and in the radio are whole
  -- transfer frames and then a partial one, and every packet on the pipe is smaller than a fresh
  -- frame's room, then a service command returns; it handles some first frames in order and keeps
  -- the others, and then sends the packets of the open frame and those at the front of the pipe,
  -- as many as the limit or all of them, to the ground station, each once and in order, with the
  -- others left on the pipe and the receive buffer and the bytes in the radio as they were; the
  -- radio is sound, has power and has no reply unread again.
  pub process_command_packet-Served :
      (turns : ℕ) (msg : Message) (frames : List (List ℕ)) (rest : List ℕ) (ps : List (List ℕ))
      (a : App) (w : W)
      → IsService env msg
      → a.hk.device_enabled ≡ 1
      → a.hk.device_hk.mode ≡ mode_duplex
      → IsBuffer a
      → IsPartial (pending a)
      → IsUp env side a w
      → Idle env spi status sim seen link apart w
      → All IsFrame frames
      → IsPartial rest
      → pending a ++ radio_waiting env spi status sim seen link apart w ≡ concat frames ++ rest
      → OpenFrame env side ps a
      → 0 < env.cfg.max_tx_msgs_per_poll
      → env.cfg.max_tx_msgs_per_poll + 1 < turns
      → Served turns msg frames rest ps a w
  process_command_packet-Served turns msg frames rest ps a w m enabled mode v now up idle fs p e
        begun some_tx h =
      let (a₁, w₁) = service_uplink env (a, w) in
      let q =
        service_uplink-Polled env spi status sim seen link apart frames rest a w v now up.handle
          idle fs p e in
      let same = service_uplink-kept env (a, w) in
      let up₁ : IsUp env side a₁ w₁ = record {
        handle = q.handle;
        cadu = ap (λ (k : Kept). length k.cadu) same ∙ up.cadu;
        on = q.idle.on;
        sends =
            ap (λ (c : RadioConfig). c.mode == mode_tx || c.mode == mode_duplex) q.config
            ∙ up.sends;
      } in
      let begun₁ : OpenFrame env side ps a₁ =
        subst
          (λ (i : FrameInfo).
            ((i.is_ready ≡ true) × Holds ps i) ⊎ ((i.is_ready ≡ false) × (ps ≡ [])))
          (sym (ap (λ (k : Kept). k.frame_info) same)) begun in
      let (r, returned, down, closed) =
        service_downlink-Downlinked env side turns ps a₁ w₁ begun₁ up₁ some_tx h in
      record {
        between = (a₁, w₁);
        result = r;
        returned =
            process_command_packet-service env turns msg a w m
            ∙ service-both env turns a w enabled mode
            ∙ returned;
        polled = q;
        down = down;
        closed = closed;
        waiting =
            ap (λ (x : View). take x.waiting x.buffer)
              (service_downlink-view env turns a₁ w₁ r returned);
        on_radio = ap (contents env.cfg.buffer_size) down.kept.rx;
        idle = record {
          on = omega (arith, q.idle.on, down.kept.power);
          sound =
              Same-IsSim env.cfg (sim w₁) (sim r.1) (down.kept.rx, down.kept.power) q.idle.sound;
          no_reply = ap length down.kept.replies ∙ q.idle.no_reply ∙ sym down.replies;
        };
      }
