-- ===== src/App/Uplink/Service/Linked.antt =====
-- RADIO_ServiceUplink in src/radio_app.c with the radio of sim/radio_sim.c behind its SPI device.
use tryspace_comp_radio.Base.{
  ℕ, zero, suc, ◌+◌, ◌-◌, ◌≤◌, ◌≡◌, refl, sym, ap, ◌∙◌, subst, List, [], ◌∷◌, ◌++◌, arith, take,
  drop, take-append-drop, concat, All, append_assoc, some, ℤ, length, length-drop,
}
use tryspace_comp_radio.Hardware.{Spi}
use tryspace_comp_radio.Device.{os_success, valid, receive_data}
use tryspace_comp_radio.Env.{Env}
use tryspace_comp_radio.Sim.State.{Sim}
use tryspace_comp_radio.Sim.Ring.Fifo.{contents}
use tryspace_comp_radio.Sim.Link.{IsLink, IsIdle, Received, receive_data-Received}
use tryspace_comp_radio.Sim.Tick.Invariant.{IsSim}
use tryspace_comp_radio.App.State.{App, send, space_packet}
use tryspace_comp_radio.App.Uplink.Frames.Bounds.{process_frames_inv}
use tryspace_comp_radio.App.Uplink.Frames.{process_frames}
use tryspace_comp_radio.App.Uplink.Frames.Stream.{IsFrame, IsPartial}
use tryspace_comp_radio.App.Uplink.Frames.Prefix.{Cut-stream}
use tryspace_comp_radio.App.Uplink.Service.{
  send_packets, store, keep_rest, on_frame, on_drop, split_buffer, absorb, receive_once,
  receive_turns, service_uplink, room,
}
use tryspace_comp_radio.App.Uplink.Service.Buffer.{IsBuffer}
use tryspace_comp_radio.App.Uplink.Service.Handled.{pending, Handles, done, Handles-append}
use tryspace_comp_radio.App.Uplink.Service.Reassembly.{receive_once-frames, All-split}

-- CryptoLib does not use the link.
pub record IsApart {W : Type 0} (env : Env W) (sim : W → Sim) (seen : W → ℕ) : Type 0 where
  pub radio : (frame : List ℕ) (w : W) → sim (env.crypto.process_security frame w).2 ≡ sim w
  pub replies : (frame : List ℕ) (w : W) → seen (env.crypto.process_security frame w).2 ≡ seen w

send_packets-spi : (ps : List (List ℕ)) (a : App) → (send_packets ps a).spi ≡ a.spi
unfolding send_packets
send_packets-spi [] a = refl
send_packets-spi (p ∷ ps) a = send_packets-spi ps (send (space_packet p) a)

module _ {W : Type 0} (env : Env W) (spi : Spi) (sent : List ℕ → W → ℤ) (sim : W → Sim)
    (seen : W → ℕ) (link : IsLink env.cfg env.hw spi sent sim seen)
    (apart : IsApart env sim seen) where
  -- The SPI handle and the radio behind it are the same in two states.
  record IsSeat (s t : App × W) : Type 0 where
    handle : t.0.spi ≡ s.0.spi
    radio : sim t.1 ≡ sim s.1
    replies : seen t.1 ≡ seen s.1

  IsSeat-trans : (s t u : App × W) → IsSeat s t → IsSeat t u → IsSeat s u
  IsSeat-trans s t u p q = record {
    handle = q.handle ∙ p.handle;
    radio = q.radio ∙ p.radio;
    replies = q.replies ∙ p.replies;
  }

  on_frame-IsSeat : (frame : List ℕ) (s : App × W) → IsSeat s (on_frame env frame s)
  unfolding on_frame
  on_frame-IsSeat frame (a, w) = record {
    handle = grind (arith, send_packets-spi);
    radio = grind (arith, apart.radio);
    replies = grind (arith, apart.replies);
  }

  keep_rest-spi : (offset n : ℕ) (a : App) → (keep_rest offset n a).spi ≡ a.spi
  unfolding keep_rest
  keep_rest-spi offset n a = ground arith

  split_buffer-IsSeat : (s : App × W) → IsSeat s (split_buffer env s)
  unfolding split_buffer on_drop
  split_buffer-IsSeat (a, w) =
      let n = a.receive_buff_length in
      let r = process_frames (on_frame env) (on_drop env) (n + 1) a.receive_buffer n 0 (a, w) in
      let kept : IsSeat (a, w) r.1 =
        process_frames_inv (on_frame env) (on_drop env) a.receive_buffer n (λ t. IsSeat (a, w) t)
          (λ f t h. IsSeat-trans (a, w) t _ h (on_frame-IsSeat f t))
          (λ t h. record { handle = h.handle; radio = h.radio; replies = h.replies }) (n + 1) 0
          (a, w) (record { handle = refl; radio = refl; replies = refl }) in
      record {
        handle = keep_rest-spi r.0 n r.1.0 ∙ kept.handle;
        radio = kept.radio;
        replies = kept.replies;
      }

  absorb-IsSeat :
      (bytes : List ℕ) (a : App) (w : W)
      → let (go_on, a', w') = absorb env bytes (a, w) in IsSeat (a, w) (a', w')
  unfolding absorb store
  absorb-IsSeat bytes a w =
      let split = split_buffer-IsSeat (store bytes a, w) in
      record {
        handle = ground (arith, split.handle);
        radio = ground (arith, split.radio);
        replies = ground (arith, split.replies);
      }

  abbrev pub Idle : W → Type 0
  Idle w = IsIdle env.cfg env.hw spi sent sim seen link w

  abbrev pub radio_waiting : W → List ℕ
  radio_waiting w = contents env.cfg.buffer_size (sim w).rx

  Idle-same : (w w' : W) → sim w' ≡ sim w → seen w' ≡ seen w → Idle w → Idle w'
  Idle-same w w' e f idle = record {
    on = omega (arith, idle.on, ap (λ (s : Sim). s.power_value) e);
    sound = subst (IsSim env.cfg) (sym e) idle.sound;
    no_reply = ap (λ (s : Sim). length s.spi_out) e ∙ idle.no_reply ∙ sym f;
  }

  -- What a poll does with a stream of frames of which some bytes wait in the application and the
  -- others in the radio: the frames in front are handled, and the stream goes on behind them.
  pub record Polled (turns : ℕ) (frames : List (List ℕ)) (rest : List ℕ) (s t : App × W)
      : Type 0 where
    pub before : List (List ℕ)
    pub behind : List (List ℕ)
    pub frames_eq : frames ≡ before ++ behind
    pub handled : Handles env before s t
    pub stream : pending t.0 ++ radio_waiting t.1 ≡ concat behind ++ rest
    pub partial : IsPartial (pending t.0)
    pub buffer : IsBuffer t.0
    pub handle : t.0.spi ≡ spi
    pub idle : Idle t.1
    pub config : (sim t.1).config ≡ (sim s.1).config
    -- A turn takes a byte from the radio at least, as long as there is one.
    pub progress : length (radio_waiting t.1) ≤ length (radio_waiting s.1) - turns

  Polled-later :
      (turns : ℕ) (before behind frames : List (List ℕ)) (rest : List ℕ) (s m t : App × W)
      → frames ≡ before ++ behind
      → Handles env before s m
      → length (radio_waiting m.1) ≤ length (radio_waiting s.1) - 1
      → (sim m.1).config ≡ (sim s.1).config
      → Polled turns behind rest m t
      → Polled (suc turns) frames rest s t
  Polled-later turns before behind frames rest s m t e handled fewer same later = record {
    before = before ++ later.before;
    behind = later.behind;
    frames_eq =
        e
        ∙ ap (λ fs. before ++ fs) later.frames_eq
        ∙ sym (append_assoc before later.before later.behind);
    handled = Handles-append env handled later.handled;
    stream = later.stream;
    partial = later.partial;
    buffer = later.buffer;
    handle = later.handle;
    idle = later.idle;
    config = later.config ∙ same;
    progress = omega (arith, fewer, later.progress);
  }

  -- The next turn of the loop, once what the radio answers is known.
  receive_once-IsSeat :
      (bytes : List ℕ) (a : App) (w : W)
      → (receive_data env.cfg env.hw (some a.spi) valid (room env a) w).0 ≡ os_success bytes
      → let w₁ = (receive_data env.cfg env.hw (some a.spi) valid (room env a) w).1 in
        let (go_on, a', w') = receive_once env (a, w) in IsSeat (a, w₁) (a', w')
  unfolding receive_once
  receive_once-IsSeat bytes a w received = rw (received, receive_once) (absorb-IsSeat bytes a _)

  receive_turns-Polled :
      (turns : ℕ) (frames : List (List ℕ)) (rest : List ℕ) (a : App) (w : W)
      → IsBuffer a
      → IsPartial (pending a)
      → a.spi ≡ spi
      → Idle w
      → All IsFrame frames
      → IsPartial rest
      → pending a ++ radio_waiting w ≡ concat frames ++ rest
      → Polled turns frames rest (a, w) (receive_turns env turns (a, w))
  unfolding receive_turns
  receive_turns-Polled zero frames rest a w v now h idle fs p e = record {
    before = [];
    behind = frames;
    frames_eq = refl;
    handled = done;
    stream = e;
    partial = now;
    buffer = v;
    handle = h;
    idle = idle;
    config = refl;
    progress = omega arith;
  }
  receive_turns-Polled (suc turns) frames rest a w v now h idle fs p e =
      let size = room env a in
      let got : Received env.cfg env.hw spi sent sim seen link size w
          (receive_data env.cfg env.hw (some a.spi) valid size w) =
        subst
          (λ x.
            Received env.cfg env.hw spi sent sim seen link size w
              (receive_data env.cfg env.hw (some x) valid size w))
          (sym h)
          (receive_data-Received env.cfg env.hw spi sent sim seen link size w idle
            (omega (arith, v.below))) in
      let chunk = take size (radio_waiting w) in
      let k = Cut-stream frames rest (pending a ++ chunk) (drop size (radio_waiting w)) fs p (
        append_assoc (pending a) chunk (drop size (radio_waiting w))
        ∙ ap (λ bytes. pending a ++ bytes) (take-append-drop size (radio_waiting w))
        ∙ e) in
      let (fs₁, fs₂) = All-split env k.before k.behind (subst (All IsFrame) k.frames_eq fs) in
      let (on, v', q, handled) =
        receive_once-frames env k.before k.partial chunk a w v got.payload fs₁ k.partial_is
          k.pre_eq in
      let seat = receive_once-IsSeat chunk a w got.payload in
      let left : radio_waiting (receive_once env (a, w)).2 ≡ drop size (radio_waiting w) =
        ap (λ (s : Sim). contents env.cfg.buffer_size s.rx) seat.radio ∙ got.left in
      let later =
        receive_turns-Polled turns k.behind rest (receive_once env (a, w)).1
          (receive_once env (a, w)).2 v' (subst IsPartial (sym q) k.partial_is) (seat.handle ∙ h)
          (Idle-same _ (receive_once env (a, w)).2 seat.radio seat.replies got.idle) fs₂ p
          (ap (λ t. t ++ radio_waiting (receive_once env (a, w)).2) q
            ∙ ap (λ t. k.partial ++ t) left
            ∙ k.post_eq) in
      rw on (
        Polled-later turns k.before k.behind frames rest (a, w) _ _ k.frames_eq handled
          (omega (arith, v.below, ap length left, length-drop size (radio_waiting w)))
          (ap (λ (s : Sim). s.config) seat.radio ∙ got.config) later)

  -- If CryptoLib does not use the link, what is written over SPI reaches the simulated radio
  -- whole and a read takes its oldest unread reply, the radio is sound, has power and no reply
  -- unread, the application's buffer is sound and holds a partial frame, and the bytes that wait
  -- there and then in the radio are whole transfer frames and then a partial one, then a poll
  -- handles some first of these frames, in order, with only the receive buffer and the world
  -- changed in between; the bytes that wait in both places afterwards are the other frames and
  -- the partial one; the application holds a partial frame again; and each turn took a byte from
  -- the radio at least, as long as there was one.
  pub service_uplink-Polled :
      (frames : List (List ℕ)) (rest : List ℕ) (a : App) (w : W)
      → IsBuffer a
      → IsPartial (pending a)
      → a.spi ≡ spi
      → Idle w
      → All IsFrame frames
      → IsPartial rest
      → pending a ++ radio_waiting w ≡ concat frames ++ rest
      → Polled env.cfg.max_rx_msgs_per_poll frames rest (a, w) (service_uplink env (a, w))
  unfolding service_uplink
  service_uplink-Polled frames rest a w v now h idle fs p e =
      receive_turns-Polled env.cfg.max_rx_msgs_per_poll frames rest a w v now h idle fs p e
