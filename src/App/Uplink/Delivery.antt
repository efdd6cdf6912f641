-- ===== src/App/Uplink/Delivery.antt =====
-- The way up: datagrams from the ground station to the radio of sim/radio_sim.c, its ticks, and the
-- polls of RADIO_ServiceUplink in src/radio_app.c, in any order.
pub mod Bus
use tryspace_comp_radio.Base.{
  ℕ, ◌≤◌, ◌≡◌, refl, sym, ap, ◌∙◌, subst, true, none, Bool, List, [], ◌∷◌, ◌++◌, arith, ℤ, concat,
  All, append_assoc, append-nil, length, concat-append, ◌==◌, ◌||◌,
}
use tryspace_comp_radio.Hardware.{DeviceConfig, Spi}
use tryspace_comp_radio.Device.{RadioConfig, mode_rx, mode_duplex}
use tryspace_comp_radio.Env.{Env}
use tryspace_comp_radio.Sim.State.{Sim}
use tryspace_comp_radio.Sim.Link.{IsLink, IsIdle}
use tryspace_comp_radio.Sim.Tick.{on_ground, on_tick}
use tryspace_comp_radio.Sim.Tick.Ground.{receives, accepted, Heard, on_ground-Heard, on_tick-Heard}
use tryspace_comp_radio.App.State.{App}
use tryspace_comp_radio.App.Uplink.Frames.Stream.{IsFrame, IsPartial}
use tryspace_comp_radio.App.Uplink.Frames.Prefix.{Cut-stream}
use tryspace_comp_radio.App.Uplink.Service.{service_uplink}
use tryspace_comp_radio.App.Uplink.Service.Buffer.{IsBuffer}
use tryspace_comp_radio.App.Uplink.Service.Handled.{pending, Handles, done, receive, Handles-append}
use tryspace_comp_radio.App.Uplink.Service.Reassembly.{All-split, no_frame_partial}
use tryspace_comp_radio.App.Uplink.Service.Linked.{
  IsApart, Idle, radio_waiting, Polled, service_uplink-Polled,
}

-- A datagram that reaches the radio, and a tick on which nothing arrives, in the world outside:
-- the radio does what its code says, and no reply is read.
pub record IsAir {W : Type 0} (cfg : DeviceConfig) (sent : List ℕ → W → ℤ) (due : ℕ → ℕ → Bool)
    (sim : W → Sim) (seen : W → ℕ) (deliver : List ℕ → W → W) (tick : ℕ → W → W) : Type 0 where
  pub heard : (d : List ℕ) (w : W) → sim (deliver d w) ≡ on_ground cfg d (sim w)
  pub heard_seen : (d : List ℕ) (w : W) → seen (deliver d w) ≡ seen w
  pub ticked :
      (time : ℕ) (w : W)
      → sim (tick time w) ≡ on_tick cfg due (sent [] w) time none none none (sim w)
  pub ticked_seen : (time : ℕ) (w : W) → seen (tick time w) ≡ seen w

module _ {W : Type 0} (env : Env W) (spi : Spi) (sent : List ℕ → W → ℤ) (sim : W → Sim)
    (seen : W → ℕ) (link : IsLink env.cfg env.hw spi sent sim seen) (apart : IsApart env sim seen)
    (due : ℕ → ℕ → Bool) (deliver : List ℕ → W → W) (tick : ℕ → W → W)
    (air : IsAir env.cfg sent due sim seen deliver tick) where
  -- Steps of the two programs in any order, with what the radio took of each datagram.
  pub data Steps : List (List ℕ) → App × W → App × W → Type 0 where
    here : {s : App × W} → Steps [] s s
    datagram :
        {ds : List (List ℕ)} {a : App} {w : W} {t : App × W} (d : List ℕ)
        → Steps ds (a, deliver d w) t
        → Steps (accepted env.cfg d (sim w) ∷ ds) (a, w) t
    tick_step :
        {ds : List (List ℕ)} {a : App} {w : W} {t : App × W} (time : ℕ)
        → Steps ds (a, tick time w) t
        → Steps ds (a, w) t
    poll :
        {ds : List (List ℕ)} {a : App} {w : W} {t : App × W}
        → Steps ds (service_uplink env (a, w)) t
        → Steps ds (a, w) t

  -- The application's buffer is sound and holds a partial frame; the radio behind its handle is
  -- sound, receives, and has no reply unread.
  pub record IsReady (a : App) (w : W) : Type 0 where
    pub buffer : IsBuffer a
    pub partial : IsPartial (pending a)
    pub handle : a.spi ≡ spi
    pub idle : Idle env spi sent sim seen link apart w
    pub mode : receives (sim w) ≡ true

  All-join : (fs gs : List (List ℕ)) → All IsFrame fs → All IsFrame gs → All IsFrame (fs ++ gs)
  All-join [] gs h k = k
  All-join (f ∷ fs) gs h k = (h.0, All-join fs gs (h.1) k)

  abbrev pub on_radio : W → List ℕ
  on_radio w = radio_waiting env spi sent sim seen link apart w

  -- Some first frames were handled, in order, and the bytes that still wait are the others.
  pub record Delivered (frames : List (List ℕ)) (rest : List ℕ) (s t : App × W) : Type 0 where
    pub before : List (List ℕ)
    pub behind : List (List ℕ)
    pub frames_eq : frames ≡ before ++ behind
    pub handled : Handles env before s t
    pub stream : pending t.0 ++ on_radio t.1 ≡ concat behind ++ rest
    pub ready : IsReady t.0 t.1

  -- What the radio hears leaves it ready.
  Heard-IsReady :
      (bytes : List ℕ) (a : App) (w w' : W)
      → Heard env.cfg bytes (sim w) (sim w')
      → seen w' ≡ seen w
      → IsReady a w
      → IsReady a w'
  Heard-IsReady bytes a w w' h e r = record {
    buffer = r.buffer;
    partial = r.partial;
    handle = r.handle;
    idle = record {
      on = omega (arith, h.power, r.idle.on);
      sound = h.sound;
      no_reply = ap length h.replies ∙ r.idle.no_reply ∙ sym e;
    };
    mode = ap (λ (c : RadioConfig). c.mode == mode_rx || c.mode == mode_duplex) h.config ∙ r.mode;
  }

  Delivered-later :
      (before behind frames : List (List ℕ)) (rest : List ℕ) (s m t : App × W)
      → frames ≡ before ++ behind
      → Handles env before s m
      → Delivered behind rest m t
      → Delivered frames rest s t
  Delivered-later before behind frames rest s m t e handled later = record {
    before = before ++ later.before;
    behind = later.behind;
    frames_eq =
        e
        ∙ ap (λ fs. before ++ fs) later.frames_eq
        ∙ sym (append_assoc before later.before later.behind);
    handled = Handles-append env handled later.handled;
    stream = later.stream;
    ready = later.ready;
  }

  -- What the radio hears in between comes in front of the bytes that are still to come.
  Heard-Delivered :
      (bytes : List ℕ) (more frames : List (List ℕ)) (rest : List ℕ) (a : App) (w w' : W)
      (t : App × W)
      → Heard env.cfg bytes (sim w) (sim w')
      → seen w' ≡ seen w
      → IsReady a w
      → pending a ++ (on_radio w ++ (bytes ++ concat more)) ≡ concat frames ++ rest
      → (IsReady a w'
          → pending a ++ (on_radio w' ++ concat more) ≡ concat frames ++ rest
          → Delivered frames rest (a, w') t)
      → Delivered frames rest (a, w) t
  Heard-Delivered bytes more frames rest a w w' t h c r e later =
      Delivered-later [] frames frames rest (a, w) (a, w') t refl
        (receive a.receive_buffer a.receive_buff_length w' done)
        (later (Heard-IsReady bytes a w w' h c r) (
          ap (λ bs. pending a ++ (bs ++ concat more)) h.waiting_eq
          ∙ ap (λ bs. pending a ++ bs) (append_assoc (on_radio w) bytes (concat more))
          ∙ e))

  -- A poll between the bytes that wait and those that are still to come.
  poll-Delivered :
      (more frames : List (List ℕ)) (rest : List ℕ) (a : App) (w : W) (t : App × W)
      → IsReady a w
      → All IsFrame frames
      → IsPartial rest
      → pending a ++ (on_radio w ++ concat more) ≡ concat frames ++ rest
      → ((behind : List (List ℕ))
          → IsReady (service_uplink env (a, w)).0 (service_uplink env (a, w)).1
          → All IsFrame behind
          → pending (service_uplink env (a, w)).0
              ++ (on_radio (service_uplink env (a, w)).1 ++ concat more)
            ≡ concat behind ++ rest
          → Delivered behind rest (service_uplink env (a, w)) t)
      → Delivered frames rest (a, w) t
  poll-Delivered more frames rest a w t r fs p e later =
      let k =
        Cut-stream frames rest (pending a ++ on_radio w) (concat more) fs p
          (append_assoc (pending a) (on_radio w) (concat more) ∙ e) in
      let (fs₁, fs₂) = All-split env k.before k.behind (subst (All IsFrame) k.frames_eq fs) in
      let u = service_uplink env (a, w) in
      let q =
        service_uplink-Polled env spi sent sim seen link apart k.before k.partial a w r.buffer
          r.partial r.handle r.idle fs₁ k.partial_is k.pre_eq in
      let (_, fs₃) = All-split env q.before q.behind (subst (All IsFrame) q.frames_eq fs₁) in
      Delivered-later q.before (q.behind ++ k.behind) frames rest (a, w) u t
        (k.frames_eq
          ∙ ap (λ fs. fs ++ k.behind) q.frames_eq
          ∙ append_assoc q.before q.behind k.behind)
        q.handled
        (later (q.behind ++ k.behind)
          (record {
            buffer = q.buffer;
            partial = q.partial;
            handle = q.handle;
            idle = q.idle;
            mode =
                ap (λ (c : RadioConfig). c.mode == mode_rx || c.mode == mode_duplex) q.config
                ∙ r.mode;
          })
          (All-join q.behind k.behind fs₃ fs₂)
          (sym (append_assoc (pending u.0) (on_radio u.1) (concat more))
            ∙ ap (λ bs. bs ++ concat more) q.stream
            ∙ append_assoc (concat q.behind) k.partial (concat more)
            ∙ ap (λ bs. concat q.behind ++ bs) k.post_eq
            ∙ sym (append_assoc (concat q.behind) (concat k.behind) rest)
            ∙ ap (λ bs. bs ++ rest) (sym (concat-append q.behind k.behind))))

  -- If the application and the radio are ready, and the bytes that wait in the application, then
  -- in the radio, and then what the radio takes of the datagrams to come are whole transfer
  -- frames and then a partial one, then after any order of datagrams, ticks and polls some first
  -- of these frames were handled, in order, with only the receive buffer and the world changed in
  -- between, the bytes that wait in both places are the others and the partial one, and both are
  -- ready again.
  pub Steps-Delivered :
      {ds : List (List ℕ)} (frames : List (List ℕ)) (rest : List ℕ) {a : App} {w : W} {t : App × W}
      → Steps ds (a, w) t
      → IsReady a w
      → All IsFrame frames
      → IsPartial rest
      → pending a ++ (on_radio w ++ concat ds) ≡ concat frames ++ rest
      → Delivered frames rest (a, w) t
  Steps-Delivered frames rest {a = a} {w = w} here r fs p e = record {
    before = [];
    behind = frames;
    frames_eq = refl;
    handled = done;
    stream = ap (λ bytes. pending a ++ bytes) (sym (append-nil (on_radio w))) ∙ e;
    ready = r;
  }
  Steps-Delivered frames rest {a = a} {w = w} {t = t} (datagram {ds = ds} d steps) r fs p e =
      Heard-Delivered (accepted env.cfg d (sim w)) ds frames rest a w (deliver d w) t
        (subst (Heard env.cfg (accepted env.cfg d (sim w)) (sim w)) (sym (air.heard d w))
          (on_ground-Heard env.cfg d (sim w) r.idle.sound r.idle.on r.mode))
        (air.heard_seen d w) r e (λ r' e'. Steps-Delivered frames rest steps r' fs p e')
  Steps-Delivered {ds = ds} frames rest {a = a} {w = w} {t = t} (tick_step time steps) r fs p e =
      Heard-Delivered [] ds frames rest a w (tick time w) t
        (subst (Heard env.cfg [] (sim w)) (sym (air.ticked time w))
          (on_tick-Heard env.cfg due (sent [] w) time (sim w) r.idle.sound))
        (air.ticked_seen time w) r e (λ r' e'. Steps-Delivered frames rest steps r' fs p e')
  Steps-Delivered {ds = ds} frames rest {a = a} {w = w} {t = t} (poll steps) r fs p e =
      poll-Delivered ds frames rest a w t r fs p e
        (λ behind r' fs' e'. Steps-Delivered behind rest steps r' fs' p e')
