-- ===== src/Examples/Downlink.antt =====
-- The way down at three packets, with a radio that can be run.
use tryspace_comp_radio.Base.{
  ℕ, suc, ◌+◌, ◌-◌, ◌≡◌, ◌≤◌, ◌<◌, refl, sym, ap, inl, ◌∙◌, inr, arith, none, some, List, [], ◌∷◌,
  ◌++◌, length, length-append, length-replicate, length-take_bound, replicate, take, drop, get_or,
  take_all, subst, concat, append-nil, concat-append,
}
use tryspace_comp_radio.Env.{Env, FrameInfo}
use tryspace_comp_radio.Sim.State.{Sim, init}
use tryspace_comp_radio.App.State.{App, target}
use tryspace_comp_radio.App.Downlink.Filled.{IsTm}
use tryspace_comp_radio.App.Downlink.Laws.{IsQuiet, IsPipe, IsFraming, DownlinkSide}
use tryspace_comp_radio.App.Downlink.Delivery.{IsUp}
use tryspace_comp_radio.Sim.Ring.{rx_count}
use tryspace_comp_radio.Sim.Ring.Fifo.{contents}
use tryspace_comp_radio.App.Uplink.Service.Linked.{Idle}
use tryspace_comp_radio.App.Dispatch.Duplex.{Served, process_command_packet-Served}
use tryspace_comp_radio.Examples.World.{cfg, app_with, message}
use tryspace_comp_radio.Examples.Link.{
  Linked, give, env_with, link_with, apart_with, app_spi, sendto, sendto-whole, frame,
  frame-IsFrame, loaded,
}

abbrev env : Env Linked
env = env_with cfg

-- The packets that the pipe gives.
abbrev clip : List (List ℕ) → List (List ℕ)
clip [] = []
clip (p ∷ ps) = take 100 p ∷ clip ps

abbrev sim : Linked → Sim
sim w = w.radio

abbrev seen : Linked → ℕ
seen w = w.seen

abbrev queue : Linked → List (List ℕ)
queue w = clip w.queue

tm : IsTm env 1000
tm = record {
  framer = record { starts = λ info w. refl; started = λ info w. refl; completes = λ info w. refl };
  adds = λ info p w h. refl;
  fits = λ w p e. fits_in w.queue w p e;
}
  where
    fits_in :
        (q : List (List ℕ)) (w : Linked) (p : List ℕ)
        → (give q w).0 ≡ some p
        → suc (length p - 1) < 1000
    fits_in [] w p e = absurd (ground arith)
    fits_in (x ∷ q) w p e =
        let size : length (take 100 x) ≡ length p = ap (λ o. length (target o [])) e in
        omega (arith, size, length-take_bound 100 x)

give-empty :
    (q : List (List ℕ)) (w : Linked)
    → clip q ≡ []
    → ((give q w).0 ≡ none) × (clip (give q w).1.queue ≡ [])
give-empty [] w e = (refl, refl)
give-empty (x ∷ q) w e = absurd (omega (arith, ap length e))

give-next :
    (q : List (List ℕ)) (w : Linked) (p : List ℕ) (ps : List (List ℕ))
    → clip q ≡ p ∷ ps
    → ((give q w).0 ≡ some p) × (clip (give q w).1.queue ≡ ps)
give-next [] w p ps e = absurd (omega (arith, ap length e))
give-next (x ∷ q) w p ps e = (ap (λ l. some (get_or l 0 [])) e, ap (drop 1) e)

-- The bytes that fill a frame up.
abbrev padding : List (List ℕ) → List ℕ
padding ps = replicate (1786 - length (concat ps)) 0

abbrev Holds : List (List ℕ) → FrameInfo → Type 0
Holds ps info = (info.frame ≡ concat ps) × (length info.frame + info.free_octets ≤ 1786)

abbrev Carries : List (List ℕ) → List ℕ → Type 0
Carries ps f = (f ≡ concat ps ++ padding ps) × (length f ≡ 1786)

abbrev IsCadu : List (List ℕ) → List ℕ → Type 0
IsCadu ps d = Carries ps (drop 4 d)

quiet : (w : Linked) → IsQuiet env app_spi sim seen queue w w
quiet w = record { radio = refl; replies = refl; pipe = refl }

pipe : IsPipe env app_spi sim seen queue
pipe = record {
  empty = λ w e. (give-empty w.queue w e).0;
  still = λ w e. (give-empty w.queue w e).1;
  next = λ w p ps e. (give-next w.queue w p ps e).0;
  others = λ w p ps e. (give-next w.queue w p ps e).1;
  radio = λ w. give-radio w.queue w;
  replies = λ w. give-seen w.queue w;
  written = λ bytes w. refl;
  sized = λ p. omega arith;
}
  where
    give-radio : (q : List (List ℕ)) (w : Linked) → (give q w).1.radio ≡ w.radio
    give-radio [] w = refl
    give-radio (x ∷ q) w = refl

    give-seen : (q : List (List ℕ)) (w : Linked) → (give q w).1.seen ≡ w.seen
    give-seen [] w = refl
    give-seen (x ∷ q) w = refl

add_packet-Holds :
    (ps : List (List ℕ)) (info : FrameInfo) (p : List ℕ) (w : Linked)
    → Holds ps info
    → suc (length p - 1) < info.free_octets
    → Holds (ps ++ (p ∷ [])) (env.tm.add_packet info p w).1
add_packet-Holds ps info p w h fits = (
  ap (λ f. f ++ p) (h.0)
      ∙ sym (concat-append ps (p ∷ []) ∙ ap (λ t. concat ps ++ t) (append-nil p)),
  omega (arith, h.1, length-append info.frame p, fits),
)

complete_frame-Carries :
    (ps : List (List ℕ)) (info : FrameInfo) (w : Linked)
    → Holds ps info
    → Carries ps (env.tm.complete_frame info w).1.frame
complete_frame-Carries ps info w h = (
  ap (λ f. f ++ replicate (1786 - length f) 0) (h.0),
  omega (
    arith,
    h.1,
    length-append info.frame (replicate (1786 - length info.frame) 0),
    length-replicate {A = ℕ} (1786 - length info.frame) 0,
  ),
)

framing : IsFraming env app_spi sim seen queue Holds Carries IsCadu
framing = record {
  quiet_init = λ info w. quiet w;
  quiet_start = λ info w. quiet w;
  quiet_add = λ info p w. quiet w;
  quiet_idle = λ info w. quiet w;
  quiet_complete = λ info w. quiet w;
  quiet_synchronize = λ cadu w. quiet w;
  quiet_association = λ w. quiet w;
  quiet_security = λ f w. quiet w;
  inits = λ info w. refl;
  start = λ info w. (refl, omega arith);
  ready = λ info w. refl;
  add = add_packet-Holds;
  add_ready = λ info p w. refl;
  idle = λ ps info w h. h;
  complete_good = λ ps info w h. refl;
  complete = complete_frame-Carries;
  sized = λ ps f c. c.1;
  secure = λ ps f w c. c;
  synchronize = λ ps cadu w len c. (
    length cadu,
    refl,
    omega (arith, len),
    omega (arith, len),
    omega arith,
    subst (IsCadu ps) (sym (take_all cadu)) c,
  );
  synchronize_sized = λ cadu w. refl;
}

abbrev side : DownlinkSide env
side = record {
  spi = app_spi;
  status = sendto;
  takes = λ payload w some_bytes small. sendto-whole payload w;
  sim = sim;
  seen = seen;
  link = link_with cfg app_spi;
  queue = queue;
  room = 1000;
  Holds = Holds;
  Carries = Carries;
  IsCadu = IsCadu;
  tm = tm;
  pipe = pipe;
  framing = framing;
}

-- Three packets wait, of which a poll takes two.
abbrev waiting : Linked
waiting = record {
  radio = init cfg 1 0;
  seen = 0;
  queue = (1 ∷ 2 ∷ []) ∷ (3 ∷ []) ∷ (4 ∷ 5 ∷ []) ∷ [];
}

-- The CADU buffer as it is declared.
abbrev app : App
app = record (app_with 1) { cadu_buffer = replicate 1790 0 }

-- A frame and a part of the next one wait in the radio, and the packets on the pipe.
abbrev busy : Linked
busy = record loaded { queue = waiting.queue }

-- The device is enabled in duplex mode.
abbrev duplex_app : App
duplex_app = record app {
  hk = record (app.hk) { device_hk = record (app.hk.device_hk) { mode = 3 } };
}

busy-Idle : Idle env app_spi sendto sim seen (link_with cfg app_spi) (apart_with cfg) busy
unfolding init
busy-Idle = record {
  on = omega arith;
  sound = record {
    ring = record { length_buf = refl; head_in = omega arith; tail_in = omega arith };
    off = inl (omega arith);
  };
  no_reply = refl;
}

duplex_app-IsUp : IsUp env side duplex_app busy
unfolding init
duplex_app-IsUp = record {
  handle = refl;
  cadu = length-replicate {A = ℕ} 1790 0;
  on = omega arith;
  sends = refl;
}

process_command_packet-Served_example :
    Served env side (apart_with cfg) 4 (message 5 8) (frame ∷ []) (0 ∷ 0 ∷ []) [] duplex_app busy
unfolding contents rx_count
process_command_packet-Served_example =
    process_command_packet-Served env side (apart_with cfg) 4 (message 5 8) (frame ∷ [])
      (0 ∷ 0 ∷ []) [] duplex_app busy (record { id = refl; code = refl; size = refl }) refl refl
      (record { sized = length-replicate {A = ℕ} 1024 0; below = omega arith }) (inl (omega arith))
      duplex_app-IsUp busy-Idle (frame-IsFrame, tt) (inl (omega arith)) refl (inr (refl, refl))
      (omega arith) (omega arith)
