-- ===== src/Examples/Application.antt =====
-- The theorems on the application's commands at concrete messages.
use tryspace_comp_radio.Base.{
  none, replicate, List, inr, ◌<◌, length, length-take_bound, ℕ, ◌≤◌, ◌≡◌, ◌⊎◌, inl, refl, some, [],
  ◌∷◌, arith, length-replicate,
}
use tryspace_comp_radio.Hardware.{closed}
use tryspace_comp_radio.Device.{done, os_error}
use tryspace_comp_radio.App.Eid
use tryspace_comp_radio.App.State.{App, event, information, error, send, inc_command_error}
use tryspace_comp_radio.App.Commands.{verify_cmd_length, enable, disable}
use tryspace_comp_radio.App.Commands.Device.{bring_up, enable-bring_up, disable-closed}
use tryspace_comp_radio.App.Dispatch.{
  service, process_ground_command, process_command_packet, checked,
}
use tryspace_comp_radio.App.Dispatch.Refusal.{process_ground_command-refused}
use tryspace_comp_radio.App.Dispatch.Service.{empty, packet, service-disabled}
use tryspace_comp_radio.App.Dispatch.Invariant.{IsApp, process_command_packet-IsApp}
use tryspace_comp_radio.App.Downlink.{Down, send_frames, service_downlink}
use tryspace_comp_radio.App.Downlink.Stuck.{IsStuck, IsSmooth, send_frames-IsStuck}
use tryspace_comp_radio.App.Downlink.Filled.{IsFramer, IsTm}
use tryspace_comp_radio.App.Downlink.Ends.{service_downlink-returns}
use tryspace_comp_radio.Examples.World.{World, env, app_with, message}

abbrev world : World
world = record { replies = []; written = []; downlink = [] }

-- One packet waits for the downlink.
abbrev loaded : World
loaded = record { replies = []; written = []; downlink = (1 ∷ 2 ∷ []) ∷ [] }

start-IsApp : (n : ℕ) → n ≤ 1 → IsApp (app_with n)
start-IsApp n h = record { flag = h; sized = length-replicate {A = ℕ} 1024 0; below = omega arith }

enable_runs :
    process_command_packet env 1 (message 2 8) (app_with 0) world
    ≡ some (enable env (app_with 0) world)
unfolding process_command_packet process_ground_command checked verify_cmd_length
enable_runs = refl

process_command_packet-IsApp_example : IsApp (enable env (app_with 0) world).0
process_command_packet-IsApp_example =
    process_command_packet-IsApp env 1 (message 2 8) (app_with 0) world
      (enable env (app_with 0) world) (start-IsApp 0 (omega arith)) enable_runs

process_ground_command-refused_example :
    process_ground_command env 1 (message 2 9) (app_with 0) world
    ≡ some (inc_command_error (send (event Eid.len_err error) (app_with 0)), world)
process_ground_command-refused_example =
    process_ground_command-refused env 1 (message 2 9) (app_with 0) world refl

enable-bring_up_example :
    let a' = (enable env (app_with 0) world).0 in
    let up = bring_up env (app_with 0) world in
    ((up ≡ done)
      × (a'.hk.device_enabled ≡ 1)
      × (a'.hk.device_count ≡ 1)
      × (a'.hk.command_count ≡ 1)
      × (a'.out ≡ event Eid.enable_inf information ∷ []))
    ⊎ ((up ≡ os_error)
        × (a'.hk.device_enabled ≡ 0)
        × (a'.hk.device_error_count ≡ 1)
        × (a'.hk.command_count ≡ 1)
        × (a'.out ≡ event Eid.enable_err error ∷ []))
enable-bring_up_example = enable-bring_up env (app_with 0) world refl

disable-closed_example :
    let a' = (disable env (app_with 1) world).0 in
    (a'.hk.device_enabled ≡ 0)
    × (a'.spi.is_open ≡ closed)
    × (a'.power_gpio.is_open ≡ closed)
    × (a'.interrupt_gpio.is_open ≡ closed)
    × (a'.hk.command_count ≡ 1)
    × (a'.hk.device_count ≡ 1)
    × (a'.out ≡ event Eid.disable_inf information ∷ [])
disable-closed_example = disable-closed env (app_with 1) world refl

service-disabled_example : service env 2 (app_with 0) loaded ≡ some (app_with 0, world)
service-disabled_example =
    service-disabled env 2 (app_with 0) (λ e. omega arith) (packet refl (empty refl)) (omega arith)

List-cases :
    (xs : List (List ℕ)) → (xs ≡ []) ⊎ ((q : List ℕ) × (qs : List (List ℕ)) × (xs ≡ q ∷ qs))
List-cases [] = inl refl
List-cases (q ∷ qs) = inr (q, qs, refl)

-- The libraries of the small world: a fresh frame has 1000 octets, and packets at most 100.
fresh-IsFramer : IsFramer env 1000
fresh-IsFramer = record {
  starts = λ info w. refl;
  started = λ info w. refl;
  completes = λ info w. refl;
}

tm-IsTm : IsTm env 1000
tm-IsTm = record { framer = fresh-IsFramer; adds = λ info p w h. refl; fits = fits }
  where
    fits : (w : World) (p : List ℕ) → (env.cfe.poll_downlink w).0 ≡ some p → length p < 1000
    fits w p h = elim (List-cases w.downlink) [
      | inl empty_pipe ↦ absurd (ground (arith, empty_pipe))
      | inr (q, qs, e) ↦ ground (arith, e, length-take_bound 100 q)
    ]

service_downlink-returns_example :
    (r : App × World) × (service_downlink env 4 (app_with 1) loaded ≡ some r)
service_downlink-returns_example =
    service_downlink-returns env 1000 4 (app_with 1) loaded tm-IsTm (omega arith)

-- A packet of 1200 bytes waits.
abbrev large_waits : Down World
large_waits = record {
  pkt_count = 0;
  pkt_len = 1200;
  packet = replicate 1200 0;
  app = app_with 1;
  world = world;
}

large-IsStuck : IsStuck env 1000 large_waits
large-IsStuck = record {
  count = omega arith;
  waiting = omega arith;
  fresh = refl;
  large = omega (arith, length-replicate {A = ℕ} 1200 0);
}

smooth-IsSmooth : IsSmooth env 1000
smooth-IsSmooth = record {
  framer = fresh-IsFramer;
  completes = λ info w. refl;
  synchronizes = λ cadu w. refl;
}

send_frames-IsStuck_example : send_frames env 100 large_waits ≡ none
send_frames-IsStuck_example =
    send_frames-IsStuck env 1000 smooth-IsSmooth 100 large_waits (omega arith) large-IsStuck
