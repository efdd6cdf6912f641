-- ===== src/Examples/Sim.antt =====
-- The theorems on the start and the end of the simulator in sim/radio_sim.c, where every call
-- succeeds.
use tryspace_comp_radio.Base.{◌≡◌, refl, false, true, none, some, [], ◌∷◌, pos}
use tryspace_comp_radio.Sim.State.{Sim, init}
use tryspace_comp_radio.Sim.Start.{
  Outside, Boot, took, memory, mutex, spi_transport, power_transport, interrupt_transport,
  rx_socket, tx_socket, thread, component_init, component_cleanup, component_tick,
}
use tryspace_comp_radio.Sim.Start.Owned.{
  Started, owned, component_init-Started, component_cleanup-owned,
}
use tryspace_comp_radio.Examples.World.{World, cfg}

abbrev world : World
world = record { replies = []; written = []; downlink = [] }

abbrev out : Outside World
out = record {
  transport_success = pos 0;
  allocate = λ w. (some 64, w);
  mutex_init = λ w. (pos 0, w);
  transport_init = λ r w. (pos 0, w);
  socket = λ r w. (pos 5, w);
  bind = λ fd w. (pos 0, w);
  thread_create = λ w. (pos 0, w);
  release = λ r w. w;
}

abbrev sim : Sim
sim = init cfg 1 0

-- The globals before the start.
abbrev boot : Boot
boot = record {
  g_state = none;
  rx_fd = pos 0;
  tx_fd = pos 0;
  thread_running = false;
  sim = sim;
  calls = [];
}

abbrev running : Boot
running = record boot {
  g_state = some 64;
  rx_fd = pos 5;
  tx_fd = pos 6;
  thread_running = true;
  calls =
      took memory
      ∷ took mutex
      ∷ took spi_transport
      ∷ took power_transport
      ∷ took interrupt_transport
      ∷ took rx_socket
      ∷ took tx_socket
      ∷ took thread
      ∷ [];
}

component_init-Started_example : Started cfg out sim (component_init cfg out boot world)
component_init-Started_example = component_init-Started cfg out boot world

component_cleanup-owned_example :
    owned []
      (component_cleanup cfg out
        (some 64)
        (component_tick cfg out (λ s. s) (some 64) running)
        world).0.calls
    ≡ some []
component_cleanup-owned_example =
    component_cleanup-owned cfg out (λ s. s) 64 running world
      (record { held = refl; rx = refl; tx = refl; running = refl })
