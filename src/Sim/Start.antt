-- ===== src/Sim/Start.antt =====
-- The start and the end of the simulator in sim/radio_sim.c: `radio_sim_init`, `radio_sim_cleanup`,
-- and the component interface that calls them. Every resource that is taken or released is noted.
-- Addresses and names of the transports and sockets are left out.
pub mod Owned
use tryspace_comp_radio.Base.{
  ℕ, Bool, true, false, not, Option, none, some, List, [], ◌∷◌, ◌++◌, ℤ, pos, negsuc, eq_int,
  is_negative, if◌then◌else◌,
}
use tryspace_comp_radio.Hardware.{DeviceConfig}
use tryspace_comp_radio.Device.{mode_duplex}
use tryspace_comp_radio.Sim.State.{Sim, init, zero_hk, zero_config}

-- What is taken: the state's memory, the mutex, the three transports, the two sockets, the thread.
-- The time handle is cleaned up on one path, but never taken.
pub data Resource : Type 0 where
  memory mutex spi_transport power_transport interrupt_transport rx_socket tx_socket thread
        time_handle :
      Resource

pub data Call : Type 0 where
  took : Resource → Call
  released : Resource → Call

-- pthread, the sockets and Simulith over the world outside: the status of each call, a socket's
-- descriptor, the address of the memory.
pub record Outside (W : Type 0) : Type 0 where
  pub transport_success : ℤ
  pub allocate : W → Option ℕ × W
  pub mutex_init : W → ℤ × W
  pub transport_init : Resource → W → ℤ × W
  pub socket : Resource → W → ℤ × W
  pub bind : ℤ → W → ℤ × W
  pub thread_create : W → ℤ × W
  pub release : Resource → W → W

-- The fields of the state that hold resources, its other fields as `sim`, and `g_state` as the
-- address that it holds.
pub record Boot : Type 0 where
  pub g_state : Option ℕ
  pub rx_fd : ℤ
  pub tx_fd : ℤ
  pub thread_running : Bool
  pub sim : Sim
  pub calls : List Call

abbrev pub note : Call → Boot → Boot
note c b = record b { calls = b.calls ++ c ∷ [] }

-- RADIO_SIM_SUCCESS or RADIO_SIM_ERROR.
pub data InitStatus (W : Type 0) : Type 0 where
  sim_success sim_error : Boot → W → InitStatus W

-- `memset(state, 0, sizeof(radio_sim_state_t))`, which the GPIO globals are not part of.
unfoldable pub zero_sim : DeviceConfig → Sim → Sim
zero_sim cfg s = record (init cfg s.power_value s.interrupt_value) {
  hk = zero_hk;
  config = zero_config;
}

module _ {W : Type 0} (cfg : DeviceConfig) (out : Outside W) where
  abbrev pub release_all : List Resource → Boot → W → Boot × W
  release_all [] b w = (b, w)
  release_all (r ∷ rs) b w = release_all rs (note (released r) b) (out.release r w)

  -- An error: what was taken is released, and the status is RADIO_SIM_ERROR.
  abbrev pub give_up : List Resource → Boot → W → InitStatus W
  give_up rs b w = let (b', w') = release_all rs b w in sim_error b' w'

  -- The thread, behind the initial values.
  unfoldable pub init_thread : Boot → W → InitStatus W
  init_thread b w =
      let b₁ = record b {
        sim = record (b.sim) {
          hk = record (b.sim.hk) { command_counter = 0; mode = mode_duplex; ground_lock = 0 };
          config = record (b.sim.config) { mode = mode_duplex };
          interrupt_asserted = 0;
          last_update_time = 0;
        };
        thread_running = true;
      } in
      let (status, w₁) = out.thread_create w in
      if eq_int status (pos 0)
      then sim_success (note (took thread) b₁) w₁
      else give_up
          (time_handle ∷ tx_socket ∷ rx_socket ∷ interrupt_transport ∷ power_transport
            ∷ spi_transport ∷ mutex ∷ [])
          b₁ w₁

  -- The sockets.
  unfoldable pub init_sockets : Boot → W → InitStatus W
  unfolding init_thread
  init_sockets b w =
      let (rx, w₁) = out.socket rx_socket w in
      let b₁ = note (took rx_socket) (record b { rx_fd = rx }) in
      let (tx, w₂) = out.socket tx_socket w₁ in
      let b₂ = note (took tx_socket) (record b₁ { tx_fd = tx }) in
      let (bound, w₃) = out.bind rx w₂ in
      if is_negative rx
      then give_up (interrupt_transport ∷ power_transport ∷ spi_transport ∷ mutex ∷ [])
          (record b { rx_fd = rx }) w₁
      else if is_negative tx
      then give_up (rx_socket ∷ interrupt_transport ∷ power_transport ∷ spi_transport ∷ mutex ∷ [])
          (record b₁ { tx_fd = tx }) w₂
      else if is_negative bound
      then give_up
          (tx_socket ∷ rx_socket ∷ interrupt_transport ∷ power_transport ∷ spi_transport ∷ mutex
            ∷ [])
          b₂ w₃
      else init_thread b₂ w₃

  -- radio_sim_init on the state at an address.
  unfoldable pub sim_init : ℕ → Boot → W → InitStatus W
  unfolding init_sockets
  sim_init address b w =
      let b₀ = record b {
        g_state = some address;
        rx_fd = pos 0;
        tx_fd = pos 0;
        thread_running = false;
        sim = zero_sim cfg b.sim;
      } in
      let (locked, w₁) = out.mutex_init w in
      let b₁ = note (took mutex) b₀ in
      let (spi, w₂) = out.transport_init spi_transport w₁ in
      let b₂ = note (took spi_transport) b₁ in
      let (power, w₃) = out.transport_init power_transport w₂ in
      let b₃ = note (took power_transport) b₂ in
      let (interrupt, w₄) = out.transport_init interrupt_transport w₃ in
      let b₄ = note (took interrupt_transport) b₃ in
      if not (eq_int locked (pos 0))
      then sim_error b₀ w₁
      else if not (eq_int spi out.transport_success)
      then give_up (mutex ∷ []) b₁ w₂
      else if is_negative power
      then give_up (spi_transport ∷ mutex ∷ []) b₂ w₃
      else if is_negative interrupt
      then give_up (power_transport ∷ spi_transport ∷ mutex ∷ []) b₃ w₄
      else init_sockets b₄ w₄

  -- `if (fd >= 0) { close(fd); fd = -1; }` for each of the sockets.
  abbrev pub close_rx : Boot → W → Boot × W
  close_rx b w =
      if is_negative b.rx_fd
      then (b, w)
      else (note (released rx_socket) (record b { rx_fd = negsuc 0 }), out.release rx_socket w)

  abbrev pub close_tx : Boot → W → Boot × W
  close_tx b w =
      if is_negative b.tx_fd
      then (b, w)
      else (note (released tx_socket) (record b { tx_fd = negsuc 0 }), out.release tx_socket w)

  -- radio_sim_cleanup
  unfoldable pub sim_cleanup : Boot → W → Boot × W
  sim_cleanup b w =
      let (b₁, w₁) : Boot × W =
        if b.thread_running
        then release_all (thread ∷ []) (record b { thread_running = false }) w
        else (b, w) in
      let (b₂, w₂) = close_rx (record b₁ { g_state = none }) w₁ in
      let (b₃, w₃) = close_tx b₂ w₂ in
      release_all (interrupt_transport ∷ power_transport ∷ spi_transport ∷ mutex ∷ []) b₃ w₃

  -- The end of radio_sim_component_init, by the status of radio_sim_init.
  abbrev pub started : ℕ → InitStatus W → Option ℕ × Boot × W
  started address (sim_success b w) = (some address, b, w)
  started address (sim_error b w) = let (b', w') = release_all (memory ∷ []) b w in (none, b', w')

  -- radio_sim_component_init: the address of the state, or COMPONENT_ERROR.
  unfoldable pub component_init : Boot → W → Option ℕ × Boot × W
  unfolding sim_init
  component_init b w =
      let (allocated, w₁) = out.allocate w in
      elim allocated [
        | none ↦ (none, b, w₁)
        | some address ↦ started address (sim_init address (note (took memory) b) w₁)
      ]

  -- radio_sim_component_cleanup
  unfoldable pub component_cleanup : Option ℕ → Boot → W → Boot × W
  unfolding sim_cleanup
  component_cleanup none b w = (b, w)
  component_cleanup (some address) b w =
      let (b₁, w₁) = sim_cleanup b w in release_all (memory ∷ []) b₁ w₁

  -- radio_sim_on_tick on the state that `g_state` points to.
  abbrev pub tick_g_state : (Sim → Sim) → Boot → Boot
  tick_g_state tick b =
      let ticked = record b { sim = tick b.sim } in
      elim b.g_state [ none ↦ b | some address ↦ ticked ]

  -- radio_sim_component_tick: `g_state` is set for the tick and put back behind it.
  unfoldable pub component_tick : (Sim → Sim) → Option ℕ → Boot → Boot
  component_tick tick none b = b
  component_tick tick (some address) b =
      record (tick_g_state tick (record b { g_state = some address })) { g_state = b.g_state }
