-- ===== src/Sim/Start/Owned.antt =====
-- What the simulator in sim/radio_sim.c holds behind its start, by how far it came, and behind its
-- end.
use tryspace_comp_radio.Base.{
  ℕ, ◌≡◌, ◌≢◌, refl, arith, Bool, true, false, not, Option, none, some, List, [], ◌∷◌, ◌++◌, ℤ, pos,
  eq_int, is_negative, if◌then◌else◌, Option-cases, ◌∙◌, ap, sym, inl, inr,
}
use tryspace_comp_radio.Hardware.{DeviceConfig}
use tryspace_comp_radio.Sim.State.{Sim, init}
use tryspace_comp_radio.Sim.Start.{
  Resource, memory, mutex, spi_transport, power_transport, interrupt_transport, rx_socket,
  tx_socket, thread, time_handle, Call, took, released, InitStatus, sim_success, sim_error, Outside,
  Boot, init_thread, init_sockets, sim_init, sim_cleanup, component_init, component_cleanup,
  component_tick, zero_sim, started,
}

abbrev pub same : Resource → Resource → Bool
same memory memory = true
same mutex mutex = true
same spi_transport spi_transport = true
same power_transport power_transport = true
same interrupt_transport interrupt_transport = true
same rx_socket rx_socket = true
same tx_socket tx_socket = true
same thread thread = true
same time_handle time_handle = true
same _ _ = false

-- The resources that a resource is taken from; `none` if it is not among them.
abbrev pub without : Resource → List Resource → Option (List Resource)
without r [] = none
without r (h ∷ held) =
    let later : Option (List Resource) = elim (without r held) [
      | none ↦ none
      | some rest ↦ some (h ∷ rest)
    ] in
    if same r h then some held else later

-- To clean up the time handle, which is NULL, gives nothing back.
abbrev pub given_back : Resource → List Resource → Option (List Resource)
given_back time_handle held = some held
given_back r held = without r held

-- What is held behind the calls; `none` if one released what was not held.
abbrev pub owned : List Resource → List Call → Option (List Resource)
owned held [] = some held
owned held (took r ∷ calls) = owned (r ∷ held) calls
owned held (released r ∷ calls) = elim (given_back r held) [
  | none ↦ none
  | some rest ↦ owned rest calls
]

abbrev and_owned : Option (List Resource) → List Call → Option (List Resource)
and_owned o calls = elim o [ none ↦ none | some rest ↦ owned rest calls ]

nothing_held : (now : List Resource) → none ≢ some now
nothing_held now h = ground arith

owned-append :
    (held : List Resource) (calls : List Call) (now : List Resource) (more : List Call)
    → owned held calls ≡ some now
    → owned held (calls ++ more) ≡ owned now more
owned-append held [] now more h = ap (λ o. elim o [ none ↦ none | some k ↦ owned k more ]) h
owned-append held (took r ∷ calls) now more h = owned-append (r ∷ held) calls now more h
owned-append held (released r ∷ calls) now more h = elim (Option-cases (given_back r held)) [
  | inl stray ↦ absurd (nothing_held now (sym (ap (λ o. and_owned o calls) stray) ∙ h))
  | inr (rest, e) ↦
      ap (λ o. and_owned o (calls ++ more)) e
      ∙ owned-append rest calls now more (sym (ap (λ o. and_owned o calls) e) ∙ h)
]

-- One more resource is given back.
owned-released :
    (calls : List Call) (held rest : List Resource) (r : Resource)
    → owned [] calls ≡ some held
    → given_back r held ≡ some rest
    → owned [] (calls ++ released r ∷ []) ≡ some rest
owned-released calls held rest r h e =
    owned-append [] calls held (released r ∷ []) h
    ∙ ap (λ o. elim o [ none ↦ none | some now ↦ some now ]) e

-- Everything is held, as the fields of the state say.
pub record IsOpen (b : Boot) : Type 0 where
  pub held :
      owned [] b.calls
      ≡ some (
          thread ∷ tx_socket ∷ rx_socket ∷ interrupt_transport ∷ power_transport ∷ spi_transport
          ∷ mutex ∷ memory ∷ [])
  pub rx : is_negative b.rx_fd ≡ false
  pub tx : is_negative b.tx_fd ≡ false
  pub running : b.thread_running ≡ true

-- The radio is up, in the state in which a run starts.
pub record IsUp (cfg : DeviceConfig) (address : ℕ) (s : Sim) (b : Boot) : Type 0 where
  pub opened : IsOpen b
  pub points : b.g_state ≡ some address
  pub fresh : b.sim ≡ init cfg s.power_value s.interrupt_value

module _ {W : Type 0} (cfg : DeviceConfig) (out : Outside W) where
  -- What radio_sim_component_init hands back, where the simulator was in the state `s` before.
  pub data Started (s : Sim) : Option ℕ × Boot × W → Type 0 where
    down : (b : Boot) (w : W) → owned [] b.calls ≡ some [] → Started s (none, b, w)
    up : (address : ℕ) (b : Boot) (w : W) → IsUp cfg address s b → Started s (some address, b, w)

  data Inited (address : ℕ) (s : Sim) : InitStatus W → Type 0 where
    failed :
        (b : Boot) (w : W)
        → owned [] b.calls ≡ some (memory ∷ [])
        → Inited address s (sim_error b w)
    inited : (b : Boot) (w : W) → IsUp cfg address s b → Inited address s (sim_success b w)

  either-Inited :
      (address : ℕ) (s : Sim) (b : Bool) (x y : InitStatus W)
      → ((b ≡ true) → Inited address s x)
      → ((b ≡ false) → Inited address s y)
      → Inited address s (if b then x else y)
  either-Inited address s true x y u v = u refl
  either-Inited address s false x y u v = v refl

  init_thread-Inited :
      (address : ℕ) (s : Sim) (rx tx : ℤ) (b : Boot) (w : W)
      → is_negative rx ≡ false
      → is_negative tx ≡ false
      → Inited address s (
          init_thread cfg out
            (record b {
              g_state = some address;
              rx_fd = rx;
              tx_fd = tx;
              sim = zero_sim cfg s;
              calls =
                  took memory
                  ∷ took mutex
                  ∷ took spi_transport
                  ∷ took power_transport
                  ∷ took interrupt_transport
                  ∷ took rx_socket
                  ∷ took tx_socket
                  ∷ [];
            })
            w)
  unfolding init_thread zero_sim init
  init_thread-Inited address s rx tx b w p q =
      either-Inited address s (eq_int (out.thread_create w).0 (pos 0)) _ _
        (λ ok. inited _ _ (record {
          opened = record { held = refl; rx = p; tx = q; running = refl };
          points = refl;
          fresh = refl;
        }))
        (λ refused. failed _ _ refl)

  init_sockets-Inited :
      (address : ℕ) (s : Sim) (b : Boot) (w : W)
      → Inited address s (
          init_sockets cfg out
            (record b {
              g_state = some address;
              sim = zero_sim cfg s;
              calls =
                  took memory
                  ∷ took mutex
                  ∷ took spi_transport
                  ∷ took power_transport
                  ∷ took interrupt_transport
                  ∷ [];
            })
            w)
  unfolding init_sockets
  init_sockets-Inited address s b w =
      let (rx, w₁) = out.socket rx_socket w in
      let (tx, w₂) = out.socket tx_socket w₁ in
      let (bound, w₃) = out.bind rx w₂ in
      either-Inited address s (is_negative rx) _ _ (λ no_rx. failed _ _ refl)
        (λ has_rx.
          either-Inited address s (is_negative tx) _ _ (λ no_tx. failed _ _ refl)
            (λ has_tx.
              either-Inited address s (is_negative bound) _ _ (λ unbound. failed _ _ refl)
                (λ is_bound. init_thread-Inited address s rx tx b w₃ has_rx has_tx)))

  -- The fields that radio_sim_init clears.
  abbrev cleared : ℕ → Boot → Boot
  cleared address b = record b { rx_fd = pos 0; tx_fd = pos 0; thread_running = false }

  sim_init-Inited :
      (address : ℕ) (b : Boot) (w : W)
      → Inited address b.sim (sim_init cfg out address (record b { calls = took memory ∷ [] }) w)
  unfolding sim_init
  sim_init-Inited address b w =
      let (locked, w₁) = out.mutex_init w in
      let (spi, w₂) = out.transport_init spi_transport w₁ in
      let (power, w₃) = out.transport_init power_transport w₂ in
      let (interrupt, w₄) = out.transport_init interrupt_transport w₃ in
      either-Inited address b.sim (not (eq_int locked (pos 0))) _ _ (λ e. failed _ _ refl)
        (λ f.
          either-Inited address b.sim (not (eq_int spi out.transport_success)) _ _
            (λ e. failed _ _ refl)
            (λ f.
              either-Inited address b.sim (is_negative power) _ _ (λ e. failed _ _ refl)
                (λ f.
                  either-Inited address b.sim (is_negative interrupt) _ _ (λ e. failed _ _ refl)
                    (λ f. init_sockets-Inited address b.sim (cleared address b) w₄))))

  started-Started :
      (address : ℕ) (s : Sim) (r : InitStatus W)
      → Inited address s r
      → Started s (started cfg out address r)
  started-Started address s r (failed b w h) =
      down _ _ (owned-released b.calls (memory ∷ []) [] memory h refl)
  started-Started address s r (inited b w h) = up address b w h

  -- Whatever the memory, the mutex, the transports, the sockets and the thread answer, the start
  -- of the simulator either fails with everything it took given back and nothing given back
  -- twice, or it succeeds with all eight resources held, the global pointer set, and the state as
  -- at the start of a run: zeros, in duplex mode.
  pub component_init-Started :
      (b : Boot) (w : W) → Started b.sim (component_init cfg out (record b { calls = [] }) w)
  unfolding component_init
  component_init-Started b w = elim (Option-cases (out.allocate w).0) [
    | inl nothing ↦ rw (nothing, component_init) (down _ _ refl)
    | inr (address, got) ↦
        rw (got, component_init) (started-Started address b.sim _ (sim_init-Inited address b _))
  ]

  -- From a simulator that holds its eight resources as its state says, a tick, whatever it does
  -- to the radio, and the end of the simulator behind it leave nothing held and give nothing back
  -- twice.
  pub component_cleanup-owned :
      (tick : Sim → Sim) (address : ℕ) (b : Boot) (w : W)
      → IsOpen b
      → owned []
          (component_cleanup cfg out
            (some address)
            (component_tick cfg out tick (some address) b)
            w).0.calls
        ≡ some []
  unfolding component_cleanup sim_cleanup component_tick
  component_cleanup-owned tick address b w h =
      let c₀ = b.calls in
      let c₁ = c₀ ++ released thread ∷ [] in
      let c₂ = c₁ ++ released rx_socket ∷ [] in
      let c₃ = c₂ ++ released tx_socket ∷ [] in
      let c₄ = c₃ ++ released interrupt_transport ∷ [] in
      let c₅ = c₄ ++ released power_transport ∷ [] in
      let c₆ = c₅ ++ released spi_transport ∷ [] in
      let c₇ = c₆ ++ released mutex ∷ [] in
      let h₁ =
        owned-released c₀
          (thread ∷ tx_socket ∷ rx_socket ∷ interrupt_transport ∷ power_transport ∷ spi_transport
            ∷ mutex ∷ memory ∷ [])
          (tx_socket ∷ rx_socket ∷ interrupt_transport ∷ power_transport ∷ spi_transport ∷ mutex
            ∷ memory ∷ [])
          thread h.held refl in
      let h₂ =
        owned-released c₁
          (tx_socket ∷ rx_socket ∷ interrupt_transport ∷ power_transport ∷ spi_transport ∷ mutex
            ∷ memory ∷ [])
          (tx_socket ∷ interrupt_transport ∷ power_transport ∷ spi_transport ∷ mutex ∷ memory ∷ [])
          rx_socket h₁ refl in
      let h₃ =
        owned-released c₂
          (tx_socket ∷ interrupt_transport ∷ power_transport ∷ spi_transport ∷ mutex ∷ memory ∷ [])
          (interrupt_transport ∷ power_transport ∷ spi_transport ∷ mutex ∷ memory ∷ []) tx_socket h₂
          refl in
      let h₄ =
        owned-released c₃
          (interrupt_transport ∷ power_transport ∷ spi_transport ∷ mutex ∷ memory ∷ [])
          (power_transport ∷ spi_transport ∷ mutex ∷ memory ∷ []) interrupt_transport h₃ refl in
      let h₅ =
        owned-released c₄ (power_transport ∷ spi_transport ∷ mutex ∷ memory ∷ [])
          (spi_transport ∷ mutex ∷ memory ∷ []) power_transport h₄ refl in
      let h₆ =
        owned-released c₅ (spi_transport ∷ mutex ∷ memory ∷ []) (mutex ∷ memory ∷ []) spi_transport
          h₅ refl in
      let h₇ = owned-released c₆ (mutex ∷ memory ∷ []) (memory ∷ []) mutex h₆ refl in
      rw (h.running, h.rx, h.tx) (owned-released c₇ (memory ∷ []) ([]) memory h₇ refl)
