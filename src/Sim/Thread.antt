-- ===== src/Sim/Thread.antt =====
-- The loop of udp_ground_thread in sim/radio_sim.c, with the ticks of the other thread that come
-- while it waits, and between its tests on a datagram and the mutex that it takes after them.
pub mod Race
use tryspace_comp_radio.Base.{
  ℕ, Bool, true, false, Option, List, [], ◌∷◌, ◌≡◌, refl, ℤ, if◌then◌else◌, ◌&&◌, ◌<◌,
}
use tryspace_comp_radio.Hardware.{DeviceConfig}
use tryspace_comp_radio.Sim.State.{Sim, init}
use tryspace_comp_radio.Sim.Ring.{IsRing}
use tryspace_comp_radio.Sim.Tick.{hears, put_datagram, on_tick}
use tryspace_comp_radio.Sim.Tick.Runs.{Runs, start, put_step, tick_step, Runs-IsRing}

-- What the tick of the other thread is given.
pub record Tick : Type 0 where
  pub sent : ℤ
  pub time : ℕ
  pub spi_bytes : Option (List ℕ)
  pub power_bytes : Option (List ℕ)
  pub interrupt_bytes : Option (List ℕ)

-- What `select`, and where it reports the socket `recvfrom`, gave: nothing in time, a datagram with
-- the ticks that come before the mutex is taken for it, no datagram after all, a signal, or another
-- error.
pub data Woken : Type 0 where
  timed_out : Woken
  datagram : List ℕ → List Tick → Woken
  unread : Woken
  interrupted : Woken
  broken : Woken

-- `udp_thread_running` as a turn of the loop reads it, the ticks while it waits, and the outcome.
pub record Wait : Type 0 where
  pub running : Bool
  pub ticks : List Tick
  pub woken : Woken

-- The flag is up and `select` met no error but a signal.
unfoldable pub continues : Bool → Woken → Bool
continues false woken = false
continues true timed_out = true
continues true (datagram bytes late) = true
continues true unread = true
continues true interrupted = true
continues true broken = false

unfoldable pub all_continue : List Wait → Bool
all_continue [] = true
all_continue (t ∷ ts) = continues t.running t.woken && all_continue ts

module _ (cfg : DeviceConfig) (due : ℕ → ℕ → Bool) where
  unfoldable pub after_ticks : List Tick → Sim → Sim
  after_ticks [] s = s
  after_ticks (t ∷ ts) s =
      after_ticks ts (on_tick cfg due t.sent t.time t.spi_bytes t.power_bytes t.interrupt_bytes s)

  -- The turn after the wait, and if the loop goes on.
  unfoldable pub on_woken : Woken → Sim → Bool × Sim
  on_woken timed_out s = (true, s)
  on_woken (datagram bytes late) s =
      let s' = after_ticks late s in (true, if hears bytes s then put_datagram cfg bytes s' else s')
  on_woken unread s = (true, s)
  on_woken interrupted s = (true, s)
  on_woken broken s = (false, s)

  -- The loop over the turns that are given, and if it goes on after them.
  unfoldable pub ground_thread : List Wait → Sim → Bool × Sim
  ground_thread [] s = (true, s)
  ground_thread (t ∷ ts) s =
      let (go_on, s') = on_woken t.woken (after_ticks t.ticks s) in
      let rest = ground_thread ts s' in
      if t.running then (if go_on then rest else (false, s')) else (false, s)

  after_ticks-Runs :
      (ts : List Tick) (s t : Sim) → Runs cfg due (after_ticks ts s) t → Runs cfg due s t
  unfolding after_ticks
  after_ticks-Runs [] s t r = r
  after_ticks-Runs (x ∷ xs) s t r =
      tick_step x.sent x.time x.spi_bytes x.power_bytes x.interrupt_bytes
        (after_ticks-Runs xs _ t r)

  put_or :
      (b : Bool) (bytes : List ℕ) (s t : Sim)
      → Runs cfg due (if b then put_datagram cfg bytes s else s) t
      → Runs cfg due s t
  put_or true bytes s t r = put_step bytes r
  put_or false bytes s t r = r

  on_woken-Runs :
      (woken : Woken) (s t : Sim) → Runs cfg due (on_woken woken s).1 t → Runs cfg due s t
  unfolding on_woken
  on_woken-Runs timed_out s t r = r
  on_woken-Runs (datagram bytes late) s t r =
      after_ticks-Runs late s t (put_or (hears bytes s) bytes (after_ticks late s) t r)
  on_woken-Runs unread s t r = r
  on_woken-Runs interrupted s t r = r
  on_woken-Runs broken s t r = r

  chosen-Runs :
      (running go_on : Bool) (rest : Bool × Sim) (s s' t : Sim)
      → (Runs cfg due s' t → Runs cfg due s t)
      → (Runs cfg due rest.1 t → Runs cfg due s' t)
      → Runs cfg due (if running then (if go_on then rest else (false, s')) else (false, s)).1 t
      → Runs cfg due s t
  chosen-Runs true true rest s s' t back on r = back (on r)
  chosen-Runs true false rest s s' t back on r = back r
  chosen-Runs false go_on rest s s' t back on r = r

  -- A run of the simulator after the loop is one from where the loop began.
  ground_thread-Runs :
      (ts : List Wait) (s t : Sim) → Runs cfg due (ground_thread ts s).1 t → Runs cfg due s t
  unfolding ground_thread
  ground_thread-Runs [] s t r = r
  ground_thread-Runs (x ∷ xs) s t r =
      let woken = on_woken x.woken (after_ticks x.ticks s) in
      chosen-Runs x.running woken.0 (ground_thread xs woken.1) s woken.1 t
        (λ q. after_ticks-Runs x.ticks s t (on_woken-Runs x.woken (after_ticks x.ticks s) t q))
        (ground_thread-Runs xs woken.1 t) r

  chosen-continues :
      (running : Bool) (woken : Woken) (rest : Sim → Bool × Sim) (s w : Sim) (b : Bool)
      → ((t : Sim) → (rest t).0 ≡ b)
      → (let (go_on, s') = on_woken woken w in
          if running then (if go_on then rest s' else (false, s')) else (false, s)).0
        ≡ (continues running woken && b)
  unfolding on_woken continues
  chosen-continues false woken rest s w b h = refl
  chosen-continues true timed_out rest s w b h = h _
  chosen-continues true (datagram bytes late) rest s w b h = h _
  chosen-continues true unread rest s w b h = h _
  chosen-continues true interrupted rest s w b h = h _
  chosen-continues true broken rest s w b h = refl

  ground_thread-continues : (ts : List Wait) (s : Sim) → (ground_thread ts s).0 ≡ all_continue ts
  unfolding ground_thread all_continue continues
  ground_thread-continues [] s = refl
  ground_thread-continues (t ∷ ts) s =
      chosen-continues t.running t.woken (ground_thread ts) s (after_ticks t.ticks s)
        (all_continue ts) (ground_thread-continues ts)

  -- From the simulator's start, the ground thread's loop goes on exactly as long as the flag is
  -- up and `select` meets no error but a signal; whatever ticks come during its waits, between
  -- its tests on a datagram and the mutex, and after it, the indices of the receive buffer then
  -- lie inside its array.
  pub ground_thread-IsRing :
      (power interrupt : ℕ) (turns : List Wait) (later : List Tick)
      → 0 < cfg.buffer_size
      → let (go_on, s) = ground_thread turns (init cfg power interrupt) in
        (go_on ≡ all_continue turns) × IsRing cfg.buffer_size (after_ticks later s).rx
  ground_thread-IsRing power interrupt turns later h =
      let s = (ground_thread turns (init cfg power interrupt)).1 in
      (
        ground_thread-continues turns (init cfg power interrupt),
        Runs-IsRing cfg due power interrupt (after_ticks later s) h
            (ground_thread-Runs turns _ _ (after_ticks-Runs later s _ start)),
      )
