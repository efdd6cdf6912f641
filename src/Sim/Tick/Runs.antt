-- ===== src/Sim/Tick/Runs.antt =====
-- The runs of sim/radio_sim.c: ticks, and datagrams that its ground thread writes, in any order.
use tryspace_comp_radio.Base.{
  ℕ, ◌<◌, subst, inl, inr, Bool, Option, List, arith, ℤ, length-replicate,
}
use tryspace_comp_radio.Hardware.{DeviceConfig}
use tryspace_comp_radio.Sim.Ring.{IsRing}
use tryspace_comp_radio.Sim.Ring.Queue.{write_to_rx_lem}
use tryspace_comp_radio.Sim.State.{Sim, init, update_interrupt}
use tryspace_comp_radio.Sim.Tick.{put_datagram, on_tick}
use tryspace_comp_radio.Sim.Tick.Invariant.{on_tick-IsSim}

-- A run of the simulator: ticks, and datagrams that were tested before, in any order.
pub data Runs (cfg : DeviceConfig) (due : ℕ → ℕ → Bool) : Sim → Sim → Type 0 where
  start : {s : Sim} → Runs cfg due s s
  put_step :
      {s t : Sim} (bytes : List ℕ) → Runs cfg due (put_datagram cfg bytes s) t → Runs cfg due s t
  tick_step :
      {s t : Sim} (sent : ℤ) (time : ℕ) (spi power interrupt : Option (List ℕ))
      → Runs cfg due (on_tick cfg due sent time spi power interrupt s) t
      → Runs cfg due s t

module _ (cfg : DeviceConfig) where
  put_datagram-IsRing :
      (bytes : List ℕ) (s : Sim)
      → IsRing cfg.buffer_size s.rx
      → IsRing cfg.buffer_size (put_datagram cfg bytes s).rx
  unfolding update_interrupt
  put_datagram-IsRing bytes s v =
      subst (IsRing cfg.buffer_size) (ground arith) (write_to_rx_lem cfg.buffer_size s.rx bytes v).0

  on_tick-IsRing :
      (due : ℕ → ℕ → Bool) (sent : ℤ) (time : ℕ) (spi power interrupt : Option (List ℕ)) (s : Sim)
      → IsRing cfg.buffer_size s.rx
      → IsRing cfg.buffer_size (on_tick cfg due sent time spi power interrupt s).rx
  on_tick-IsRing due sent time spi power interrupt s v =
      (on_tick-IsSim {exception = Unit {0}} cfg due sent time spi power interrupt s
        (record { ring = v; off = inr (inl tt) })).ring

  Runs-keeps :
      {due : ℕ → ℕ → Bool} {s t : Sim}
      → Runs cfg due s t
      → IsRing cfg.buffer_size s.rx
      → IsRing cfg.buffer_size t.rx
  Runs-keeps start v = v
  Runs-keeps {s = s} (put_step bytes r) v = Runs-keeps r (put_datagram-IsRing bytes s v)
  Runs-keeps {due = due} {s = s} (tick_step sent time spi power interrupt r) v =
      Runs-keeps r (on_tick-IsRing due sent time spi power interrupt s v)

  -- Every run of the simulator from its start keeps the indices of the receive buffer inside its
  -- array.
  pub Runs-IsRing :
      (due : ℕ → ℕ → Bool) (power interrupt : ℕ) (s : Sim)
      → 0 < cfg.buffer_size
      → Runs cfg due (init cfg power interrupt) s
      → IsRing cfg.buffer_size s.rx
  unfolding init
  Runs-IsRing due power interrupt s h r =
      Runs-keeps r (record {
        length_buf = length-replicate {A = ℕ} cfg.buffer_size 0;
        head_in = h;
        tail_in = h;
      })
