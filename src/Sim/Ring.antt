-- ===== src/Sim/Ring.antt =====
-- The receive buffer of sim/radio_sim.c: `radio_sim_get_rx_buffer_count`,
-- `radio_sim_write_to_rx_buffer` and `radio_sim_read_from_rx_buffer`, with `size` for
-- RADIO_SIM_RX_BUFFER_SIZE. The subtractions on `uint32_t` do not wrap where the indices are below
-- `size`, which `IsRing` states.
use tryspace_comp_radio.Base.{
  ℕ, zero, suc, ◌+◌, ◌-◌, ◌%◌, ◌≤◌, ◌<◌, ◌≡◌, List, [], ◌∷◌, ltb, leb, if◌then◌else◌, length,
  get_or, set, take,
}
pub mod Fifo
pub mod Queue

-- The fields `rx_buffer`, `rx_buffer_head` and `rx_buffer_tail`.
pub record Ring : Type 0 where
  pub buf : List ℕ
  pub head : ℕ
  pub tail : ℕ

module _ (size : ℕ) where
  unfoldable pub rx_count : Ring → ℕ
  rx_count r = if leb r.tail r.head then r.head - r.tail else (size - r.tail) + r.head

  -- The loop that copies the bytes in.
  unfoldable pub write_bytes : Ring → List ℕ → Ring
  write_bytes r [] = r
  write_bytes r (x ∷ xs) =
      write_bytes (record r { buf = set r.buf r.head x; head = (r.head + 1) % size }) xs

  -- The number of bytes taken, and the buffer after.
  unfoldable pub write_to_rx : Ring → List ℕ → ℕ × Ring
  unfolding write_bytes
  write_to_rx r bytes =
      let available_space = size - rx_count r - 1 in
      let len = if ltb available_space (length bytes) then available_space else length bytes in
      (len, write_bytes r (take len bytes))

  -- The loop that copies `to_read` bytes out.
  unfoldable pub read_bytes : ℕ → Ring → List ℕ × Ring
  read_bytes zero r = ([], r)
  read_bytes (suc to_read) r =
      let (bytes, r') = read_bytes to_read (record r { tail = (r.tail + 1) % size }) in
      (get_or r.buf r.tail 0 ∷ bytes, r')

  unfoldable pub read_from_rx : Ring → ℕ → List ℕ × Ring
  unfolding read_bytes
  read_from_rx r max_length =
      let available = rx_count r in
      read_bytes (if ltb max_length available then max_length else available) r

-- The indices lie inside the array.
pub record IsRing (size : ℕ) (r : Ring) : Type 0 where
  pub length_buf : length r.buf ≡ size
  pub head_in : r.head < size
  pub tail_in : r.tail < size
