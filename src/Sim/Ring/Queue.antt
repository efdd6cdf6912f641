-- ===== src/Sim/Ring/Queue.antt =====
-- The receive buffer of sim/radio_sim.c and a bounded queue of bytes.
use tryspace_comp_radio.Base.{
  take_ge, ℕ, zero, suc, ◌+◌, ◌-◌, ◌≤◌, ◌<◌, ◌≡◌, refl, sym, ap, ◌∙◌, ◌⊎◌, List, [], ◌∷◌, ◌++◌,
  arith, tests, ltb, if◌then◌else◌, length, length-append, length-take_le, take, drop, take_all,
  Bool-cases, inl, inr,
}
use mathlib.Core.Path.{ap₂}
use tryspace_comp_radio.Sim.Ring.{
  Ring, IsRing, rx_count, write_bytes, write_to_rx, read_bytes, read_from_rx,
}
use tryspace_comp_radio.Sim.Ring.Fifo.{
  contents, length-contents, rx_count-lt, write_bytes_lem, read_bytes_lem,
}

-- What the ground station and the host do to the buffer.
pub data Op : Type 0 where
  write : List ℕ → Op
  read : ℕ → Op

module _ (size : ℕ) where
  -- The specification: a queue that takes what fits below `size` bytes and drops the rest.
  abbrev pub enqueue : List ℕ → List ℕ → List ℕ
  enqueue q bytes = q ++ take (size - 1 - length q) bytes

  -- The bytes handed out for each operation, in order.
  pub run_queue : List ℕ → List Op → List (List ℕ)
  run_queue q [] = []
  run_queue q (write bytes ∷ ops) = [] ∷ run_queue (enqueue q bytes) ops
  run_queue q (read k ∷ ops) = take k q ∷ run_queue (drop k q) ops

  pub run_ring : Ring → List Op → List (List ℕ)
  run_ring r [] = []
  run_ring r (write bytes ∷ ops) = [] ∷ run_ring (write_to_rx size r bytes).1 ops
  run_ring r (read k ∷ ops) = let (bytes, r') = read_from_rx size r k in bytes ∷ run_ring r' ops

  -- Any number of bytes for which there is room.
  taken :
      (r : Ring) (bytes : List ℕ) (n : ℕ)
      → IsRing size r
      → n ≤ length bytes
      → rx_count size r + n < size
      → IsRing size (write_bytes size r (take n bytes))
        × (contents size (write_bytes size r (take n bytes)) ≡ contents size r ++ take n bytes)
        × (length (contents size (write_bytes size r (take n bytes)))
            ≡ length (contents size r) + n)
  taken r bytes n v h room =
      let l = length-take_le n bytes h in
      let (v', e, k) = write_bytes_lem size r (take n bytes) v (omega arith) in
      (
        v',
        e,
        omega (
          arith,
          length-contents size r,
          length-contents size (write_bytes size r (take n bytes)),
        ),
      )

  -- The number of bytes taken is what fits, and exactly those come behind the ones that wait.
  pub write_to_rx_lem :
      (r : Ring) (bytes : List ℕ)
      → IsRing size r
      → let (n, r') = write_to_rx size r bytes in
        IsRing size r'
        × (contents size r' ≡ enqueue (contents size r) bytes)
        × (length (contents size r') ≡ length (contents size r) + n)
  unfolding write_to_rx
  write_to_rx_lem r bytes v = elim (Bool-cases (ltb (size - rx_count size r - 1) (length bytes))) [
    | inl big ↦
        let (v', e, l) =
          taken r bytes (size - rx_count size r - 1) v (omega tests)
            (omega (arith, rx_count-lt size r v)) in
        rw big (
          v',
          e ∙ ap (λ k. contents size r ++ take k bytes) (omega (arith, length-contents size r)),
          l,
        )
    | inr fits ↦
        let room : length bytes ≤ size - rx_count size r - 1 = ground arith in
        let (v', e, l) =
          taken r bytes (length bytes) v (omega arith) (omega (arith, rx_count-lt size r v)) in
        rw fits (
          v',
          e
              ∙ ap (◌++◌ (contents size r)) (
                  take_all bytes
                  ∙ sym (
                      take_ge (size - 1 - length (contents size r)) bytes
                        (omega (arith, length-contents size r)))),
          l,
        )
  ]

  -- Bytes taken from the front of a list: a stated number of them, or all.
  front :
      (k : ℕ) (bytes rest : List ℕ)
      → (length bytes ≡ k) ⊎ ((length bytes ≤ k) × (rest ≡ []))
      → (bytes ≡ take k (bytes ++ rest)) × (rest ≡ drop k (bytes ++ rest))
  front zero [] rest h = (refl, refl)
  front (suc k) [] rest (inl h) = absurd (omega arith)
  front (suc k) [] rest (inr h) = rw (h.1) (refl, refl)
  front zero (b ∷ bytes) rest (inl h) = absurd (omega arith)
  front zero (b ∷ bytes) rest (inr h) = absurd (omega arith)
  front (suc k) (b ∷ bytes) rest (inl h) =
      let (f, g) = front k bytes rest (inl (omega arith)) in (ap (◌∷◌ b) f, g)
  front (suc k) (b ∷ bytes) rest (inr h) =
      let (f, g) = front k bytes rest (inr (omega arith, h.1)) in (ap (◌∷◌ b) f, g)

  rest_empty : (bytes rest : List ℕ) → length (bytes ++ rest) ≤ length bytes → rest ≡ []
  rest_empty bytes [] h = refl
  rest_empty bytes (x ∷ rest) h = absurd (omega (arith, length-append bytes (x ∷ rest)))

  clamped :
      (k : ℕ) (bytes rest : List ℕ)
      → length bytes ≡ (if ltb k (length (bytes ++ rest)) then k else length (bytes ++ rest))
      → (length bytes ≡ k) ⊎ ((length bytes ≤ k) × (rest ≡ []))
  clamped k bytes rest l = elim (Bool-cases (ltb k (length (bytes ++ rest)))) [
    | inl less ↦ inl (l ∙ rw less)
    | inr all ↦
        let m : length bytes ≡ length (bytes ++ rest) = l ∙ rw all in
        inr (ground arith, rest_empty bytes rest (omega arith))
  ]

  pub read_from_rx_lem :
      (r : Ring) (k : ℕ)
      → IsRing size r
      → let (bytes, r') = read_from_rx size r k in
        IsRing size r'
        × (bytes ≡ take k (contents size r))
        × (contents size r' ≡ drop k (contents size r))
  unfolding read_from_rx
  read_from_rx_lem r k v =
      let n : ℕ = if ltb k (rx_count size r) then k else rx_count size r in
      let (v', e, l, _) = read_bytes_lem size n r v (ground arith) in
      let bytes = (read_bytes size n r).0 in
      let rest = contents size (read_bytes size n r).1 in
      let (f, g) = front k bytes rest (
        clamped k bytes rest
          (l ∙ ap (λ c. if ltb k c then k else c) (sym (length-contents size r) ∙ ap length e))) in
      (v', f ∙ ap (take k) (sym e), g ∙ ap (drop k) (sym e))

  -- Any sequence of writes and reads on a ring buffer with its indices in range gives the same
  -- bytes as the bounded queue of its contents, which holds up to one byte less than the array
  -- and drops what does not fit.
  pub run_ring_refines :
      (ops : List Op) (r : Ring) → IsRing size r → run_ring r ops ≡ run_queue (contents size r) ops
  unfolding run_ring run_queue
  run_ring_refines [] r v = refl
  run_ring_refines (write bytes ∷ ops) r v =
      let (v', e, _) = write_to_rx_lem r bytes v in
      ap (λ t. [] ∷ t)
        (run_ring_refines ops (write_to_rx size r bytes).1 v' ∙ ap (λ q. run_queue q ops) e)
  run_ring_refines (read k ∷ ops) r v =
      let (v', e, f) = read_from_rx_lem r k v in
      ap₂ ◌∷◌ e (run_ring_refines ops (read_from_rx size r k).1 v' ∙ ap (λ q. run_queue q ops) f)
