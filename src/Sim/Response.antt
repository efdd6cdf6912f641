-- ===== src/Sim/Response.antt =====
-- The simulator's replies (sim/radio_sim.c) as the driver (shared/radio_device.c) reads them.
use tryspace_comp_radio.Base.{
  ℕ, suc, ◌+◌, ◌-◌, ◌≤◌, ◌<◌, ◌≡◌, refl, ap, ◌∙◌, List, [], ◌∷◌, ◌++◌, arith, pos, le→ltb, lt→leb,
  length, take, set, memcpy, replicate, byte_at, be16_round_trip, be32_round_trip, get_or-append_at,
  take-append_self, length-replicate, memcpy-nil,
}
use tryspace_comp_radio.Device.{
  DeviceHk, os_success, device_hdr, device_trailer, hk_size, check_hk, check_received, parse_hk,
}
use tryspace_comp_radio.Sim.State.{hk_response, receive_response}

-- Every field fits its place in the reply. Fields of one byte need no bound.
pub record IsHk (hk : DeviceHk) : Type 0 where
  pub counter_in : hk.command_counter < 65536
  pub received_in : hk.bytes_received < 4294967296
  pub sent_in : hk.bytes_sent < 4294967296

-- From the housekeeping reply the driver gets back the housekeeping, with the bytes in the buffer
-- as counted, if the wide fields fit their places.
pub check_hk-hk_response :
    (count : ℕ) (hk : DeviceHk)
    → count < 4294967296
    → IsHk hk
    → check_hk (pos hk_size) (hk_response count hk)
      ≡ os_success (record hk { bytes_in_rx_buffer = count })
unfolding check_hk parse_hk hk_response
check_hk-hk_response count hk h v =
    rw
      (
        be16_round_trip hk.command_counter v.counter_in,
        be32_round_trip count h,
        be32_round_trip hk.bytes_received v.received_in,
        be32_round_trip hk.bytes_sent v.sent_in,
      )
      refl

-- A payload and a byte behind it, written into an array with room for both, and its front read.
written :
    (payload rest : List ℕ) (x k : ℕ)
    → length payload + suc k ≤ length rest
    → (more : List ℕ) × (take
          (length payload + suc k)
          (set (memcpy rest 0 payload) (length payload) x)
        ≡ payload ++ x ∷ more)
written [] [] x k h = absurd (omega arith)
written [] (r ∷ rest) x k h =
    (take k rest, ap (λ i. take i (x ∷ rest)) {x = 0 + suc k} {y = suc k} (omega arith))
written (p ∷ payload) [] x k h = absurd (omega arith)
written (p ∷ payload) (r ∷ rest) x k h =
    let (more, e) = written payload rest x k (omega arith) in
    let wr : List ℕ = set (memcpy rest 0 payload) (length payload) x in
    (
      more,
      ap (λ i. take i (p ∷ wr)) {x = suc (length payload) + suc k}
            {y = suc (length payload + suc k)} (omega arith)
          ∙ ap (◌∷◌ p) e,
    )

-- What `check_received` makes of a reply in the format: the payload, if there is room for it.
pub check_received-reply :
    (max n : ℕ) (payload more : List ℕ)
    → length payload ≤ max
    → length payload < 65536
    → length payload + 4 ≤ n
    → check_received max n (
        device_hdr
        ∷ byte_at 1 (length payload)
        ∷ byte_at 0 (length payload)
        ∷ (payload ++ device_trailer ∷ more))
      ≡ os_success payload
unfolding check_received
check_received-reply max n payload more le small h =
    let three : 3 + length payload ≡ suc (suc (suc (length payload))) = omega arith in
    rw
      (
        be16_round_trip (length payload) small,
        lt→leb n 0 (omega arith),
        le→ltb n 4 (omega arith),
        le→ltb max (length payload) le,
        lt→leb n (3 + length payload) (omega arith),
        three,
        get_or-append_at payload more device_trailer 0,
        take-append_self payload (device_trailer ∷ more),
      )
      refl

-- The reply's array, from any array that it is written into.
reply :
    (array payload : List ℕ) (requested : ℕ)
    → requested + 4 ≤ length array
    → length payload ≤ requested
    → (more : List ℕ) × (take (requested + 4) (
          set
            (memcpy
              (memcpy array 0
                (device_hdr ∷ byte_at 1 (length payload) ∷ byte_at 0 (length payload) ∷ []))
              3
              payload)
            (3 + length payload)
            device_trailer)
        ≡ device_hdr
          ∷ byte_at 1 (length payload)
          ∷ byte_at 0 (length payload)
          ∷ (payload ++ device_trailer ∷ more))
reply [] payload requested h le = absurd (omega arith)
reply (a ∷ []) payload requested h le = absurd (omega arith)
reply (a ∷ b ∷ []) payload requested h le = absurd (omega arith)
reply (a ∷ b ∷ c ∷ rest) payload requested h le =
    let n : ℕ = length payload in
    let (more, e) = written payload rest device_trailer (requested - n) (omega arith) in
    let three : 3 + n ≡ suc (suc (suc n)) = omega arith in
    let four : requested + 4 ≡ suc (suc (suc (n + suc (requested - n)))) = omega arith in
    (
      more,
      rw (three, four, memcpy-nil rest) (ap (λ t. device_hdr ∷ byte_at 1 n ∷ byte_at 0 n ∷ t) e),
    )

-- From the answer to a request of at most 4092 bytes the driver gets back the payload that was
-- put into it, if that is no longer than requested.
pub check_received-receive_response :
    (requested : ℕ) (payload : List ℕ)
    → requested ≤ 4092
    → length payload ≤ requested
    → check_received requested (requested + 4) (receive_response requested payload (length payload))
      ≡ os_success payload
unfolding receive_response
check_received-receive_response requested payload h le =
    let (more, e) =
      reply (replicate 4096 0) payload requested (omega (arith, length-replicate {A = ℕ} 4096 0))
        le in
    ap (check_received requested (requested + 4)) e
    ∙ check_received-reply requested (requested + 4) payload more le (omega arith) (omega arith)
