-- ===== src/App/Uplink/Packets/Slices.antt =====
-- The packets that RADIO_ServiceUplink finds, as pieces of the payload.
use tryspace_comp_radio.Base.{
  ℕ, zero, suc, ◌+◌, ◌-◌, ◌/◌, ◌%◌, ◌≤◌, ◌<◌, ◌≡◌, sym, ap, ◌∙◌, subst, true, List, [], ◌∷◌, ◌++◌,
  arith, length, length-take_le, length-drop, get_or-take, get_or-drop, get_or-drop_zero,
  drop_uncons, drop-drop, take, drop, take-append-drop, Bool-cases, inl, inr,
}
use native.Mathlib.Decide.{dec_lt}
use tryspace_comp_radio.App.Uplink.Packets.{packet_id, total_packet_size, is_packet, scan, packets}
use tryspace_comp_radio.App.Uplink.Packets.Turns.{is_packet-size, scan_ends, scan_send, scan_next}

-- A space packet of version 0 and type 1, a command, whose length field gives its size.
pub record IsPacket (p : List ℕ) : Type 0 where
  pub long : 7 ≤ length p
  pub version : packet_id p 0 / 8192 % 8 ≡ 0
  pub command : packet_id p 0 / 4096 % 2 ≡ 1
  pub sized : total_packet_size p 0 ≡ length p

-- `ps` are disjoint pieces of a byte sequence, in its order, each a command packet.
pub data Slices : List ℕ → List (List ℕ) → Type 0 where
  end : {rest : List ℕ} → Slices rest []
  skip : {b : ℕ} {rest : List ℕ} {ps : List (List ℕ)} → Slices rest ps → Slices (b ∷ rest) ps
  piece :
      {p rest : List ℕ} {ps : List (List ℕ)}
      → IsPacket p
      → Slices rest ps
      → Slices (p ++ rest) (p ∷ ps)

-- The header fields of a piece are those at its offset.
pub packet_id-piece :
    (pdu : List ℕ) (off t : ℕ) → 6 ≤ t → packet_id (take t (drop off pdu)) 0 ≡ packet_id pdu off
unfolding packet_id
packet_id-piece pdu off t h = rw (
  get_or-take t 0 (drop off pdu) 0 (omega arith),
  get_or-take t 1 (drop off pdu) 0 (omega arith),
  get_or-drop off 1 pdu 0,
  get_or-drop_zero off pdu 0,
)

pub total_packet_size-piece :
    (pdu : List ℕ) (off t : ℕ)
    → 6 ≤ t
    → total_packet_size (take t (drop off pdu)) 0 ≡ total_packet_size pdu off
unfolding total_packet_size
total_packet_size-piece pdu off t h = rw (
  get_or-take t 4 (drop off pdu) 0 (omega arith),
  get_or-take t 5 (drop off pdu) 0 (omega arith),
  get_or-drop off 4 pdu 0,
  get_or-drop off 5 pdu 0,
)

is_packet-header :
    (pdu : List ℕ) (off : ℕ)
    → is_packet pdu off ≡ true
    → (packet_id pdu off / 8192 % 8 ≡ 0) × (packet_id pdu off / 4096 % 2 ≡ 1)
unfolding is_packet
is_packet-header pdu off h = ground arith

-- What the test accepts is a command packet.
is_packet-IsPacket :
    (pdu : List ℕ) (off : ℕ)
    → is_packet pdu off ≡ true
    → IsPacket (take (total_packet_size pdu off) (drop off pdu))
is_packet-IsPacket pdu off h = record {
  long = omega (arith, size, len);
  version = ap (λ i. i / 8192 % 8) id ∙ header.0;
  command = ap (λ i. i / 4096 % 2) id ∙ header.1;
  sized = total_packet_size-piece pdu off t (omega (arith, size)) ∙ sym len;
}
  where
    t : ℕ
    t = total_packet_size pdu off

    size : (7 ≤ t) × (off + t ≤ length pdu)
    size = is_packet-size pdu off h

    header : (packet_id pdu off / 8192 % 8 ≡ 0) × (packet_id pdu off / 4096 % 2 ≡ 1)
    header = is_packet-header pdu off h

    id : packet_id (take t (drop off pdu)) 0 ≡ packet_id pdu off
    id = packet_id-piece pdu off t (omega (arith, size))

    len : length (take t (drop off pdu)) ≡ t
    len = length-take_le t (drop off pdu) (omega (arith, size, length-drop off pdu))

scan-Slices :
    (pdu : List ℕ) (turns off : ℕ)
    → length pdu < off + turns
    → Slices (drop off pdu) (scan turns pdu off)
scan-Slices pdu zero off h = rw (scan_ends pdu zero off (omega arith)) end
scan-Slices pdu (suc turns) off h = elim (dec_lt (length pdu) (off + 6)) [
  | yes short ↦ rw (scan_ends pdu (suc turns) off short) end
  | no long ↦ elim (Bool-cases (is_packet pdu off)) [
    | inl hit ↦
        let t = total_packet_size pdu off in
        let size = is_packet-size pdu off hit in
        let behind : off + (t - 1) + 1 ≡ off + t = omega (arith, size) in
        rw (scan_send pdu turns off (omega arith) hit, behind)
          (subst (λ l. Slices l (take t (drop off pdu) ∷ scan turns pdu (off + t)))
            (ap (λ l. take t (drop off pdu) ++ l) (drop-drop off t pdu)
              ∙ take-append-drop t (drop off pdu))
            (piece (is_packet-IsPacket pdu off hit)
              (scan-Slices pdu turns (off + t) (omega (arith, size)))))
    | inr miss ↦ rw (scan_next pdu turns off (omega arith) miss) (
        subst (λ l. Slices l (scan turns pdu (off + 1))) (sym (drop_uncons off pdu 0 (omega arith)))
          (skip (scan-Slices pdu turns (off + 1) (omega arith))))
  ]
]

-- Whatever the payload of a frame is, what is put on the software bus from it are command
-- packets, disjoint pieces of the payload in the order in which they stand there.
pub packets-Slices : (pdu : List ℕ) → Slices pdu (packets pdu)
unfolding packets
packets-Slices pdu = scan-Slices pdu (length pdu + 1) 0 (omega arith)
