-- ===== src/App/Uplink/Packets/Stream.antt =====
-- A payload that is a sequence of command packets.
use tryspace_comp_radio.Base.{
  ℕ, zero, suc, ◌+◌, ◌-◌, ◌≤◌, ◌<◌, ◌≡◌, refl, sym, ap, ◌∙◌, true, List, [], ◌∷◌, ◌++◌, arith, All,
  concat, length, length-append, length-drop, drop-drop, take, drop, take-append_self,
  drop-append_self, append_assoc,
}
use tryspace_comp_radio.App.Uplink.Packets.{packet_id, total_packet_size, is_packet, scan, packets}
use tryspace_comp_radio.App.Uplink.Packets.Turns.{is_packet-size, scan_ends, scan_send}
use tryspace_comp_radio.App.Uplink.Packets.Slices.{
  IsPacket, packet_id-piece, total_packet_size-piece,
}

-- A command packet at an offset passes the test, and has its own size.
piece_at :
    (pdu p more : List ℕ) (off : ℕ)
    → IsPacket p
    → drop off pdu ≡ p ++ more
    → (is_packet pdu off ≡ true) × (total_packet_size pdu off ≡ length p)
unfolding is_packet
piece_at pdu p more off v e = (ground (arith, id, size, room, v.version, v.command, v.long), size)
  where
    taken : take (length p) (drop off pdu) ≡ p
    taken = rw e (take-append_self p more)

    id : packet_id pdu off ≡ packet_id p 0
    id =
        sym (packet_id-piece pdu off (length p) (omega (arith, v.long)))
        ∙ ap (λ q. packet_id q 0) taken

    size : total_packet_size pdu off ≡ length p
    size =
        sym (total_packet_size-piece pdu off (length p) (omega (arith, v.long)))
        ∙ ap (λ q. total_packet_size q 0) taken
        ∙ v.sized

    room : length p ≤ length pdu - off
    room = omega (arith, length-drop off pdu, ap length e, length-append p more)

scan-stream :
    (pdu : List ℕ) (ps : List (List ℕ)) (rest : List ℕ) (turns off : ℕ)
    → All IsPacket ps
    → length rest < 6
    → off ≤ length pdu
    → drop off pdu ≡ concat ps ++ rest
    → length pdu < off + turns
    → scan turns pdu off ≡ ps
scan-stream pdu [] rest turns off v short le e h =
    scan_ends pdu turns off (omega (arith, length-drop off pdu, ap length e))
scan-stream pdu (p ∷ ps) rest zero off v short le e h = absurd (omega arith)
scan-stream pdu (p ∷ ps) rest (suc turns) off v short le e h =
    let (hit, size) = piece_at pdu p (concat ps ++ rest) off (v.0) here in
    let fits = is_packet-size pdu off hit in
    let on : off + (total_packet_size pdu off - 1) + 1 ≡ off + length p = omega (arith, v.0.long) in
    scan_send pdu turns off (omega (arith, fits)) hit
    ∙ ap (λ t. take t (drop off pdu) ∷ scan turns pdu (off + (total_packet_size pdu off - 1) + 1))
        size
    ∙ ap (λ o. take (length p) (drop off pdu) ∷ scan turns pdu o) on
    ∙ ap (λ q. q ∷ scan turns pdu (off + length p)) taken
    ∙ ap (◌∷◌ p) (
        scan-stream pdu ps rest turns (off + length p) (v.1) short (omega (arith, fits)) behind
          (omega (arith, v.0.long)))
  where
    here : drop off pdu ≡ p ++ (concat ps ++ rest)
    here = e ∙ append_assoc p (concat ps) rest

    taken : take (length p) (drop off pdu) ≡ p
    taken = rw here (take-append_self p (concat ps ++ rest))

    behind : drop (off + length p) pdu ≡ concat ps ++ rest
    behind =
        drop-drop off (length p) pdu
        ∙ ap (drop (length p)) here
        ∙ drop-append_self p (concat ps ++ rest)

-- From a payload that is command packets one behind the other, with less than a header left at
-- the end, exactly those packets are put on the software bus, in order.
pub packets-concat :
    (ps : List (List ℕ)) (rest : List ℕ)
    → All IsPacket ps
    → length rest < 6
    → packets (concat ps ++ rest) ≡ ps
unfolding packets
packets-concat ps rest v short =
    scan-stream (concat ps ++ rest) ps rest (length (concat ps ++ rest) + 1) 0 v short (omega arith)
      refl (omega arith)
