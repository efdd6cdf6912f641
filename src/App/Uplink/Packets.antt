-- ===== src/App/Uplink/Packets.antt =====
-- The loop of RADIO_ServiceUplink that looks for CCSDS space packets in the payload of a frame. Each
-- turn raises the offset, so it is given a turn for each byte and one more.
use tryspace_comp_radio.Base.{
  ℕ, zero, suc, ◌+◌, ◌-◌, ◌/◌, ◌%◌, Bool, ◌&&◌, List, [], ◌∷◌, leb, ◌==◌, if◌then◌else◌, length,
  get_or, take, drop, be16,
}
pub mod Turns
pub mod Slices
pub mod Stream

-- `packet_id`, and the `uint16` total size.
unfoldable pub packet_id : List ℕ → ℕ → ℕ
packet_id pdu offset = be16 (get_or pdu offset 0) (get_or pdu (offset + 1) 0)

unfoldable pub packet_seq : List ℕ → ℕ → ℕ
packet_seq pdu offset = be16 (get_or pdu (offset + 2) 0) (get_or pdu (offset + 3) 0)

unfoldable pub total_packet_size : List ℕ → ℕ → ℕ
total_packet_size pdu offset =
    (be16 (get_or pdu (offset + 4) 0) (get_or pdu (offset + 5) 0) + 7) % 65536

-- The test for a command packet that lies in the payload.
unfoldable pub is_packet : List ℕ → ℕ → Bool
is_packet pdu offset =
    packet_id pdu offset / 8192 % 8 == 0
    && packet_id pdu offset / 4096 % 2 == 1
    && leb (packet_seq pdu offset / 16384 % 4) 3
    && leb 7 (total_packet_size pdu offset)
    && leb (offset + total_packet_size pdu offset) (length pdu)

-- The packets handed to CFE_SB_TransmitMsg, in order. The first argument is the number of turns left.
unfoldable pub scan : ℕ → List ℕ → ℕ → List (List ℕ)
scan zero pdu scan_offset = []
scan (suc turns) pdu scan_offset =
    let total = total_packet_size pdu scan_offset in
    let sent = take total (drop scan_offset pdu) ∷ scan turns pdu (scan_offset + (total - 1) + 1) in
    let next = scan turns pdu (scan_offset + 1) in
    if leb scan_offset (length pdu) && leb 6 (length pdu - scan_offset)
    then if is_packet pdu scan_offset then sent else next
    else []

-- All packets of a payload.
unfoldable pub packets : List ℕ → List (List ℕ)
packets pdu = scan (length pdu + 1) pdu 0
