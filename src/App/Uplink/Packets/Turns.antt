-- ===== src/App/Uplink/Packets/Turns.antt =====
-- The number of turns of the packet loop in RADIO_ServiceUplink (src/radio_app.c).
use tryspace_comp_radio.Base.{
  ℕ, zero, suc, ◌+◌, ◌-◌, ◌≤◌, ◌<◌, ◌≡◌, refl, sym, ap, ◌∙◌, true, false, ◌&&◌, List, [], ◌∷◌,
  arith, leb, length, take, drop, Bool-cases, inl, inr,
}
use native.Mathlib.Decide.{dec_lt}
use tryspace_comp_radio.App.Uplink.Packets.{total_packet_size, is_packet, scan}

-- An accepted packet has a header and lies in the payload.
pub is_packet-size :
    (pdu : List ℕ) (off : ℕ)
    → is_packet pdu off ≡ true
    → (7 ≤ total_packet_size pdu off) × (off + total_packet_size pdu off ≤ length pdu)
unfolding is_packet
is_packet-size pdu off h = ground arith

module _ (pdu : List ℕ) where
  pub scan_ends : (turns off : ℕ) → length pdu < off + 6 → scan turns pdu off ≡ []
  unfolding scan
  scan_ends zero off h = refl
  scan_ends (suc turns) off h = ground arith

  has_room :
      (off : ℕ) → off + 6 ≤ length pdu → (leb off (length pdu) && leb 6 (length pdu - off)) ≡ true
  has_room off h = ground arith

  -- A packet is there: it is sent, and the scan goes on behind it.
  pub scan_send :
      (turns off : ℕ)
      → off + 6 ≤ length pdu
      → is_packet pdu off ≡ true
      → scan (suc turns) pdu off
        ≡ take (total_packet_size pdu off) (drop off pdu)
          ∷ scan turns pdu (off + (total_packet_size pdu off - 1) + 1)
  unfolding scan
  scan_send turns off room yes_packet = rw (has_room off room, yes_packet)

  -- No packet is there: the scan goes on at the next byte.
  pub scan_next :
      (turns off : ℕ)
      → off + 6 ≤ length pdu
      → is_packet pdu off ≡ false
      → scan (suc turns) pdu off ≡ scan turns pdu (off + 1)
  unfolding scan
  scan_next turns off room no_packet = rw (has_room off room, no_packet)

  -- Any two numbers of turns above the number of bytes left give the same packets: one more turn
  -- than bytes is enough.
  scan-turns :
      (f g off : ℕ) → length pdu < off + f → length pdu < off + g → scan f pdu off ≡ scan g pdu off
  scan-turns zero g off hf hg =
      scan_ends zero off (omega arith) ∙ sym (scan_ends g off (omega arith))
  scan-turns (suc f) zero off hf hg =
      scan_ends (suc f) off (omega arith) ∙ sym (scan_ends zero off (omega arith))
  scan-turns (suc f) (suc g) off hf hg = elim (dec_lt (length pdu) (off + 6)) [
    | yes short ↦ scan_ends (suc f) off short ∙ sym (scan_ends (suc g) off short)
    | no long ↦ elim (Bool-cases (is_packet pdu off)) [
      | inl hit ↦
          let size = is_packet-size pdu off hit in
          scan_send f off (omega arith) hit
          ∙ ap (◌∷◌ (take (total_packet_size pdu off) (drop off pdu))) (
              scan-turns f g (off + (total_packet_size pdu off - 1) + 1) (omega arith)
                (omega arith))
          ∙ sym (scan_send g off (omega arith) hit)
      | inr miss ↦
          scan_next f off (omega arith) miss
          ∙ scan-turns f g (off + 1) (omega arith) (omega arith)
          ∙ sym (scan_next g off (omega arith) miss)
    ]
  ]
