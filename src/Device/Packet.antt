-- ===== src/Device/Packet.antt =====
-- The packet that RADIO_CommandDevice writes, against the command format of README.md.
use tryspace_comp_radio.Base.{
  ℕ, suc, ◌+◌, ◌≤◌, ◌<◌, ◌≡◌, refl, ap, none, some, List, [], ◌∷◌, ◌++◌, arith, length, set, take,
  memcpy, memcpy-nil, take_all, byte_at,
}
use tryspace_comp_radio.Device.{build_packet, device_hdr, device_trailer}

-- A command on the wire: header, command, payload length, payload, trailer.
abbrev pub command_packet : ℕ → List ℕ → List ℕ
command_packet cmd payload =
    device_hdr
    ∷ cmd
    ∷ byte_at 1 (length payload)
    ∷ byte_at 0 (length payload)
    ∷ (payload ++ (device_trailer ∷ []))

-- Payload and trailer written into an array that has room for both.
fill :
    (payload rest : List ℕ)
    → length payload < length rest
    → take (suc (length payload)) (set (memcpy rest 0 payload) (length payload) device_trailer)
      ≡ payload ++ (device_trailer ∷ [])
fill [] [] h = absurd (omega arith)
fill [] (r ∷ rest) h = refl
fill (p ∷ payload) [] h = absurd (omega arith)
fill (p ∷ payload) (r ∷ rest) h = ap (◌∷◌ p) (fill payload rest (omega arith))

-- Whatever the stack held, the packet of a payload of the stated length is the command's format.
pub build_packet_lem :
    (tx_buffer : List ℕ) (cmd : ℕ) (payload : List ℕ)
    → length tx_buffer ≡ 2048
    → length payload ≤ 2043
    → build_packet tx_buffer cmd (length payload) (some payload) ≡ command_packet cmd payload
unfolding build_packet
build_packet_lem [] cmd payload e h = absurd (omega arith)
build_packet_lem (a ∷ []) cmd payload e h = absurd (omega arith)
build_packet_lem (a ∷ b ∷ []) cmd payload e h = absurd (omega arith)
build_packet_lem (a ∷ b ∷ c ∷ []) cmd payload e h = absurd (omega arith)
build_packet_lem (a ∷ b ∷ c ∷ d ∷ rest) cmd payload e h =
    rw (four, five, take_all payload, memcpy-nil rest)
      (ap (λ t. device_hdr ∷ cmd ∷ byte_at 1 n ∷ byte_at 0 n ∷ t) (fill payload rest (omega arith)))
  where
    n : ℕ
    n = length payload

    four : 4 + n ≡ suc (suc (suc (suc n)))
    four = omega arith

    five : 5 + n ≡ suc (suc (suc (suc (suc n))))
    five = omega arith

-- A command with no payload needs no pointer to one.
pub build_packet-none :
    (tx_buffer : List ℕ) (cmd : ℕ)
    → length tx_buffer ≡ 2048
    → build_packet tx_buffer cmd 0 none ≡ command_packet cmd []
unfolding build_packet
build_packet-none [] cmd e = absurd (omega arith)
build_packet-none (a ∷ []) cmd e = absurd (omega arith)
build_packet-none (a ∷ b ∷ []) cmd e = absurd (omega arith)
build_packet-none (a ∷ b ∷ c ∷ []) cmd e = absurd (omega arith)
build_packet-none (a ∷ b ∷ c ∷ d ∷ []) cmd e = absurd (omega arith)
build_packet-none (a ∷ b ∷ c ∷ d ∷ r ∷ rest) cmd e = refl
