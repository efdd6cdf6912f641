-- ===== src/App/Uplink/Frames.antt =====
-- The loop of RADIO_ServiceUplink that splits the receive buffer into transfer frames. What is done
-- with a frame, and with a buffer that is given up, are arguments. Each turn of either loop raises
-- the offset, so it is given `buf_len + 1` turns.
use tryspace_comp_radio.Base.{
  ℕ, zero, suc, ◌+◌, ◌*◌, ◌%◌, Bool, ◌&&◌, Option, none, some, List, ltb, leb, if◌then◌else◌,
  get_or, take, drop,
}
pub mod Fuel
pub mod Resync
pub mod Bounds
pub mod Stream
pub mod Prefix

-- `((cur[2] & 0x03) << 8 | cur[3]) + 1`: the length of the frame that starts at an offset. The
-- array holds `uint8_t`, hence `% 256`.
unfoldable pub frame_len : List ℕ → ℕ → ℕ
frame_len buf offset = (get_or buf (offset + 2) 0 % 4) * 256 + get_or buf (offset + 3) 0 % 256 + 1

-- A header that may start a frame: the length is one, and the frame lies in the buffer.
unfoldable pub is_plausible : List ℕ → ℕ → ℕ → Bool
is_plausible buf buf_len offset =
    leb 5 (frame_len buf offset) && leb (offset + frame_len buf offset) buf_len

-- The scan for the next plausible header. The first argument is the number of turns left.
unfoldable pub resync : ℕ → List ℕ → ℕ → ℕ → Option ℕ
resync zero buf buf_len new_offset = none
resync (suc turns) buf buf_len new_offset =
    let rest = resync turns buf buf_len (new_offset + 1) in
    if leb (new_offset + 5) buf_len
    then if is_plausible buf buf_len new_offset then some new_offset else rest
    else none

module _ {S : Type 0} (on_frame : List ℕ → S → S) (on_drop : S → S) where
  -- The offset at which the loop ends, and the state then.
  unfoldable pub process_frames : ℕ → List ℕ → ℕ → ℕ → S → ℕ × S
  process_frames zero buf buf_len offset s = (offset, s)
  process_frames (suc turns) buf buf_len offset s =
      let len = frame_len buf offset in
      let resynced : ℕ × S = elim (resync buf_len buf buf_len (offset + 1)) [
        | some new_offset ↦ process_frames turns buf buf_len new_offset s
        | none ↦ (buf_len, on_drop s)
      ] in
      let next =
        process_frames turns buf buf_len (offset + len) (on_frame (take len (drop offset buf)) s) in
      if leb (offset + 5) buf_len
      then if ltb len 5 then resynced else if ltb buf_len (offset + len) then (offset, s) else next
      else (offset, s)
