-- ===== src/App/Uplink/Frames/Bounds.antt =====
-- Where the frame loop ends, and what it keeps.
use tryspace_comp_radio.Base.{
  ℕ, zero, suc, ◌+◌, ◌≤◌, ◌<◌, ◌≡◌, List, some, arith, ltb, leb, ltb→lt, tests, Bool-cases,
  Option-cases, inl, inr, take, drop,
}
use tryspace_comp_radio.App.Uplink.Frames.{frame_len, resync, process_frames}
use tryspace_comp_radio.App.Uplink.Frames.Resync.{Finds, resync-Finds}

-- The length field has ten bits.
pub frame_len-le : (buf : List ℕ) (off : ℕ) → frame_len buf off ≤ 1024
unfolding frame_len
frame_len-le buf off = omega arith

pub resync-bounds :
    (buf : List ℕ) (n off o : ℕ) → resync n buf n (off + 1) ≡ some o → (off < o) × (o + 5 ≤ n)
resync-bounds buf n off o e =
    let found : Finds buf n (off + 1) (some o) =
      rw e at (resync-Finds n buf n (off + 1) (omega arith)) in
    (omega (arith, found.0), found.1)

module _ {S : Type 0} (on_frame : List ℕ → S → S) (on_drop : S → S) (buf : List ℕ) (n : ℕ) where
  -- From an offset inside the buffer and with turns enough, the frame loop ends inside the buffer
  -- and with less than 1024 bytes left.
  pub process_frames-rest :
      (turns off : ℕ) (s : S)
      → off ≤ n
      → n < off + turns
      → ((process_frames on_frame on_drop turns buf n off s).0 ≤ n)
        × (n < (process_frames on_frame on_drop turns buf n off s).0 + 1024)
  unfolding process_frames
  process_frames-rest zero off s le h = absurd (omega arith)
  process_frames-rest (suc turns) off s le h = elim (Bool-cases (leb (off + 5) n)) [
    | inr short ↦ rw short (le, ground arith)
    | inl long ↦ elim (Bool-cases (ltb (frame_len buf off) 5)) [
      | inr framed ↦ elim (Bool-cases (ltb n (off + frame_len buf off))) [
        | inl part ↦
            rw (long, framed, part)
              (le, omega (tests, frame_len-le buf off, ltb→lt n (off + frame_len buf off) part))
        | inr whole ↦
            rw (long, framed, whole)
              (process_frames-rest turns (off + frame_len buf off)
                (on_frame (take (frame_len buf off) (drop off buf)) s) (ground arith)
                (ground arith))
      ]
      | inl odd ↦ elim (Option-cases (resync n buf n (off + 1))) [
        | inl lost ↦ rw (long, odd, lost) (omega arith)
        | inr (o, found) ↦
            let ahead = resync-bounds buf n off o found in
            rw (long, odd, found) (process_frames-rest turns o s (omega arith) (omega arith))
      ]
    ]
  ]

  -- What each handler keeps, the loop keeps.
  pub process_frames_inv {κ} :
      (P : S → Type κ)
      → ((frame : List ℕ) (s : S) → P s → P (on_frame frame s))
      → ((s : S) → P s → P (on_drop s))
      → (turns off : ℕ) (s : S) → P s
      → P (process_frames on_frame on_drop turns buf n off s).1
  unfolding process_frames
  process_frames_inv P keep keep_drop zero off s h = h
  process_frames_inv P keep keep_drop (suc turns) off s h = elim (Bool-cases (leb (off + 5) n)) [
    | inr short ↦ rw short h
    | inl long ↦ elim (Bool-cases (ltb (frame_len buf off) 5)) [
      | inr framed ↦ elim (Bool-cases (ltb n (off + frame_len buf off))) [
        | inl part ↦ rw (long, framed, part) h
        | inr whole ↦
            rw (long, framed, whole)
              (process_frames_inv P keep keep_drop turns (off + frame_len buf off)
                (on_frame (take (frame_len buf off) (drop off buf)) s)
                (keep (take (frame_len buf off) (drop off buf)) s h))
      ]
      | inl odd ↦ elim (Option-cases (resync n buf n (off + 1))) [
        | inl lost ↦ rw (long, odd, lost) (keep_drop s h)
        | inr (o, found) ↦ rw (long, odd, found) (process_frames_inv P keep keep_drop turns o s h)
      ]
    ]
  ]
