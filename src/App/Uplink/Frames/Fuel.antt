-- ===== src/App/Uplink/Frames/Fuel.antt =====
-- The number of turns of the frame loop in RADIO_ServiceUplink (src/radio_app.c).
use tryspace_comp_radio.Base.{
  ℕ, zero, suc, ◌+◌, ◌<◌, ◌≡◌, refl, sym, ap, some, List, arith, ltb, leb, Bool-cases, Option-cases,
  inl, inr, lt→leb, if◌then◌else◌, take, drop,
}
use tryspace_comp_radio.App.Uplink.Frames.{frame_len, resync, process_frames}
use tryspace_comp_radio.App.Uplink.Frames.Resync.{Finds, resync-Finds}

resync_advances : (buf : List ℕ) (n off o : ℕ) → resync n buf n (off + 1) ≡ some o → off < o
resync_advances buf n off o e =
    let found : Finds buf n (off + 1) (some o) =
      rw e at (resync-Finds n buf n (off + 1) (omega arith)) in
    omega (arith, found.0)

module _ {S : Type 0} (on_frame : List ℕ → S → S) (on_drop : S → S) (buf : List ℕ) (n : ℕ) where
  abbrev run : ℕ → ℕ → S → ℕ × S
  run turns off s = process_frames on_frame on_drop turns buf n off s

  -- Where fewer than five bytes are left the loop is over.
  run_ends : (turns off : ℕ) (s : S) → n < off + 5 → run turns off s ≡ (off, s)
  unfolding process_frames
  run_ends zero off s h = refl
  run_ends (suc turns) off s h = rw (lt→leb (off + 5) n h)

  -- Any two numbers of turns above the number of bytes left give the same run of the frame loop:
  -- one more turn than bytes is enough.
  pub process_frames-turns :
      (f g off : ℕ) (s : S) → n < off + f → n < off + g → run f off s ≡ run g off s
  unfolding process_frames
  process_frames-turns zero g off s hf hg = sym (run_ends g off s (omega arith))
  process_frames-turns (suc f) zero off s hf hg = run_ends (suc f) off s (omega arith)
  process_frames-turns (suc f) (suc g) off s hf hg = elim (Bool-cases (leb (off + 5) n)) [
    | inr short ↦ rw short
    | inl long ↦ elim (Bool-cases (ltb (frame_len buf off) 5)) [
      | inr framed ↦
          rw (long, framed)
            (ap (λ t. if ltb n (off + frame_len buf off) then (off, s) else t)
              (process_frames-turns f g (off + frame_len buf off)
                (on_frame (take (frame_len buf off) (drop off buf)) s) (ground arith)
                (ground arith)))
      | inl odd ↦ elim (Option-cases (resync n buf n (off + 1))) [
        | inl lost ↦ rw (long, odd, lost)
        | inr (o, found) ↦
            let ahead = resync_advances buf n off o found in
            rw (long, odd, found) (process_frames-turns f g o s (omega arith) (omega arith))
      ]
    ]
  ]
