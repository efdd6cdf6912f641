-- ===== src/App/Uplink/Frames/Stream.antt =====
-- The frame loop on a stream of transfer frames.
use tryspace_comp_radio.Base.{
  ℕ, zero, suc, ◌+◌, ◌≤◌, ◌<◌, ◌≡◌, refl, ap, ◌∙◌, ◌⊎◌, inl, inr, List, [], ◌∷◌, ◌++◌, arith,
  length, length-append, get_or-drop, get_or-append_left, drop-drop, take, drop, take-append_self,
  drop-append_self, concat, All, append_assoc, le→leb, lt→leb, le→ltb,
}
use tryspace_comp_radio.App.Uplink.Frames.{frame_len, process_frames}

-- A transfer frame: its header gives its length.
pub record IsFrame (f : List ℕ) : Type 0 where
  pub long : 5 ≤ length f
  pub framed : frame_len f 0 ≡ length f

-- Bytes that wait for more: no whole header, or less than the header's length says.
abbrev pub IsPartial : List ℕ → Type 0
IsPartial rest =
    (length rest < 5)
    ⊎ ((5 ≤ length rest) × (5 ≤ frame_len rest 0) × (length rest < frame_len rest 0))

abbrev pub fold_frames : {S : Type 0} → (List ℕ → S → S) → List (List ℕ) → S → S
fold_frames on_frame [] s = s
fold_frames on_frame (f ∷ fs) s = fold_frames on_frame fs (on_frame f s)

frame_len-drop : (buf : List ℕ) (off : ℕ) → frame_len buf off ≡ frame_len (drop off buf) 0
unfolding frame_len
frame_len-drop buf off = rw (get_or-drop off 2 buf 0, get_or-drop off 3 buf 0)

pub frame_len-append : (f more : List ℕ) → 4 ≤ length f → frame_len (f ++ more) 0 ≡ frame_len f 0
unfolding frame_len
frame_len-append f more h =
    rw (get_or-append_left f more 2 0 (omega arith), get_or-append_left f more 3 0 (omega arith))

module _ {S : Type 0} (on_frame : List ℕ → S → S) (on_drop : S → S) where
  -- One turn on a whole frame.
  take_frame :
      (turns : ℕ) (buf : List ℕ) (n off : ℕ) (s : S)
      → 5 ≤ frame_len buf off
      → off + frame_len buf off ≤ n
      → process_frames on_frame on_drop (suc turns) buf n off s
        ≡ process_frames on_frame on_drop turns buf n
            (off + frame_len buf off)
            (on_frame (take (frame_len buf off) (drop off buf)) s)
  unfolding process_frames
  take_frame turns buf n off s h room = rw (
    le→leb (off + 5) n (omega arith),
    le→ltb (frame_len buf off) 5 h,
    le→ltb n (off + frame_len buf off) room,
  )

  -- One turn on bytes that wait for more.
  stop :
      (turns : ℕ) (buf : List ℕ) (n off : ℕ) (s : S)
      → (n < off + 5) ⊎ ((5 ≤ frame_len buf off) × (n < off + frame_len buf off))
      → process_frames on_frame on_drop turns buf n off s ≡ (off, s)
  unfolding process_frames
  stop zero buf n off s h = refl
  stop (suc turns) buf n off s (inl short) = rw (lt→leb (off + 5) n short)
  stop (suc turns) buf n off s (inr h) = ground (arith)

  -- From an offset where the buffer holds whole frames and then a partial one up to its length,
  -- the loop, with a turn for each byte and one more, hands over exactly those frames in order
  -- and ends at the partial one.
  pub process_frames-stream :
      (frames : List (List ℕ)) (rest junk buf : List ℕ) (n off turns : ℕ) (s : S)
      → All IsFrame frames
      → IsPartial rest
      → drop off buf ≡ concat frames ++ (rest ++ junk)
      → n ≡ off + length (concat frames) + length rest
      → n < off + turns
      → process_frames on_frame on_drop turns buf n off s
        ≡ (off + length (concat frames), fold_frames on_frame frames s)
  process_frames-stream [] rest junk buf n off turns s fs (inl short) e en h =
      stop turns buf n off s (inl (omega arith)) ∙ ap (λ o. (o, s)) (omega arith)
  process_frames-stream [] rest junk buf n off turns s fs (inr p) e en h =
      stop turns buf n off s (inr (omega (arith, len), omega (arith, len)))
      ∙ ap (λ o. (o, s)) (omega arith)
    where
      len : frame_len buf off ≡ frame_len rest 0
      len =
          frame_len-drop buf off
          ∙ ap (λ b. frame_len b 0) e
          ∙ frame_len-append rest junk (omega (arith, p.0))
  process_frames-stream (f ∷ frames) rest junk buf n off zero s fs p e en h = absurd (omega arith)
  process_frames-stream (f ∷ frames) rest junk buf n off (suc turns) s fs p e en h =
      let total = length-append f (concat frames) in
      let long = fs.0.long in
      take_frame turns buf n off s (omega (arith, len)) (omega (arith, len))
      ∙ ap
          (λ b.
            process_frames on_frame on_drop turns buf n (off + frame_len buf off) (on_frame b s))
          taken
      ∙ ap (λ k. process_frames on_frame on_drop turns buf n (off + k) (on_frame f s)) len
      ∙ process_frames-stream frames rest junk buf n (off + length f) turns (on_frame f s) (fs.1) p
          behind (omega arith) (omega arith)
      ∙ ap (λ o. (o, fold_frames on_frame frames (on_frame f s))) (omega arith)
    where
      here : drop off buf ≡ f ++ (concat frames ++ (rest ++ junk))
      here = e ∙ append_assoc f (concat frames) (rest ++ junk)

      len : frame_len buf off ≡ length f
      len =
          frame_len-drop buf off
          ∙ ap (λ b. frame_len b 0) here
          ∙ frame_len-append f (concat frames ++ (rest ++ junk)) (omega (arith, fs.0.long))
          ∙ fs.0.framed

      taken : take (frame_len buf off) (drop off buf) ≡ f
      taken = rw (len, here) (take-append_self f (concat frames ++ (rest ++ junk)))

      behind : drop (off + length f) buf ≡ concat frames ++ (rest ++ junk)
      behind =
          drop-drop off (length f) buf
          ∙ ap (drop (length f)) here
          ∙ drop-append_self f (concat frames ++ (rest ++ junk))
