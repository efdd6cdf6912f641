-- ===== src/App/Uplink/Service/Handled.antt =====
-- What it is for RADIO_ServiceUplink to handle a sequence of frames, and that the split of the receive
-- buffer handles those in it.
use tryspace_comp_radio.Base.{
  ℕ, suc, ◌+◌, ◌-◌, ◌%◌, ◌≤◌, ◌≡◌, refl, sym, ap, ◌∙◌, subst, inl, inr, List, [], ◌∷◌, ◌++◌, arith,
  ltb, length, length-append, length-take_le, take, drop, take-append_self, drop-append_self,
  take-append-drop, take-memcpy, memcpy, concat, All, append-nil, append_assoc, Bool-cases, le→ltb,
  lt→ltb,
}
use tryspace_comp_radio.Env.{Env}
use tryspace_comp_radio.App.State.{App}
use tryspace_comp_radio.App.Uplink.Frames.{process_frames}
use tryspace_comp_radio.App.Uplink.Frames.Stream.{
  IsFrame, IsPartial, fold_frames, process_frames-stream,
}
use tryspace_comp_radio.App.Uplink.Service.{keep_rest, on_frame, on_drop, split_buffer}
use tryspace_comp_radio.App.Uplink.Service.Buffer.{process_frames-SameBuffer}

-- The bytes that wait in the receive buffer.
abbrev pub pending : App → List ℕ
pending a = take a.receive_buff_length a.receive_buffer

-- The state with another receive buffer.
abbrev pub with_buffer : List ℕ → ℕ → App → App
with_buffer buf n a = record a { receive_buffer = buf; receive_buff_length = n }

module _ {W : Type 0} (env : Env W) where
  -- From one state to another the application handles these frames, in order. In between only the
  -- receive buffer changes, and the world outside.
  pub data Handles : List (List ℕ) → App × W → App × W → Type 0 where
    done : {s : App × W} → Handles [] s s
    frame :
        {f : List ℕ} {fs : List (List ℕ)} {s t : App × W}
        → Handles fs (on_frame env f s) t
        → Handles (f ∷ fs) s t
    receive :
        {fs : List (List ℕ)} {a : App} {w : W} {t : App × W} (buf : List ℕ) (n : ℕ) (w' : W)
        → Handles fs (with_buffer buf n a, w') t
        → Handles fs (a, w) t

  pub Handles-append :
      {fs gs : List (List ℕ)} {s t u : App × W}
      → Handles fs s t
      → Handles gs t u
      → Handles (fs ++ gs) s u
  Handles-append done k = k
  Handles-append (frame h) k = frame (Handles-append h k)
  Handles-append (receive buf n w' h) k = receive buf n w' (Handles-append h k)

  fold-Handles : (fs : List (List ℕ)) (s : App × W) → Handles fs s (fold_frames (on_frame env) fs s)
  fold-Handles [] s = done
  fold-Handles (f ∷ fs) s = frame (fold-Handles fs (on_frame env f s))

  -- The rest of the buffer is moved to the front, or there is none.
  keep_rest-pending :
      (a : App) (rest junk : List ℕ) (offset : ℕ)
      → length a.receive_buffer ≡ 1024
      → drop offset a.receive_buffer ≡ rest ++ junk
      → offset + length rest ≤ 1024
      → pending (keep_rest offset (offset + length rest) a) ≡ rest
  unfolding keep_rest
  keep_rest-pending a [] junk offset sized e h = rw (le→ltb offset (offset + 0) (omega arith)) refl
  keep_rest-pending a (x ∷ rest) junk offset sized e h =
      let n : ℕ = suc (length rest) in
      let left : offset + n - offset ≡ n = omega arith in
      let small : n % 65536 ≡ n = omega arith in
      let moved : take n (drop offset a.receive_buffer) ≡ x ∷ rest =
        ap (take n) e ∙ take-append_self (x ∷ rest) junk in
      rw (lt→ltb offset (offset + n) (omega arith), left)
        (ap (λ k. take k (memcpy a.receive_buffer 0 (take n (drop offset a.receive_buffer)))) small
          ∙ ap (λ src. take n (memcpy a.receive_buffer 0 src)) moved
          ∙ ap (λ k. take k (memcpy a.receive_buffer 0 (x ∷ rest))) {x = n} {y = 0 + n}
              (omega arith)
          ∙ take-memcpy a.receive_buffer 0 (x ∷ rest) (omega arith))

  keep_rest-Handles : (offset n : ℕ) (s : App × W) → Handles [] s (keep_rest offset n s.0, s.1)
  unfolding keep_rest
  keep_rest-Handles offset n (a, w) = elim (Bool-cases (ltb offset n)) [
    | inl left ↦ rw left (
        receive (memcpy a.receive_buffer 0 (take (n - offset) (drop offset a.receive_buffer)))
          ((n - offset) % 65536) w done)
    | inr over ↦ rw over (receive a.receive_buffer 0 w done)
  ]

  -- A buffer that holds whole frames and a partial one.
  pub split_buffer-frames :
      (frames : List (List ℕ)) (rest : List ℕ) (a : App) (w : W)
      → length a.receive_buffer ≡ 1024
      → a.receive_buff_length ≤ 1024
      → All IsFrame frames
      → IsPartial rest
      → pending a ≡ concat frames ++ rest
      → (pending (split_buffer env (a, w)).0 ≡ rest)
        × Handles frames (a, w) (split_buffer env (a, w))
  unfolding split_buffer
  split_buffer-frames frames rest a w sized le v p e = (
    ap (λ k. pending (keep_rest r.0 k r.1.0)) (omega (arith, off, len))
        ∙ keep_rest-pending r.1.0 rest junk r.0 (ap length (same.0) ∙ sized) behind
            (omega (arith, off, len)),
    subst (λ fs. Handles fs (a, w) (split_buffer env (a, w))) (append-nil frames)
        (Handles-append
          (subst (λ s. Handles frames (a, w) s) (sym (ap (λ (q : ℕ × (App × W)). q.1) looped))
            (fold-Handles frames (a, w)))
          (keep_rest-Handles r.0 n r.1)),
  )
    where
      n : ℕ
      n = a.receive_buff_length

      junk : List ℕ
      junk = drop n a.receive_buffer

      r : ℕ × (App × W)
      r = process_frames (on_frame env) (on_drop env) (n + 1) a.receive_buffer n 0 (a, w)

      cut : a.receive_buffer ≡ concat frames ++ (rest ++ junk)
      cut =
          sym (take-append-drop n a.receive_buffer)
          ∙ ap (λ t. t ++ junk) e
          ∙ append_assoc (concat frames) rest junk

      len : n ≡ length (concat frames) + length rest
      len =
          sym (length-take_le n a.receive_buffer (omega arith))
          ∙ ap length e
          ∙ length-append (concat frames) rest

      looped : r ≡ (0 + length (concat frames), fold_frames (on_frame env) frames (a, w))
      looped =
          process_frames-stream (on_frame env) (on_drop env) frames rest junk a.receive_buffer n 0
            (n + 1) (a, w) v p cut (omega (arith, len)) (omega arith)

      off : r.0 ≡ length (concat frames)
      off = ap (λ (q : ℕ × (App × W)). q.0) looped ∙ omega arith

      same :
          (r.1.0.receive_buffer ≡ a.receive_buffer)
          × (r.1.0.receive_buff_length ≡ a.receive_buff_length)
      same = process_frames-SameBuffer env a.receive_buffer n (n + 1) 0 a w

      behind : drop r.0 r.1.0.receive_buffer ≡ rest ++ junk
      behind =
          ap (drop r.0) (same.0)
          ∙ ap (λ k. drop k a.receive_buffer) off
          ∙ ap (drop (length (concat frames))) cut
          ∙ drop-append_self (concat frames) (rest ++ junk)
