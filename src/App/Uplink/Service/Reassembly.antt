-- ===== src/App/Uplink/Service/Reassembly.antt =====
-- The transfer frames in the stream that the radio hands to RADIO_ServiceUplink in chunks.
use tryspace_comp_radio.Base.{
  ℕ, ◌+◌, ◌-◌, ◌%◌, ◌≤◌, ◌≡◌, refl, sym, ap, ◌∙◌, subst, inl, inr, true, List, [], ◌∷◌, ◌++◌, arith,
  ltb, length, length-append, take, take-memcpy, memcpy, concat, All, append-nil, append_assoc,
  Bool-cases, le→ltb, some,
}
use tryspace_comp_radio.Device.{os_success, valid, receive_data}
use tryspace_comp_radio.Env.{Env}
use tryspace_comp_radio.App.State.{App}
use tryspace_comp_radio.App.Uplink.Frames.{frame_len}
use tryspace_comp_radio.App.Uplink.Frames.Stream.{IsFrame, IsPartial, frame_len-append}
use tryspace_comp_radio.App.Uplink.Frames.Prefix.{Cut-stream}
use tryspace_comp_radio.App.Uplink.Service.{store, absorb, receive_once, receive_turns, room}
use tryspace_comp_radio.App.Uplink.Service.Buffer.{
  IsBuffer, store_lem, absorb-IsBuffer, receive_data-le,
}
use tryspace_comp_radio.App.Uplink.Service.Handled.{
  pending, Handles, done, receive, Handles-append, split_buffer-frames,
}

module _ {W : Type 0} (env : Env W) where
  store-pending :
      (bytes : List ℕ) (a : App)
      → IsBuffer a
      → length bytes ≤ 1024 - a.receive_buff_length
      → pending (store bytes a) ≡ pending a ++ bytes
  unfolding store
  store-pending bytes a v h =
      let small : (a.receive_buff_length + length bytes) % 65536
          ≡ a.receive_buff_length + length bytes =
        omega (arith, v.below) in
      ap (λ k. take k (memcpy a.receive_buffer a.receive_buff_length bytes)) small
      ∙ take-memcpy a.receive_buffer a.receive_buff_length bytes (omega (arith, v.sized, v.below))

  store-Handles :
      (bytes : List ℕ) (a : App) (w : W) {fs : List (List ℕ)} {t : App × W}
      → Handles env fs (store bytes a, w) t
      → Handles env fs (a, w) t
  unfolding store
  store-Handles bytes a w h = receive _ _ w h

  none_waiting :
      (frames : List (List ℕ)) (rest : List ℕ)
      → All IsFrame frames
      → length (concat frames ++ rest) ≡ 0
      → (frames ≡ []) × (rest ≡ [])
  none_waiting [] [] v h = (refl, refl)
  none_waiting [] (x ∷ rest) v h = absurd (omega arith)
  none_waiting (f ∷ frames) rest v h = absurd (
      omega
        (arith, length-append (f ++ concat frames) rest, length-append f (concat frames), v.0.long))

  absorb-frames :
      (frames : List (List ℕ)) (rest bytes : List ℕ) (a : App) (w : W)
      → IsBuffer a
      → length bytes ≤ 1024 - a.receive_buff_length
      → All IsFrame frames
      → IsPartial rest
      → pending a ++ bytes ≡ concat frames ++ rest
      → let (_, a', w') = absorb env bytes (a, w) in
        (pending a' ≡ rest) × Handles env frames (a, w) (a', w')
  unfolding absorb
  absorb-frames frames rest bytes a w v h fs p e = elim (Bool-cases (ltb 0 n)) [
    | inl some_bytes ↦
        let (q, handled) =
          split_buffer-frames env frames rest (store bytes a) w (stored.1)
            (omega (arith, stored, v.below)) fs p waiting in
        rw (le→ltb 1024 n (omega (arith, stored, v.below)), some_bytes)
          (q, store-Handles bytes a w handled)
    | inr no_bytes ↦
        let empty : n ≡ 0 = ground arith in
        let (no_frames, _) = none_waiting frames rest fs (
          ap length (sym waiting)
          ∙ ap (λ k. length (take k (store bytes a).receive_buffer)) empty) in
        rw (le→ltb 1024 n (omega (arith, stored, v.below)), no_bytes)
          (
            waiting ∙ ap (λ gs. concat gs ++ rest) no_frames,
            subst (λ gs. Handles env gs (a, w) (store bytes a, w)) (sym no_frames)
                (store-Handles bytes a w done),
          )
  ]
    where
      n : ℕ
      n = (store bytes a).receive_buff_length

      stored :
          ((store bytes a).receive_buff_length ≡ a.receive_buff_length + length bytes)
          × (length (store bytes a).receive_buffer ≡ 1024)
      stored = store_lem bytes a v h

      waiting : pending (store bytes a) ≡ concat frames ++ rest
      waiting = store-pending bytes a v h ∙ e

  -- The radio hands out these chunks, one for each turn.
  abbrev pub Delivers : List (List ℕ) → App × W → Type 0
  Delivers [] s = Unit {0}
  Delivers (c ∷ cs) s =
      ((receive_data env.cfg env.hw (some s.0.spi) valid (room env s.0) s.1).0 ≡ os_success c)
      × Delivers cs ((receive_once env s).1, (receive_once env s).2)

  pub receive_once-frames :
      (frames : List (List ℕ)) (rest bytes : List ℕ) (a : App) (w : W)
      → IsBuffer a
      → (receive_data env.cfg env.hw (some a.spi) valid (room env a) w).0 ≡ os_success bytes
      → All IsFrame frames
      → IsPartial rest
      → pending a ++ bytes ≡ concat frames ++ rest
      → let (go_on, a', w') = receive_once env (a, w) in
        (go_on ≡ true) × IsBuffer a' × (pending a' ≡ rest) × Handles env frames (a, w) (a', w')
  unfolding receive_once
  receive_once-frames frames rest bytes a w v received fs p e =
      let w₁ = (receive_data env.cfg env.hw (some a.spi) valid (room env a) w).1 in
      let fits : length bytes ≤ 1024 - a.receive_buff_length = omega (
        arith,
        v.below,
        receive_data-le env.cfg env.hw a.spi (room env a) w bytes (omega (arith, v.below)) received,
      ) in
      let (on, v') = absorb-IsBuffer env bytes a w₁ v fits in
      let (q, handled) = absorb-frames frames rest bytes a w₁ v fits fs p e in
      rw (received, receive_once)
        (on, v', q, receive a.receive_buffer a.receive_buff_length w₁ handled)

  pub All-split : (fs gs : List (List ℕ)) → All IsFrame (fs ++ gs) → All IsFrame fs × All IsFrame gs
  All-split [] gs h = (tt, h)
  All-split (f ∷ fs) gs h = let (a, b) = All-split fs gs (h.1) in ((h.0, a), b)

  pub no_frame_partial :
      (frames : List (List ℕ)) (rest : List ℕ)
      → All IsFrame frames
      → IsPartial (concat frames ++ rest)
      → frames ≡ []
  no_frame_partial [] rest v p = refl
  no_frame_partial (f ∷ frames) rest v p = absurd (clash p)
    where
      more : List ℕ
      more = concat frames ++ rest

      assoc : (f ++ concat frames) ++ rest ≡ f ++ more
      assoc = append_assoc f (concat frames) rest

      len : frame_len ((f ++ concat frames) ++ rest) 0 ≡ length f
      len =
          ap (λ b. frame_len b 0) assoc
          ∙ frame_len-append f more (omega (arith, v.0.long))
          ∙ v.0.framed

      total : length ((f ++ concat frames) ++ rest) ≡ length f + length more
      total = ap length assoc ∙ length-append f more

      clash : IsPartial ((f ++ concat frames) ++ rest) → ⊥
      clash (inl short) = omega (arith, total, v.0.long)
      clash (inr q) = omega (arith, q, total, len)

  -- If the buffer is sound and holds a partial frame, the radio hands out these chunks, one for
  -- each turn, and the waiting bytes with the chunks behind them are the given transfer frames
  -- and then a partial one, the turns hand over exactly those frames in order, with only the
  -- receive buffer and the world changed in between, and keep the partial frame.
  pub receive_turns-frames :
      (chunks frames : List (List ℕ)) (rest : List ℕ) (a : App) (w : W)
      → IsBuffer a
      → IsPartial (pending a)
      → Delivers chunks (a, w)
      → All IsFrame frames
      → IsPartial rest
      → pending a ++ concat chunks ≡ concat frames ++ rest
      → (pending (receive_turns env (length chunks) (a, w)).0 ≡ rest)
        × Handles env frames (a, w) (receive_turns env (length chunks) (a, w))
  unfolding receive_turns
  receive_turns-frames [] frames rest a w v now given fs p e =
      let waiting : pending a ≡ concat frames ++ rest = sym (append-nil (pending a)) ∙ e in
      let no_frames = no_frame_partial frames rest fs (subst IsPartial waiting now) in
      (
        waiting ∙ ap (λ gs. concat gs ++ rest) no_frames,
        subst (λ gs. Handles env gs (a, w) (a, w)) (sym no_frames) done,
      )
  receive_turns-frames (c ∷ cs) frames rest a w v now given fs p e =
      let k =
        Cut-stream frames rest (pending a ++ c) (concat cs) fs p
          (append_assoc (pending a) c (concat cs) ∙ e) in
      let (fs₁, fs₂) = All-split k.before k.behind (subst (All IsFrame) k.frames_eq fs) in
      let (on, v', q, handled) =
        receive_once-frames k.before k.partial c a w v (given.0) fs₁ k.partial_is k.pre_eq in
      let (left, later) =
        receive_turns-frames cs k.behind rest (receive_once env (a, w)).1
          (receive_once env (a, w)).2 v' (subst IsPartial (sym q) k.partial_is) (given.1) fs₂ p
          (ap (λ t. t ++ concat cs) q ∙ k.post_eq) in
      rw on (
        left,
        subst
            (λ gs.
              Handles env gs (a, w)
                (receive_turns env (length cs)
                  ((receive_once env (a, w)).1, (receive_once env (a, w)).2)))
            (sym k.frames_eq) (Handles-append env handled later),
      )
