-- ===== src/App/Downlink/Delivery.antt =====
-- A frame of RADIO_ServiceDownlink in src/radio_app.c on its way out: through CryptoLib and the
-- synchronisation to the radio of sim/radio_sim.c, and from there to the ground station.
pub mod Frame
pub mod Frames
pub mod Channel
use tryspace_comp_radio.Base.{
  ℕ, zero, suc, ◌+◌, ◌%◌, ◌≤◌, ◌<◌, ◌≡◌, refl, sym, ap, ◌∙◌, subst, inl, inr, Bool, true, false,
  some, List, [], ◌∷◌, ◌++◌, arith, ℤ, pos, length, Bool-cases, eq_int, take, drop, take_ge,
  length-take_le, ltb, ◌&&◌, memcpy, length-memcpy, is_negative, pos_part, if◌then◌else◌, ◌==◌,
  ◌||◌,
}
use tryspace_comp_radio.Device.{
  done, Done, send_cmd, send_data, os_success, os_error, RadioConfig, mode_tx, mode_duplex,
}
use tryspace_comp_radio.Device.Packet.{command_packet}
use tryspace_comp_radio.Env.{Env, FrameInfo}
use tryspace_comp_radio.Sim.State.{Sim}
use tryspace_comp_radio.Sim.Effects.{transmits}
use tryspace_comp_radio.Sim.Link.Send.{Sends, send_data-Sends, IsKept}
use tryspace_comp_radio.App.State.{App, inc_device_count}
use tryspace_comp_radio.App.Downlink.{tm_frame_size, data_error, Down, secure_frame, transmit_frame}
use tryspace_comp_radio.App.Downlink.Laws.{DownlinkSide}

-- An array filled from an index up to its end.
drop-memcpy :
    (dst : List ℕ) (at : ℕ) (src : List ℕ)
    → length dst ≡ at + length src
    → drop at (memcpy dst at src) ≡ src
drop-memcpy [] zero [] h = refl
drop-memcpy [] zero (x ∷ src) h = absurd (omega arith)
drop-memcpy (d ∷ ds) zero [] h = absurd (omega arith)
drop-memcpy (d ∷ ds) zero (x ∷ src) h = ap (◌∷◌ x) (drop-memcpy ds zero src (omega arith))
drop-memcpy [] (suc at) src h = absurd (omega arith)
drop-memcpy (d ∷ ds) (suc at) src h = drop-memcpy ds at src (omega arith)

module _ {W : Type 0} (env : Env W) (side : DownlinkSide env) where
  open side use {spi, status, sim, seen, link, takes, queue, Carries, IsCadu, framing, pipe}

  -- The application's handle is that of the radio, the CADU buffer has its size, and the radio has
  -- power and transmits.
  pub record IsUp (a : App) (w : W) : Type 0 where
    pub handle : a.spi ≡ spi
    pub cadu : length a.cadu_buffer ≡ env.tm.asm_size + tm_frame_size
    pub on : 0 < (sim w).power_value
    pub sends : transmits (sim w) ≡ true

  -- A frame with these packets has reached the ground station.
  pub record Transmitted (ps : List (List ℕ)) (a : App) (w : W) (r : Bool × App × W) : Type 0 where
    pub go_on : r.0 ≡ true
    pub datagram : List ℕ
    pub carries : IsCadu ps datagram
    pub ground : (sim r.2).ground_out ≡ (sim w).ground_out ++ (datagram ∷ [])
    pub replies : seen r.2 ≡ seen w
    pub kept : IsKept (sim w) (sim r.2)
    pub pipe_same : queue r.2 ≡ queue w
    pub info : r.1.frame_info ≡ a.frame_info
    pub up : IsUp r.1 r.2

  pub secure_frame-Carries :
      (ps : List (List ℕ)) (a : App) (w : W)
      → Carries ps a.frame_info.frame
      → Carries ps (secure_frame env a w).0.frame_info.frame
  unfolding secure_frame
  secure_frame-Carries ps a w c =
      let (has_sa, w₁) = env.crypto.has_association w in
      let c' = framing.secure ps a.frame_info.frame w₁ c in
      elim (Bool-cases has_sa) [
        | inr without ↦ rw without c
        | inl with_sa ↦
            elim (Bool-cases (eq_int (env.crypto.apply_security a.frame_info.frame w₁).0 (pos 0))) [
              | inl good ↦ rw (with_sa, good) c'
              | inr bad ↦ rw (with_sa, bad) c'
            ]
      ]

  -- The frame behind the room for its marker, as TM_SYNC_Synchronize gets it.
  abbrev marked : App → List ℕ
  marked a = memcpy a.cadu_buffer env.tm.asm_size (take tm_frame_size a.frame_info.frame)

  -- What `sendto` returns for the first bytes of an array.
  abbrev sent_status : List ℕ → ℕ → W → ℤ
  sent_status bytes n w = status (command_packet send_cmd (take n bytes)) w

  forwards_one :
      (bytes : List ℕ) (n : ℕ) (w : W)
      → transmits (sim w) ≡ true
      → 0 < n
      → n ≤ 2043
      → n ≤ length bytes
      → (transmits (sim w) && ltb 0 (pos_part (sent_status bytes n w))) ≡ true
  forwards_one bytes n w on some_bytes small inside =
      let len : length (take n bytes) ≡ n = length-take_le n bytes inside in
      let whole = takes (take n bytes) w (omega (arith, len)) (omega (arith, len)) in
      ap (λ b. b && ltb 0 (pos_part (sent_status bytes n w))) on
      ∙ ap (λ z. ltb 0 (pos_part z)) (whole ∙ ap pos len)
      ∙ ground (arith, some_bytes)

  -- A frame that is synchronised, and whose CADU the driver sends.
  transmit_frame-done :
      (a : App) (n : ℕ) (w w₂ : W)
      → (env.tm.synchronize (marked a) w).0 ≡ pos n
      → n ≤ 2043
      → let (_, cadu', w₁) = env.tm.synchronize (marked a) w in
        send_data env.cfg env.hw (some a.spi) (some cadu') n w₁ ≡ (done, w₂)
        → transmit_frame env a w ≡ (true, inc_device_count (record a { cadu_buffer = cadu' }), w₂)
  unfolding transmit_frame
  transmit_frame-done a n w w₂ e small sent =
      let (_, cadu', w₁) = env.tm.synchronize (marked a) w in
      let a₁ : App = record a { cadu_buffer = cadu' } in
      let fits : n % 65536 ≡ n = omega arith in
      let after : Done × W → Bool × App × W = λ r.
        (true, elim r.0 [ os_success _ ↦ inc_device_count a₁ | os_error ↦ data_error a₁ ], r.1) in
      rw e (
        ap (λ k. after (send_data env.cfg env.hw (some a.spi) (some cadu') k w₁)) fits
        ∙ ap after sent)

  pub transmit_frame-Transmitted :
      (ps : List (List ℕ)) (a : App) (w : W)
      → Carries ps a.frame_info.frame
      → IsUp a w
      → Transmitted ps a w (transmit_frame env a w)
  transmit_frame-Transmitted ps a w c up =
      let whole : take tm_frame_size a.frame_info.frame ≡ a.frame_info.frame =
        take_ge tm_frame_size a.frame_info.frame (omega (arith, framing.sized ps _ c)) in
      let behind : drop env.tm.asm_size (marked a) ≡ a.frame_info.frame =
        drop-memcpy a.cadu_buffer env.tm.asm_size (take tm_frame_size a.frame_info.frame)
          (up.cadu ∙ ap (λ k. env.tm.asm_size + k) (sym (ap length whole ∙ framing.sized ps _ c)))
        ∙ whole in
      let len : length (marked a) ≡ env.tm.asm_size + tm_frame_size =
        length-memcpy a.cadu_buffer env.tm.asm_size (take tm_frame_size a.frame_info.frame)
        ∙ up.cadu in
      let (n, e, some_bytes, small, inside, is_cadu) =
        framing.synchronize ps (marked a) w len (subst (Carries ps) (sym behind) c) in
      let (_, cadu', w₁) = env.tm.synchronize (marked a) w in
      let quiet = framing.quiet_synchronize (marked a) w in
      let same_power = ap (λ (x : Sim). x.power_value) quiet.radio in
      let s =
        send_data-Sends env.cfg env.hw spi status sim seen link cadu' n w₁
          (omega (arith, same_power, up.on)) some_bytes small inside in
      let forwards : (transmits (sim w₁) && ltb 0 (pos_part (sent_status cadu' n w₁))) ≡ true =
        forwards_one cadu' n w₁ (ap transmits quiet.radio ∙ up.sends) some_bytes small inside in
      let (_, w₂) = send_data env.cfg env.hw (some spi) (some cadu') n w₁ in
      subst (Transmitted ps a w)
        (sym (
          transmit_frame-done a n w w₂ e small (
            ap (λ x. send_data env.cfg env.hw (some x) (some cadu') n w₁) up.handle
            ∙ ap (λ (b : Done). (b, w₂)) s.good)))
        (record {
          go_on = refl;
          datagram = take n cadu';
          carries = is_cadu;
          ground =
              s.radio.ground
              ∙ rw forwards refl
              ∙ ap (λ (x : Sim). x.ground_out ++ (take n cadu' ∷ [])) quiet.radio;
          replies = s.replies ∙ quiet.replies;
          kept =
              subst (λ x. IsKept x (sim w₂)) quiet.radio
                (record {
                  rx = s.radio.rx;
                  replies = s.radio.replies;
                  power = s.radio.power;
                  config = s.radio.config;
                });
          pipe_same = ap queue s.world ∙ pipe.written _ w₁ ∙ quiet.pipe;
          info = refl;
          up = record {
            handle = up.handle;
            cadu = framing.synchronize_sized (marked a) w ∙ len;
            on = omega (arith, s.radio.power, same_power, up.on);
            sends =
                ap (λ (c : RadioConfig). c.mode == mode_tx || c.mode == mode_duplex) s.radio.config
                ∙ ap transmits quiet.radio
                ∙ up.sends;
          };
        })
