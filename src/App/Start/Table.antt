-- ===== src/App/Start/Table.antt =====
-- The downlink subscription table of tables/radio_sub.c, and the loop over a table in RADIO_AppInit of
-- src/radio_app.c.
use tryspace_comp_radio.Base.{
  ℕ, zero, suc, ◌≤◌, ◌≡◌, refl, sym, ap, ◌∙◌, inl, inr, true, false, List, [], ◌∷◌, ◌++◌, arith,
  eq_int, take, Bool-cases, append_assoc, append-nil, if◌then◌else◌, replicate,
}
use tryspace_comp_radio.Env.{Env}
use tryspace_comp_radio.App.Eid
use tryspace_comp_radio.App.State.{App, Subscription, event, error}
use tryspace_comp_radio.App.Executive.{Executive}
use tryspace_comp_radio.App.Start.{pipe_error, subscribe_all}

-- RADIO_HK_TLM_MID
abbrev pub hk_tlm_mid : ℕ
hk_tlm_mid = 0x08D2

-- An entry of the table without a quality of service, for up to four messages.
abbrev entry : ℕ → Subscription
entry stream = record { stream = stream; flags = 0; buf_limit = 4 }

-- RADIO_Subs up to the entry that ends it. CFE_ES_HK_TLM_MID, CFE_EVS_HK_TLM_MID and
-- CFE_SB_MSGID_RESERVED are cFE's.
abbrev pub radio_subs : ℕ → ℕ → ℕ → List Subscription
radio_subs es_hk evs_hk reserved =
    entry hk_tlm_mid
    ∷ entry es_hk
    ∷ entry evs_hk
    ∷ record { stream = reserved; flags = 0; buf_limit = 0 }
    ∷ []

module _ {W : Type 0} (env : Env W) (es : Executive W) where
  -- The entries in front of the first that is no message id.
  abbrev pub valid_front : List Subscription → List Subscription
  valid_front [] = []
  valid_front (sub ∷ subs) =
      let rest = valid_front subs in if es.is_valid_msg_id sub.stream then sub ∷ rest else []

  -- CFE_SB_SubscribeEx on a pipe for each entry: how often it fails, and the world behind.
  abbrev pub subscribed : ℕ → List Subscription → W → ℕ × W
  subscribed pipe [] w = (0, w)
  subscribed pipe (sub ∷ subs) w =
      let (status, w₁) = es.subscribe_ex sub pipe w in
      let (failures, w₂) = subscribed pipe subs w₁ in
      (if eq_int status es.cfe_success then failures else suc failures, w₂)

  -- This many events that the start-up failed at a pipe.
  abbrev pub pipe_errors : ℕ → App → App
  pipe_errors n a = record a { out = a.out ++ replicate n (event Eid.pipe_err error) }

  pipe_errors-suc : (n : ℕ) (a : App) → pipe_errors n (pipe_error a) ≡ pipe_errors (suc n) a
  pipe_errors-suc n a =
      ap (λ o. record a { out = o })
        (append_assoc a.out (event Eid.pipe_err error ∷ [])
          (replicate n (event Eid.pipe_err error)))

  -- Whatever cFE answers, the start-up subscribes to exactly the entries in front of the first that
  -- is no message id, once each and in order, and sends one event for each subscription that
  -- fails; nothing else changes.
  pub subscribe_all_lem :
      (subs : List Subscription) (a : App) (w : W)
      → let (failures, w') = subscribed a.downlink_pipe (valid_front subs) w in
        subscribe_all env es subs a w ≡ (pipe_errors failures a, w')
  unfolding subscribe_all
  subscribe_all_lem [] a w = ap (λ o. (record a { out = o }, w)) (sym (append-nil a.out))
  subscribe_all_lem (sub ∷ subs) a w = elim (Bool-cases (es.is_valid_msg_id sub.stream)) [
    | inr stop ↦ rw stop (ap (λ o. (record a { out = o }, w)) (sym (append-nil a.out)))
    | inl valid ↦
        let (status, w₁) = es.subscribe_ex sub a.downlink_pipe w in
        elim (Bool-cases (eq_int status es.cfe_success)) [
          | inl good ↦ rw (valid, good) (subscribe_all_lem subs a w₁)
          | inr bad ↦
              rw (valid, bad)
                (subscribe_all_lem subs (pipe_error a) w₁
                  ∙ ap (λ x. (x, (subscribed a.downlink_pipe (valid_front subs) w₁).1))
                      (pipe_errors-suc (subscribed a.downlink_pipe (valid_front subs) w₁).0 a))
        ]
  ]

  -- The entries that are subscribed to, in the table as it is shipped.
  abbrev shipped : ℕ → ℕ → List Subscription
  shipped es_hk evs_hk = entry hk_tlm_mid ∷ entry es_hk ∷ entry evs_hk ∷ []

  module _ (es_hk evs_hk reserved : ℕ) (radio_hk : es.is_valid_msg_id hk_tlm_mid ≡ true)
      (es_valid : es.is_valid_msg_id es_hk ≡ true) (evs_valid : es.is_valid_msg_id evs_hk ≡ true)
      (ends : es.is_valid_msg_id reserved ≡ false) where
    valid_front-radio_subs :
        (max : ℕ)
        → 3 ≤ max
        → valid_front (take max (radio_subs es_hk evs_hk reserved)) ≡ shipped es_hk evs_hk
    valid_front-radio_subs zero h = absurd (omega arith)
    valid_front-radio_subs (suc zero) h = absurd (omega arith)
    valid_front-radio_subs (suc (suc zero)) h = absurd (omega arith)
    valid_front-radio_subs (suc (suc (suc zero))) h = rw (radio_hk, es_valid, evs_valid) refl
    valid_front-radio_subs (suc (suc (suc (suc max)))) h =
        rw (radio_hk, es_valid, evs_valid, ends) refl

    -- If a table may have at least three entries, the three identifiers of the table are message
    -- ids and the one that ends it is none, the start-up subscribes to the housekeeping of the
    -- radio, of ES and of EVS in this order, for up to four messages each, and to nothing else,
    -- with one event for each subscription that fails.
    pub subscribe_all-radio_subs :
        (max : ℕ) (a : App) (w : W)
        → 3 ≤ max
        → let (failures, w') = subscribed a.downlink_pipe (shipped es_hk evs_hk) w in
          subscribe_all env es (take max (radio_subs es_hk evs_hk reserved)) a w
          ≡ (pipe_errors failures a, w')
    subscribe_all-radio_subs max a w h =
        subscribe_all_lem (take max (radio_subs es_hk evs_hk reserved)) a w
        ∙ ap
            (λ subs. (
              pipe_errors (subscribed a.downlink_pipe subs w).0 a,
              (subscribed a.downlink_pipe subs w).1,
            ))
            (valid_front-radio_subs max h)
