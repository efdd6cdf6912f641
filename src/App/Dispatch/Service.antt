-- ===== src/App/Dispatch/Service.antt =====
-- RADIO_Service in src/radio_app.c where the device is disabled, or its mode does not send.
use tryspace_comp_radio.Base.{
  ℕ, zero, suc, ◌<◌, ◌≡◌, ◌≢◌, ap, ◌∙◌, false, Option, none, some, List, [], ◌∷◌, arith, ◌==◌,
  length,
}
use tryspace_comp_radio.Env.{Env}
use tryspace_comp_radio.App.State.{App}
use tryspace_comp_radio.App.Dispatch.{drain, service}

module _ {W : Type 0} (env : Env W) where
  -- The downlink pipe gives these packets, one at a poll, and is empty then.
  pub data Pipe : List (List ℕ) → W → W → Type 0 where
    empty : {w w' : W} → env.cfe.poll_downlink w ≡ (none, w') → Pipe [] w w'
    packet :
        {p : List ℕ} {ps : List (List ℕ)} {w w₁ w' : W}
        → env.cfe.poll_downlink w ≡ (some p, w₁)
        → Pipe ps w₁ w'
        → Pipe (p ∷ ps) w w'

  -- The loop that empties the pipe ends after one turn for each packet and one more.
  drain-Pipe :
      (turns : ℕ) {ps : List (List ℕ)} {w w' : W}
      → Pipe ps w w'
      → length ps < turns
      → drain env turns turns w ≡ some w'
  unfolding drain
  drain-Pipe zero p h = absurd (omega arith)
  drain-Pipe (suc turns) (empty e) h =
      ap
        (λ (r : Option (List ℕ) × W). elim r.0 [
          | none ↦ some r.1
          | some _ ↦ drain env (suc turns) turns r.1
        ])
        e
  drain-Pipe (suc turns) (packet e p) h =
      ap
        (λ (r : Option (List ℕ) × W). elim r.0 [
          | none ↦ some r.1
          | some _ ↦ drain env (suc turns) turns r.1
        ])
        e
      ∙ drain-Pipe turns p (omega arith)

  -- If the device is not enabled and the downlink pipe gives up its packets and is then empty, a
  -- service command returns after one turn more than there are packets, with the pipe emptied and
  -- the application as it was.
  pub service-disabled :
      (turns : ℕ) (a : App) {ps : List (List ℕ)} {w w' : W}
      → a.hk.device_enabled ≢ 1
      → Pipe ps w w'
      → length ps < turns
      → service env turns a w ≡ some (a, w')
  unfolding service
  service-disabled turns a off p h =
      let test : (a.hk.device_enabled == 1) ≡ false = ground arith in
      ground (arith, drain-Pipe turns p h)
