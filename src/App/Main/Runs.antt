-- ===== src/App/Main/Runs.antt =====
-- The runs of RADIO_AppMain in src/radio_app.c: its loop as a relation of steps, and what it leaves.
use tryspace_comp_radio.Base.{
  ℕ, zero, suc, ◌<◌, ◌≡◌, ℤ, refl, ◌∙◌, sym, subst, ap, inl, inr, Bool, true, false, Option, none,
  some, if◌then◌else◌, arith, Bool-cases, length, length-replicate, ◌==◌,
}
use tryspace_comp_radio.Env.{Env, Message}
use tryspace_comp_radio.App.State.{App, RunStatus, app_error, device_disabled, device_enabled}
use tryspace_comp_radio.App.Executive.{Executive}
use tryspace_comp_radio.App.Commands.{disable}
use tryspace_comp_radio.App.Dispatch.{process_command_packet}
use tryspace_comp_radio.App.Dispatch.Invariant.{
  IsApp, IsView, disable-IsApp, process_command_packet-IsApp,
}
use tryspace_comp_radio.App.Downlink.Frame.{view}
use tryspace_comp_radio.App.Start.Ready.{IsReady, Begun, refused, ready, app_init-Begun}
use tryspace_comp_radio.App.Main.{
  Turn, stops, goes_on, unfinished, pipe_failed, served, on_received, main_turn, main_loop,
  app_main,
}

module _ {W : Type 0} (env : Env W) (es : Executive W) (service_turns : ℕ) where
  -- A run of the loop of at most so many messages and read errors: cFE ends it, the command pipe
  -- cannot be read, or a message is handled.
  pub data Runs : ℕ → App → W → App × W → Type 0 where
    ends :
        {n : ℕ} {a : App} {w w₁ : W} {status : RunStatus}
        → es.run_loop a.run_status w ≡ (false, status, w₁)
        → Runs n a w (record a { run_status = status }, w₁)
    unread :
        {n : ℕ} {a : App} {w w₁ w₂ : W} {status : RunStatus} {r : App × W}
        → es.run_loop a.run_status w ≡ (true, status, w₁)
        → es.receive_command a.cmd_pipe w₁ ≡ (none, w₂)
        → Runs n (pipe_failed env es service_turns (record a { run_status = status })) w₂ r
        → Runs (suc n) a w r
    handled :
        {n : ℕ} {a a₃ : App} {w w₁ w₂ w₃ : W} {status : RunStatus} {msg : Message} {r : App × W}
        → es.run_loop a.run_status w ≡ (true, status, w₁)
        → es.receive_command a.cmd_pipe w₁ ≡ (some msg, w₂)
        → process_command_packet env service_turns msg (record a { run_status = status }) w₂
          ≡ some (a₃, w₃)
        → Runs n a₃ w₃ r
        → Runs (suc n) a w r

  turn-ends :
      (a : App) (w w₁ : W) (status : RunStatus)
      → es.run_loop a.run_status w ≡ (false, status, w₁)
      → main_turn env es service_turns a w ≡ stops (record a { run_status = status }) w₁
  unfolding main_turn
  turn-ends a w w₁ status e = rw (e, main_turn) refl

  turn-received :
      (a : App) (w w₁ w₂ : W) (status : RunStatus) (received : Option Message)
      → es.run_loop a.run_status w ≡ (true, status, w₁)
      → es.receive_command a.cmd_pipe w₁ ≡ (received, w₂)
      → main_turn env es service_turns a w
        ≡ on_received env es service_turns received (record a { run_status = status }) w₂
  unfolding main_turn
  turn-received a w w₁ w₂ status received e f = rw (e, main_turn) (rw (f) refl)

  -- A run of the loop as a sequence of steps, each of which ends it, notes a read error of the
  -- command pipe, or handles one message, is what the loop returns, if it is given more turns
  -- than the run has messages and read errors.
  pub main_loop-Runs :
      (n turns : ℕ) (a : App) (w : W) (r : App × W)
      → Runs n a w r
      → n < turns
      → main_loop env es service_turns turns a w ≡ some r
  unfolding main_loop
  main_loop-Runs n zero a w r run h = absurd (omega arith)
  main_loop-Runs n (suc turns) a w r (ends e) h = rw (turn-ends a w _ _ e, main_loop) refl
  main_loop-Runs (suc n) (suc turns) a w r (unread e f run) h =
      rw (turn-received a w _ _ _ none e f, main_loop)
        (main_loop-Runs n turns _ _ r run (omega arith))
  main_loop-Runs (suc n) (suc turns) a w r (handled {msg = msg} e f g run) h =
      rw (turn-received a w _ _ _ (some msg) e f ∙ ap (served env es service_turns) g, main_loop)
        (main_loop-Runs n turns _ _ r run (omega arith))

  -- A run that came to its end, with the device disabled and sound data.
  pub data Left : Option (App × W) → Type 0 where
    running : Left none
    left : (a : App) (w : W) → a.hk.device_enabled ≡ device_disabled → IsApp a → Left (some (a, w))

  data Looped : Option (App × W) → Type 0 where
    out_of_turns : Looped none
    looped : (a : App) (w : W) → IsApp a → Looped (some (a, w))

  data Turned : Turn W → Type 0 where
    stopped : (a : App) (w : W) → IsApp a → Turned (stops a w)
    turned : (a : App) (w : W) → IsApp a → Turned (goes_on a w)
    overrun : Turned unfinished

  served-Turned :
      (o : Option (App × W))
      → ((r : App × W) → o ≡ some r → IsApp r.0)
      → Turned (served env es service_turns o)
  served-Turned none sound = overrun
  served-Turned (some (a, w)) sound = turned a w (sound (a, w) refl)

  received-Turned :
      (received : Option Message) (a : App) (w : W)
      → IsApp a
      → Turned (on_received env es service_turns received a w)
  received-Turned none a w v =
      turned _ w (record { flag = v.flag; sized = v.sized; below = v.below })
  received-Turned (some msg) a w v =
      served-Turned (process_command_packet env service_turns msg a w)
        (λ r e. process_command_packet-IsApp env service_turns msg a w r v e)

  either-Turned : (b : Bool) (x y : Turn W) → Turned x → Turned y → Turned (if b then x else y)
  either-Turned true x y u v = u
  either-Turned false x y u v = v

  status-IsApp : (status : RunStatus) (a : App) → IsApp a → IsApp (record a { run_status = status })
  status-IsApp status a v = record { flag = v.flag; sized = v.sized; below = v.below }

  main_turn-Turned : (a : App) (w : W) → IsApp a → Turned (main_turn env es service_turns a w)
  unfolding main_turn
  main_turn-Turned a w v =
      let v₁ = status-IsApp (es.run_loop a.run_status w).1 a v in
      either-Turned _ _ _ (received-Turned _ _ _ v₁) (stopped _ _ v₁)

  Turned-Looped :
      (turn : Turn W) (next : App → W → Option (App × W))
      → Turned turn
      → ((a : App) (w : W) → IsApp a → Looped (next a w))
      → Looped (elim turn [
        | stops a' w' ↦ some (a', w')
        | goes_on a' w' ↦ next a' w'
        | unfinished ↦ none
      ])
  Turned-Looped turn next (stopped a w v) h = looped a w v
  Turned-Looped turn next (turned a w v) h = h a w v
  Turned-Looped turn next overrun h = out_of_turns

  main_loop-Looped :
      (turns : ℕ) (a : App) (w : W) → IsApp a → Looped (main_loop env es service_turns turns a w)
  unfolding main_loop
  main_loop-Looped zero a w v = out_of_turns
  main_loop-Looped (suc turns) a w v =
      Turned-Looped (main_turn env es service_turns a w)
        (λ a' w'. main_loop env es service_turns turns a' w') (main_turn-Turned a w v)
        (λ a' w' v'. main_loop-Looped turns a' w' v')

  disable-off :
      (a : App) (w : W) → IsApp a → (disable env a w).0.hk.device_enabled ≡ device_disabled
  unfolding disable
  disable-off a w v = elim (Bool-cases (a.hk.device_enabled == device_enabled)) [
    | inl on ↦ rw (on, disable) refl
    | inr off ↦ rw (off, disable) (ground (arith, v.flag))
  ]

  ready-IsApp : (a : App) → IsReady env a → IsApp a
  ready-IsApp a r = record {
    flag = omega (arith, r.disabled);
    sized = ap length r.buffer ∙ length-replicate {A = ℕ} 1024 0;
    below = omega (arith, r.waiting);
  }

  Begun-IsApp : (a : App) (w : W) (r : ℤ × App × W) → IsApp a → Begun env es a w r → IsApp r.1
  Begun-IsApp a w r v (refused status a' w' e q) = subst IsView (sym (ap view q)) v
  Begun-IsApp a w r v (ready status a' w' e i) = ready-IsApp a' i

  checked-IsApp :
      (b : Bool) (a : App) → IsApp a → IsApp (if b then a else record a { run_status = app_error })
  checked-IsApp true a v = v
  checked-IsApp false a v = status-IsApp app_error a v

  ended-Left :
      (o : Option (App × W))
      → Looped o
      → Left (elim o [ none ↦ none | some (a₃, w₃) ↦ some (disable env a₃ w₃) ])
  ended-Left o out_of_turns = running
  ended-Left o (looped a w v) = left _ _ (disable-off a w v) (disable-IsApp env a w v)

  -- If the application's data are sound before the start, every run of the application that comes
  -- to its end, whatever cFE, the radio and the messages do and whether the start-up succeeds,
  -- leaves the device disabled and the data sound: the receive buffer has 1024 bytes and at most
  -- 1023 of them wait.
  pub app_main-Left :
      (turns : ℕ) (a : App) (w : W) → IsApp a → Left (app_main env es service_turns turns a w)
  unfolding app_main
  app_main-Left turns a w v = ended-Left _ (
      main_loop-Looped turns _ _
        (checked-IsApp _ _ (Begun-IsApp a w _ v (app_init-Begun env es a w))))
