-- ===== src/App/Start/Ready.antt =====
-- What RADIO_AppInit in src/radio_app.c leaves behind, by whether it comes to its end.
use tryspace_comp_radio.Base.{
  subst, sym, append-nil, ℕ, ◌≡◌, refl, ap, Bool, true, false, ◌||◌, Option, none, some, List, [],
  ◌∷◌, ℤ, eq_int, if◌then◌else◌, arith, replicate, take,
}
use tryspace_comp_radio.Hardware.{closed, input, output}
use tryspace_comp_radio.Env.{Env}
use tryspace_comp_radio.App.Eid
use tryspace_comp_radio.App.State.{
  App, Subscription, app_run, event, error, device_disabled, cmd_mid, req_hk_mid, send,
}
use tryspace_comp_radio.App.Executive.{Executive, downlink_pipe, command_pipe}
use tryspace_comp_radio.App.Commands.{setup_handles, reset_counters}
use tryspace_comp_radio.App.Start.Table.{subscribed, valid_front, subscribe_all_lem, pipe_errors}
use tryspace_comp_radio.App.Start.{
  Progress, returned, going, and_then, outcome, pipe_error, required, subscribe_all,
  subscribe_streams, stored, get_table, register, initial, start_libraries, app_init,
}

-- The application's data, without the handles and the table that cFE gave out and what was sent.
abbrev pub quiet : App → App
quiet a = record a { cmd_pipe = 0; subs_handle = 0; subs_table = none; downlink_pipe = 0; out = [] }

-- A call's status, and if it lets the start-up go on.
abbrev Answer : Type 0
Answer = Bool × ℤ

-- The status of the first call that does not.
abbrev pub first_refused : List Answer → Option ℤ
first_refused [] = none
first_refused ((fine, status) ∷ answers) =
    let rest = first_refused answers in if fine then rest else some status

-- The data of an application that is to run: a disabled device whose handles are closed on the
-- configured pins, no bytes waiting, and nothing counted.
pub record IsReady {W : Type 0} (env : Env W) (a : App) : Type 0 where
  pub runs : a.run_status ≡ app_run
  pub disabled : a.hk.device_enabled ≡ device_disabled
  pub command_count : a.hk.command_count ≡ 0
  pub command_errors : a.hk.command_error_count ≡ 0
  pub device_count : a.hk.device_count ≡ 0
  pub device_errors : a.hk.device_error_count ≡ 0
  pub spi : a.spi ≡ record { bus = env.cfg.spi_bus; cs = env.cfg.spi_cs; is_open = closed }
  pub power :
      a.power_gpio ≡ record { pin = env.cfg.gpio_power_pin; direction = output; is_open = closed }
  pub interrupt :
      a.interrupt_gpio
      ≡ record { pin = env.cfg.gpio_interrupt_pin; direction = input; is_open = closed }
  pub buffer : a.receive_buffer ≡ replicate 1024 0
  pub waiting : a.receive_buff_length ≡ 0

module _ {W : Type 0} (env : Env W) (es : Executive W) where
  abbrev good : ℤ → Answer
  good status = (eq_int status es.cfe_success, status)

  -- The world behind the subscriptions to a table's streams.
  abbrev after_streams : ℕ → Option (List Subscription) → W → W
  after_streams pipe none w = w
  after_streams pipe (some subs) w =
      (subscribed env es pipe (valid_front env es (take env.cfg.max_subscriptions subs)) w).1

  -- What cFE answers to the eight calls, made one after the other with the subscriptions to the
  -- table's streams before the last three.
  abbrev pub answers : W → List Answer
  answers w =
      let (registered, w₁) = es.evs_register w in
      let (made, handle, w₂) = es.tbl_register w₁ in
      let (loaded, w₃) = es.tbl_load handle w₂ in
      let (found, table, w₄) = es.tbl_get_address handle w₃ in
      let (down, down_pipe, w₅) = es.create_pipe downlink_pipe w₄ in
      let (up, up_pipe, w₆) = es.create_pipe command_pipe (after_streams down_pipe table w₅) in
      let (commands, w₇) = es.subscribe cmd_mid up_pipe w₆ in
      let (requests, w₈) = es.subscribe req_hk_mid up_pipe w₇ in
      good registered
      ∷ good made
      ∷ good loaded
      ∷ (eq_int found es.cfe_success || eq_int found es.info_updated, found)
      ∷ good down
      ∷ good up
      ∷ good commands
      ∷ good requests
      ∷ []

  -- The start-up stopped at the first call that was refused, or none was and it came to its end.
  pub data Begun (a : App) (w : W) : ℤ × App × W → Type 0 where
    refused :
        (status : ℤ) (a' : App) (w' : W)
        → first_refused (answers w) ≡ some status
        → quiet a' ≡ quiet (record a { run_status = app_run })
        → Begun a w (status, a', w')
    ready :
        (status : ℤ) (a' : App) (w' : W)
        → first_refused (answers w) ≡ none
        → IsReady env a'
        → Begun a w (status, a', w')

  -- What calls of which this is the first refusal make of the start-up.
  data Kept (a : App) (verdict : Option ℤ) : Progress W → Type 0 where
    stopped :
        (status : ℤ) (a' : App) (w : W)
        → verdict ≡ some status
        → quiet a' ≡ quiet a
        → Kept a verdict (returned status a' w)
    kept : (a' : App) (w : W) → verdict ≡ none → quiet a' ≡ quiet a → Kept a verdict (going a' w)

  -- One call, and what comes behind it if it is not refused.
  step-Kept :
      (a b c : App) (answer : Answer) (verdict : Option ℤ) (w : W) (next : App → W → Progress W)
      → quiet c ≡ quiet a
      → Kept a verdict (next b w)
      → Kept a
          (if answer.0 then verdict else some answer.1)
          (and_then (if answer.0 then going b w else returned answer.1 c w) next)
  step-Kept a b c (true, status) verdict w next q h = h
  step-Kept a b c (false, status) verdict w next q h = stopped status c w refl q

  last-Kept :
      (a b c : App) (answer : Answer) (w : W)
      → quiet b ≡ quiet a
      → quiet c ≡ quiet a
      → Kept a
          (if answer.0 then none else some answer.1)
          (if answer.0 then going b w else returned answer.1 c w)
  last-Kept a b c (true, status) w p q = kept b w refl p
  last-Kept a b c (false, status) w p q = stopped status c w refl q

  -- The subscriptions do not stop the start-up.
  table-Kept :
      (table : Option (List Subscription)) (a b : App) (verdict : Option ℤ) (w : W)
      (next : App → W → Progress W)
      → ((n : ℕ)
          → Kept a verdict (next (pipe_errors env es n b) (after_streams b.downlink_pipe table w)))
      → Kept a verdict (
          and_then
            (elim table [
              | none ↦ going b w
              | some subs ↦
                  let (b', w') = subscribe_all env es (take env.cfg.max_subscriptions subs) b w in
                  going b' w'
            ])
            next)
  table-Kept none a b verdict w next h =
      subst (λ o. Kept a verdict (next (record b { out = o }) w)) (append-nil b.out) (h 0)
  table-Kept (some subs) a b verdict w next h =
      let streams = take env.cfg.max_subscriptions subs in
      subst (λ (r : App × W). Kept a verdict (next r.0 r.1))
        (sym (subscribe_all_lem env es streams b w))
        (h (subscribed env es b.downlink_pipe (valid_front env es streams) w).0)

  subscribe_streams-Kept :
      (a b : App) (verdict : Option ℤ) (w : W) (next : App → W → Progress W)
      → ((n : ℕ)
          → Kept a verdict
              (next (pipe_errors env es n b) (after_streams b.downlink_pipe b.subs_table w)))
      → Kept a verdict (and_then (subscribe_streams env es b w) next)
  unfolding subscribe_streams
  subscribe_streams-Kept a b verdict w next h = table-Kept b.subs_table a b verdict w next h

  register-Kept : (a : App) (w : W) → Kept a (first_refused (answers w)) (register env es a w)
  unfolding register required stored get_table
  register-Kept a w =
      let (registered, w₁) = es.evs_register w in
      let (made, handle, w₂) = es.tbl_register w₁ in
      let a₂ : App = record a { subs_handle = handle } in
      let (loaded, w₃) = es.tbl_load handle w₂ in
      let (found, table, w₄) = es.tbl_get_address handle w₃ in
      let a₄ : App = record a₂ { subs_table = table } in
      let (down, down_pipe, w₅) = es.create_pipe downlink_pipe w₄ in
      let a₅ : App = record a₄ { downlink_pipe = down_pipe } in
      let w₆ = after_streams down_pipe table w₅ in
      let (up, up_pipe, w₇) = es.create_pipe command_pipe w₆ in
      let (commands, w₈) = es.subscribe cmd_mid up_pipe w₇ in
      let (requests, w₉) = es.subscribe req_hk_mid up_pipe w₈ in
      let found_answer : Answer =
        (eq_int found es.cfe_success || eq_int found es.info_updated, found) in
      let six = good up ∷ good commands ∷ good requests ∷ [] in
      let four = found_answer ∷ good down ∷ six in
      step-Kept a a a (good registered) (first_refused (good made ∷ good loaded ∷ four)) w₁ _ refl (
        step-Kept a a₂ (pipe_error a₂) (good made) (first_refused (good loaded ∷ four)) w₂ _ refl (
          step-Kept a a₂ (pipe_error a₂) (good loaded) (first_refused four) w₃ _ refl (
            step-Kept a a₄ (pipe_error a₄) found_answer (first_refused (good down ∷ six)) w₄ _ refl
              (step-Kept a a₅ (pipe_error a₅) (good down) (first_refused six) w₅ _ refl (
                subscribe_streams-Kept a a₅ (first_refused six) w₅ _ (λ n.
                  let a₇ : App = record (pipe_errors env es n a₅) { cmd_pipe = up_pipe } in
                  step-Kept a a₇ (pipe_error a₇) (good up)
                    (first_refused (good commands ∷ good requests ∷ [])) w₇ _ refl
                    (step-Kept a a₇ (send (event Eid.sub_cmd_err error) a₇) (good commands)
                      (first_refused (good requests ∷ [])) w₈ _ refl
                      (last-Kept a a₇ (send (event Eid.sub_req_hk_err error) a₇) (good requests) w₉
                        refl refl))))))))

  start-IsReady :
      (a : App) (w : W)
      → a.run_status ≡ app_run
      → IsReady env (start_libraries env es (initial env es a) w).1
  unfolding start_libraries initial setup_handles reset_counters
  start-IsReady a w e = record {
    runs = ground arith;
    disabled = ground arith;
    command_count = ground arith;
    command_errors = ground arith;
    device_count = ground arith;
    device_errors = ground arith;
    spi = ground arith;
    power = ground arith;
    interrupt = ground arith;
    buffer = ground arith;
    waiting = ground arith;
  }

  outcome-Begun :
      (a : App) (w : W) (p : Progress W)
      → Kept (record a { run_status = app_run }) (first_refused (answers w)) p
      → Begun a w (outcome p (λ a₁ w₁. start_libraries env es (initial env es a₁) w₁))
  outcome-Begun a w p (stopped status a' w' e q) = refused status a' w' e q
  outcome-Begun a w p (kept a' w' e q) =
      ready _ _ _ e (start-IsReady a' w' (ap (λ b. b.run_status) q))

  -- The start-up returns the status of the first of its eight calls that is refused, each by its
  -- status, and has then changed nothing but the run status, the handles and the table that cFE
  -- gave out and what was sent; or none is refused and it comes to its end, whatever the single
  -- subscriptions of the table, the TM libraries and its last event answer, with the run status
  -- set to go on, the device disabled, its handles closed on the configured pins, all counters
  -- zero and an empty receive buffer of 1024 zeros.
  pub app_init-Begun : (a : App) (w : W) → Begun a w (app_init env es a w)
  unfolding app_init
  app_init-Begun a w = outcome-Begun a w _ (register-Kept (record a { run_status = app_run }) w)
