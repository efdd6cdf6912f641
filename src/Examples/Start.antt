-- ===== src/Examples/Start.antt =====
-- The theorems on RADIO_AppInit and RADIO_AppMain in src/radio_app.c in a small world.
use tryspace_comp_radio.Base.{
  ℕ, ◌≡◌, refl, true, false, Bool, none, some, [], arith, pos, length-replicate, ltb, ◌==◌,
  if◌then◌else◌, take,
}
use tryspace_comp_radio.App.State.{RunStatus, app_run, app_error}
use tryspace_comp_radio.App.Executive.{Executive}
use tryspace_comp_radio.App.Start.{app_init, subscribe_all}
use tryspace_comp_radio.App.Start.Table.{radio_subs, pipe_errors, subscribe_all-radio_subs}
use tryspace_comp_radio.App.Start.Ready.{Begun, app_init-Begun}
use tryspace_comp_radio.App.Main.{app_main}
use tryspace_comp_radio.App.Main.Runs.{Left, app_main-Left}
use tryspace_comp_radio.Examples.World.{World, env, app_with}

abbrev world : World
world = record { replies = []; written = []; downlink = [] }

abbrev runs_on : RunStatus → Bool
runs_on app_run = true
runs_on app_error = false

-- Every service answers with success, and no command comes.
abbrev es : Executive World
es = record {
  cfe_success = pos 0;
  info_updated = pos 1;
  tm_sync_success = pos 0;
  evs_register = λ w. (pos 0, w);
  tbl_register = λ w. (pos 0, 3, w);
  tbl_load = λ handle w. (pos 0, w);
  tbl_get_address = λ handle w. (pos 1, some [], w);
  create_pipe = λ pipe w. (pos 0, 4, w);
  is_valid_msg_id = λ id. true;
  subscribe_ex = λ sub pipe w. (pos 0, w);
  subscribe = λ id pipe w. (pos 0, w);
  tm_sync_init = λ w. (pos 0, w);
  startup_sent = λ w. (pos 0, w);
  run_loop = λ status w. (runs_on status, status, w);
  receive_command = λ pipe w. (none, w);
}

app_init-Begun_example : Begun env es (app_with 0) world (app_init env es (app_with 0) world)
app_init-Begun_example = app_init-Begun env es (app_with 0) world

app_main-Left_example : Left env es 1 (app_main env es 1 2 (app_with 0) world)
app_main-Left_example =
    app_main-Left env es 1 2 (app_with 0) world
      (record { flag = omega arith; sized = length-replicate {A = ℕ} 1024 0; below = omega arith })

-- Message ids are the numbers above zero, and a second subscription fails.
abbrev picky : Executive World
picky = record es {
  is_valid_msg_id = λ id. ltb 0 id;
  subscribe_ex = λ sub pipe w. (if sub.stream == 0x0800 then pos 9 else pos 0, w);
}

subscribe_all-radio_subs_example :
    subscribe_all env picky (take 4 (radio_subs 0x0800 0x0801 0)) (app_with 0) world
    ≡ (pipe_errors env picky 1 (app_with 0), world)
subscribe_all-radio_subs_example =
    subscribe_all-radio_subs env picky 0x0800 0x0801 0 refl refl refl refl 4 (app_with 0) world
      (omega arith)
