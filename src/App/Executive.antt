-- ===== src/App/Executive.antt =====
-- What RADIO_AppInit and RADIO_AppMain in src/radio_app.c call and the repository does not hold: the
-- start-up and executive services of cFE, and the start of the TM SYNC library, over the world.
use tryspace_comp_radio.Base.{ℕ, Bool, Option, List, ℤ}
use tryspace_comp_radio.Env.{Message}
use tryspace_comp_radio.App.State.{RunStatus, Subscription}

-- CFE_SB_CreatePipe is called for two pipes.
pub data Pipe : Type 0 where
  downlink_pipe command_pipe : Pipe

pub record Executive (W : Type 0) : Type 0 where
  pub cfe_success : ℤ
  -- CFE_TBL_INFO_UPDATED
  pub info_updated : ℤ
  pub tm_sync_success : ℤ
  pub evs_register : W → ℤ × W
  -- CFE_TBL_Register and CFE_SB_CreatePipe, with what the handle that they are given is then.
  pub tbl_register : W → ℤ × ℕ × W
  pub tbl_load : ℕ → W → ℤ × W
  -- CFE_TBL_GetAddress: its status, and what the pointer is then: NULL or the table.
  pub tbl_get_address : ℕ → W → ℤ × Option (List Subscription) × W
  pub create_pipe : Pipe → W → ℤ × ℕ × W
  pub is_valid_msg_id : ℕ → Bool
  -- CFE_SB_SubscribeEx and CFE_SB_Subscribe, with the pipe behind.
  pub subscribe_ex : Subscription → ℕ → W → ℤ × W
  pub subscribe : ℕ → ℕ → W → ℤ × W
  pub tm_sync_init : W → ℤ × W
  -- The status of CFE_EVS_SendEvent for the event that ends the start-up.
  pub startup_sent : W → ℤ × W
  -- CFE_ES_RunLoop: whether to go on, and the run status as it leaves it.
  pub run_loop : RunStatus → W → Bool × RunStatus × W
  -- CFE_SB_ReceiveBuffer on a pipe with CFE_SB_PEND_FOREVER: `none` on an error.
  pub receive_command : ℕ → W → Option Message × W
