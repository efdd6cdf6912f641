-- ===== src/App/State.antt =====
-- The application's data (src/radio_app.h, src/radio_msg.h) and the identifiers of its commands
-- and events (src/radio_events.h, platform_inc/radio_msgids.h).
use tryspace_comp_radio.Base.{ℕ, Option, none, some, List, [], ◌∷◌, ◌++◌, inc8}
use tryspace_comp_radio.Hardware.{Spi, Gpio}
use tryspace_comp_radio.Device.{DeviceHk}
use tryspace_comp_radio.Env.{FrameInfo}

-- RADIO_Hk_tlm_t without its header. The counts are `uint8`.
pub record Hk : Type 0 where
  pub command_error_count : ℕ
  pub command_count : ℕ
  pub device_error_count : ℕ
  pub device_count : ℕ
  pub device_enabled : ℕ
  pub device_hk : DeviceHk

-- CFE_ES_RunStatus_APP_RUN and CFE_ES_RunStatus_APP_ERROR
pub data RunStatus : Type 0 where
  app_run app_error : RunStatus

pub data EventType : Type 0 where
  information error : EventType

-- What the application hands to cFE, in the order of its calls: an event by its id and type, the
-- housekeeping packet, or a space packet put on the software bus.
pub data Output : Type 0 where
  event : ℕ → EventType → Output
  hk_packet : Hk → Output
  space_packet : List ℕ → Output

-- RADIO_Sub_t of platform_inc/radio_sub_tbl.h. The quality of service is passed on as it is.
pub record Subscription : Type 0 where
  pub stream : ℕ
  pub flags : ℕ
  pub buf_limit : ℕ

-- RADIO_AppData_t and the globals of radio_app.c, with what was sent. The message pointer is an
-- argument of the handlers.
pub record App : Type 0 where
  pub hk : Hk
  pub cmd_pipe : ℕ
  pub run_status : RunStatus
  pub spi : Spi
  pub power_gpio : Gpio
  pub interrupt_gpio : Gpio
  pub receive_buffer : List ℕ
  pub receive_buff_length : ℕ
  -- The globals RADIO_SubsTblHandle, RADIO_SubsTblPtr, RADIO_DownlinkPipe, `radio_frame_info` and
  -- `static_cadu_buffer`.
  pub subs_handle : ℕ
  pub subs_table : Option (List Subscription)
  pub downlink_pipe : ℕ
  pub frame_info : FrameInfo
  pub cadu_buffer : List ℕ
  pub out : List Output

abbrev pub device_disabled : ℕ
device_disabled = 0

abbrev pub device_enabled : ℕ
device_enabled = 1

abbrev pub noop_cc : ℕ
noop_cc = 0

abbrev pub reset_counters_cc : ℕ
reset_counters_cc = 1

abbrev pub enable_cc : ℕ
enable_cc = 2

abbrev pub disable_cc : ℕ
disable_cc = 3

abbrev pub config_cc : ℕ
config_cc = 4

abbrev pub service_cc : ℕ
service_cc = 5

abbrev pub req_hk_tlm : ℕ
req_hk_tlm = 0

abbrev pub cmd_mid : ℕ
cmd_mid = 0x18D2

abbrev pub req_hk_mid : ℕ
req_hk_mid = 0x18D3

-- CFE_EVS_SendEvent, or another call that hands something to cFE.
abbrev pub send : Output → App → App
send o a = record a { out = a.out ++ (o ∷ []) }

-- The `++` of the four counters.
abbrev pub inc_command_count : App → App
inc_command_count a = record a { hk = record (a.hk) { command_count = inc8 a.hk.command_count } }

abbrev pub inc_command_error : App → App
inc_command_error a = record a {
  hk = record (a.hk) { command_error_count = inc8 a.hk.command_error_count };
}

abbrev pub inc_device_count : App → App
inc_device_count a = record a { hk = record (a.hk) { device_count = inc8 a.hk.device_count } }

abbrev pub inc_device_error : App → App
inc_device_error a = record a {
  hk = record (a.hk) { device_error_count = inc8 a.hk.device_error_count };
}

-- What a pointer's target holds after a call that may have written it.
abbrev pub target {ℓ} : {A : Type ℓ} → Option A → A → A
target none old = old
target (some new) old = new
