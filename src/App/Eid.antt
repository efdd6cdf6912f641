-- ===== src/App/Eid.antt =====
-- The event identifiers of src/radio_events.h.
use tryspace_comp_radio.Base.{ℕ}

abbrev pub startup_inf : ℕ
startup_inf = 1

abbrev pub len_err : ℕ
len_err = 2

abbrev pub pipe_err : ℕ
pipe_err = 3

abbrev pub sub_cmd_err : ℕ
sub_cmd_err = 4

abbrev pub sub_req_hk_err : ℕ
sub_req_hk_err = 5

abbrev pub process_cmd_err : ℕ
process_cmd_err = 6

abbrev pub cmd_err : ℕ
cmd_err = 10

abbrev pub cmd_noop_inf : ℕ
cmd_noop_inf = 11

abbrev pub cmd_reset_inf : ℕ
cmd_reset_inf = 12

abbrev pub enable_inf : ℕ
enable_inf = 13

abbrev pub enable_err : ℕ
enable_err = 14

abbrev pub disable_inf : ℕ
disable_inf = 15

abbrev pub disable_err : ℕ
disable_err = 16

abbrev pub cmd_config_en_err : ℕ
cmd_config_en_err = 20

abbrev pub cmd_config_val_err : ℕ
cmd_config_val_err = 21

abbrev pub cmd_config_inf : ℕ
cmd_config_inf = 22

abbrev pub cmd_config_dev_err : ℕ
cmd_config_dev_err = 23

abbrev pub device_tlm_err : ℕ
device_tlm_err = 40

abbrev pub req_hk_err : ℕ
req_hk_err = 41

abbrev pub req_data_err : ℕ
req_data_err = 42
