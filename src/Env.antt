-- ===== src/Env.antt =====
-- What the application in src/ calls and the repository does not hold: the core Flight System
-- (cFE), CryptoLib, and the TM SDLP and TM SYNC libraries, over a state `W` of the world outside.
use tryspace_comp_radio.Base.{ℕ, Bool, Option, List, ℤ}
use tryspace_comp_radio.Hardware.{Hardware, DeviceConfig}

-- A message from the command pipe, by what the cFE accessors read from it: CFE_MSG_GetMsgId,
-- CFE_MSG_GetFcnCode, CFE_MSG_GetSize; and the payload of a configuration command.
pub record Message : Type 0 where
  pub msg_id : ℕ
  pub fcn_code : ℕ
  pub size : ℕ
  pub cfg_mode : ℕ
  pub cfg_rx_speed : ℕ
  pub cfg_rx_wavelength : ℕ
  pub cfg_tx_speed : ℕ
  pub cfg_tx_wavelength : ℕ

pub record Cfe (W : Type 0) : Type 0 where
  -- `sizeof(RADIO_NoArgs_cmd_t)` and `sizeof(RADIO_Config_cmd_t)`, which hold a cFE header.
  pub no_args_cmd_size : ℕ
  pub config_cmd_size : ℕ
  -- CFE_SB_ReceiveBuffer on the downlink pipe with CFE_SB_POLL: a packet, or none left.
  pub poll_downlink : W → Option (List ℕ) × W
  -- CFE_MSG_GetSize of a packet.
  pub packet_size : List ℕ → ℕ

pub record Crypto (W : Type 0) : Type 0 where
  pub crypto_success : ℤ
  pub managed_parameters_not_found : ℤ
  -- Crypto_TC_ProcessSecurity on one frame: its status, and the `tc_pdu_len` bytes of `tc_pdu`.
  pub process_security : List ℕ → W → ℤ × List ℕ × W
  -- sa_get_operational_sa_from_gvcid for the channel: whether there is a security association.
  pub has_association : W → Bool × W
  -- Crypto_TM_ApplySecurity on the frame: its status, and the frame as it leaves it.
  pub apply_security : List ℕ → W → ℤ × List ℕ × W

-- The fields of `TM_SDLP_FrameInfo_t` that the application reads.
pub record FrameInfo : Type 0 where
  pub is_ready : Bool
  pub free_octets : ℕ
  pub frame : List ℕ

pub record TmLib (W : Type 0) : Type 0 where
  pub sdlp_success : ℤ
  -- TM_SYNC_ASM_SIZE
  pub asm_size : ℕ
  pub init_channel : FrameInfo → W → ℤ × FrameInfo × W
  pub start_frame : FrameInfo → W → ℤ × FrameInfo × W
  pub add_packet : FrameInfo → List ℕ → W → ℤ × FrameInfo × W
  pub add_idle_packet : FrameInfo → W → FrameInfo × W
  pub complete_frame : FrameInfo → W → ℤ × FrameInfo × W
  -- TM_SYNC_Synchronize on the CADU buffer: its status, and the buffer as it leaves it.
  pub synchronize : List ℕ → W → ℤ × List ℕ × W

pub record Env (W : Type 0) : Type 0 where
  pub cfg : DeviceConfig
  pub hw : Hardware W
  pub cfe : Cfe W
  pub crypto : Crypto W
  pub tm : TmLib W
