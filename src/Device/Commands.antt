-- ===== src/Device/Commands.antt =====
-- What the command functions of shared/radio_device.c write over SPI, and what they refuse.
use tryspace_comp_radio.Base.{
  ℕ, ◌+◌, ◌≤◌, ◌<◌, ◌≡◌, refl, Option, none, some, List, [], ◌∷◌, arith, pos, eq_int, length,
  lt→ltb, le→ltb,
}
use tryspace_comp_radio.Hardware.{Hardware, DeviceConfig, Spi}
use tryspace_comp_radio.Device.{
  Done, os_error, done_if, RadioConfig, set_cfg_cmd, send_cmd, command_device, set_configuration,
  send_data,
}
use tryspace_comp_radio.Device.Packet.{command_packet, build_packet_lem}

module _ {W : Type 0} (cfg : DeviceConfig) (hw : Hardware W) where
  -- One SPI write of the command's packet, which must be taken whole.
  abbrev pub transfer : Spi → ℕ → List ℕ → W → Done × W
  transfer spi cmd payload w =
      let (status, w') = hw.spi_write spi (command_packet cmd payload) w in
      (done_if (eq_int status (pos (5 + length payload))), w')

  -- A payload of up to 2043 bytes goes out in one packet of the command format, and the function
  -- succeeds exactly if the library takes all of it.
  pub command_device_lem :
      (spi : Spi) (cmd : ℕ) (payload : List ℕ) (w : W)
      → length payload ≤ 2043
      → command_device cfg hw (some spi) cmd (length payload) (some payload) w
        ≡ transfer spi cmd payload w
  unfolding command_device
  command_device_lem spi cmd payload w h =
      rw
        (
          le→ltb 2043 (length payload) h,
          build_packet_lem (hw.stack w) cmd payload (hw.length-stack w) h,
        )
        refl

  -- A payload of more than 2043 bytes is refused before anything is written.
  pub command_device-oversize :
      (spi : Option Spi) (cmd payload_len : ℕ) (payload : Option (List ℕ)) (w : W)
      → 2043 < payload_len
      → command_device cfg hw spi cmd payload_len payload w ≡ (os_error, w)
  unfolding command_device
  command_device-oversize none cmd payload_len payload w h = refl
  command_device-oversize (some spi) cmd payload_len payload w h =
      rw (lt→ltb 2043 payload_len h) refl

  -- The configuration goes out in one SPI write of a packet in the command format with its five
  -- settings, in the order of the structure, and the function succeeds exactly if the whole
  -- packet is taken.
  pub set_configuration_lem :
      (spi : Spi) (c : RadioConfig) (w : W)
      → set_configuration cfg hw (some spi) (some c) w
        ≡ transfer spi set_cfg_cmd
            (c.mode ∷ c.rx_speed_setting ∷ c.rx_wavelength_setting ∷ c.tx_speed_setting
              ∷ c.tx_wavelength_setting ∷ [])
            w
  unfolding set_configuration
  set_configuration_lem spi c w = command_device_lem spi set_cfg_cmd _ w (omega arith)

  -- Data of up to 2043 bytes goes out in one SPI write of a packet in the command format, and the
  -- function succeeds exactly if the whole packet is taken.
  pub send_data_lem :
      (spi : Spi) (bytes : List ℕ) (w : W)
      → length bytes ≤ 2043
      → send_data cfg hw (some spi) (some bytes) (length bytes) w ≡ transfer spi send_cmd bytes w
  unfolding send_data
  send_data_lem spi bytes w h = command_device_lem spi send_cmd bytes w h
