-- ===== src/Cli/Session.antt =====
-- Whole lines of cli/radio_cli.c, from the text that is typed to what goes over SPI.
use tryspace_comp_radio.Base.{
  ℕ, ◌*◌, ◌%◌, ◌<◌, ◌≡◌, refl, ap, sym, ◌∙◌, false, some, List, [], ◌∷◌, ◌++◌, arith, length,
  get_or, take, take_ge, Bool, map,
}
use tryspace_comp_radio.Hardware.{Hardware, DeviceConfig}
use tryspace_comp_radio.Device.{
  RadioConfig, set_cfg_cmd, send_cmd, send_data, command_device, build_packet, copy_payload, Done,
}
use tryspace_comp_radio.Device.Commands.{transfer, set_configuration_lem, send_data_lem}
use tryspace_comp_radio.Cli.Text.{atoi, to_uint8, cstr, strncpy}
use tryspace_comp_radio.Cli.Numerals.{decimal, atoi-decimal}
use tryspace_comp_radio.Cli.Tokens.{
  Command, get_command, token, max_input_tokens, max_input_token_size,
}
use tryspace_comp_radio.Cli.Tokens.Rows.{IsShort, read_tokens, cstr-strncpy, take-strncpy}
use tryspace_comp_radio.Cli.Tokens.Line.{
  Word, IsLine, line_of, words_of, length-words_of, tokenize_round_trip,
}
use tryspace_comp_radio.Cli.Execute.{
  Cli, say_status, settings_of, send_buffer, execute_cfg, execute_send, execute, report_interrupt,
  process_command,
}
use tryspace_comp_radio.Cli.Main.{handle_line}

-- The settings fit their fields of the packet.
pub record IsConfig (s : RadioConfig) : Type 0 where
  pub mode : s.mode < 256
  pub rx_speed : s.rx_speed_setting < 256
  pub rx_wavelength : s.rx_wavelength_setting < 256
  pub tx_speed : s.tx_speed_setting < 256
  pub tx_wavelength : s.tx_wavelength_setting < 256

abbrev pub settings_list : RadioConfig → List ℕ
settings_list s =
    s.mode ∷ s.rx_speed_setting ∷ s.rx_wavelength_setting ∷ s.tx_speed_setting
    ∷ s.tx_wavelength_setting ∷ []

to_uint8-decimal : (n : ℕ) → n < 256 → to_uint8 (atoi (decimal 3 n)) ≡ n
to_uint8-decimal n h = ap to_uint8 (atoi-decimal 2 n (omega arith)) ∙ omega arith

settings_from : List (List ℕ) → RadioConfig
settings_from ts = record {
  mode = to_uint8 (atoi (get_or ts 0 []));
  rx_speed_setting = to_uint8 (atoi (get_or ts 1 []));
  rx_wavelength_setting = to_uint8 (atoi (get_or ts 2 []));
  tx_speed_setting = to_uint8 (atoi (get_or ts 3 []));
  tx_wavelength_setting = to_uint8 (atoi (get_or ts 4 []));
}

settings_of-decimal :
    (s : RadioConfig) (memory : List ℕ)
    → IsConfig s
    → read_tokens 5 0 memory ≡ map (decimal 3) (settings_list s)
    → settings_of memory ≡ s
unfolding settings_of settings_from
settings_of-decimal s memory h e =
    ap settings_from e
    ∙ rw
        (
          to_uint8-decimal (s.mode) (h.mode),
          to_uint8-decimal (s.rx_speed_setting) (h.rx_speed),
          to_uint8-decimal (s.rx_wavelength_setting) (h.rx_wavelength),
          to_uint8-decimal (s.tx_speed_setting) (h.tx_speed),
          to_uint8-decimal (s.tx_wavelength_setting) (h.tx_wavelength),
        )
        refl

-- The bytes that a short word leaves in the array of CMD_SEND.
cstr-send_buffer :
    (word memory : List ℕ) → IsShort word → token 0 memory ≡ word → cstr (send_buffer memory) ≡ word
unfolding send_buffer
cstr-send_buffer word memory h e =
    ap (λ t. cstr (strncpy 1023 t ++ 0 ∷ [])) e
    ∙ cstr-strncpy 1023 word (0 ∷ []) (h.text) (omega (arith, h.short))

take-send_buffer :
    (word memory : List ℕ)
    → IsShort word
    → token 0 memory ≡ word
    → take (length word) (send_buffer memory) ≡ word
unfolding send_buffer
take-send_buffer word memory h e =
    ap (λ t. take (length word) (strncpy 1023 t ++ 0 ∷ [])) e
    ∙ take-strncpy 1023 word (0 ∷ []) (omega (arith, h.short))

module _ {W : Type 0} (cfg : DeviceConfig) (hw : Hardware W) (last : ℕ) where
  -- How a command ends that handed back `sent`.
  abbrev pub after : Command → RadioConfig → Cli → Done × W → Bool × Cli × W
  after cmd config c (status, v) =
      let (c', v') =
        report_interrupt cfg hw (say_status cmd status (record c { config = config })) v in
      (false, c', v')

  process_command-cfg :
      (s : RadioConfig) (memory : List ℕ) (c : Cli) (v : W)
      → settings_of memory ≡ s
      → process_command cfg hw Command.cfg 5 memory c v
        ≡ after Command.cfg s c (transfer cfg hw c.spi set_cfg_cmd (settings_list s) v)
  unfolding process_command execute execute_cfg
  process_command-cfg s memory c v e =
      rw (e, set_configuration_lem cfg hw c.spi s v, execute_cfg) refl

  -- What the driver sends is the part of the array that is asked for.
  send_data-take :
      (n : ℕ) (bytes word : List ℕ) (c : Cli) (v : W)
      → take n bytes ≡ word
      → length word ≡ n
      → send_data cfg hw (some c.spi) (some bytes) n v
        ≡ send_data cfg hw (some c.spi) (some word) n v
  unfolding send_data command_device build_packet copy_payload
  send_data-take n bytes word c v e l = rw (e, take_ge n word (omega (arith, l))) refl

  process_command-send :
      (word memory : List ℕ) (c : Cli) (v : W)
      → IsShort word
      → token 0 memory ≡ word
      → process_command cfg hw Command.send 1 memory c v
        ≡ after Command.send c.config c (transfer cfg hw c.spi send_cmd word v)
  unfolding process_command execute execute_send
  process_command-send word memory c v h e = ap (after Command.send c.config c) (
      ap (λ n. send_data cfg hw (some c.spi) (some (send_buffer memory)) n v) {y = length word}
        (ap (λ t. length t % 65536) (cstr-send_buffer word memory h e) ∙ omega (arith, h.short))
      ∙ send_data-take (length word) (send_buffer memory) word c v
          (take-send_buffer word memory h e) refl
      ∙ send_data_lem cfg hw c.spi word v (omega (arith, h.short)))

  -- A line that is taken apart is the command with the arguments in its rows.
  handle_line-words :
      (w : Word) (ws : List Word) (gap memory : List ℕ) (cmd : Command) (args : List (List ℕ))
      (c : Cli) (v : W)
      → IsLine w ws gap
      → length memory ≡ max_input_tokens * max_input_token_size
      → get_command last w.word ≡ cmd
      → words_of ws ≡ args
      → (memory' : List ℕ) × (handle_line cfg hw last (line_of (w ∷ ws) gap) memory c v ≡ (
          let (ends, c', v') = process_command cfg hw cmd (length args) memory' c v in
          (ends, memory', c', v')))
        × (read_tokens (length args) 0 memory' ≡ args)
  unfolding handle_line
  handle_line-words w ws gap memory cmd args c v h m e a =
      let (memory', taken, kept) = tokenize_round_trip last w ws gap memory h m in
      let n : length ws ≡ length args = sym (length-words_of ws) ∙ ap length a in
      (
        memory',
        rw (taken, handle_line) (rw (e, n) refl),
        ap (λ k. read_tokens k 0 memory') (sym n) ∙ kept ∙ a,
      )

  -- A line without a NUL whose command is the configuration, with the decimal numerals of five
  -- numbers below 256 as its arguments and a delimiter behind each word, sends one packet of the
  -- command format with exactly these settings, keeps them as the configuration, and reports by
  -- whether the packet is taken whole, before the interrupt is looked at.
  pub handle_line-cfg :
      (w : Word) (ws : List Word) (gap memory : List ℕ) (s : RadioConfig) (c : Cli) (v : W)
      → IsLine w ws gap
      → length memory ≡ max_input_tokens * max_input_token_size
      → get_command last w.word ≡ Command.cfg
      → words_of ws ≡ map (decimal 3) (settings_list s)
      → IsConfig s
      → (memory' : List ℕ) × (handle_line cfg hw last (line_of (w ∷ ws) gap) memory c v ≡ (
          let (ends, c', v') =
            after Command.cfg s c (transfer cfg hw c.spi set_cfg_cmd (settings_list s) v) in
          (ends, memory', c', v')))
  handle_line-cfg w ws gap memory s c v h m e a small =
      let (memory', handled, kept) =
        handle_line-words w ws gap memory Command.cfg (map (decimal 3) (settings_list s)) c v h m e
          a in
      (
        memory',
        handled
            ∙ ap (λ r. (r.0, memory', r.1, r.2))
                (process_command-cfg s memory' c v (settings_of-decimal s memory' small kept)),
      )

  -- A line without a NUL whose command is to send, with one word of 1 to 49 bytes as its argument
  -- and a delimiter behind each word, sends one packet of the command format with exactly that
  -- word, and reports by whether the packet is taken whole, before the interrupt is looked at.
  pub handle_line-send :
      (w x : Word) (gap memory : List ℕ) (c : Cli) (v : W)
      → IsLine w (x ∷ []) gap
      → length memory ≡ max_input_tokens * max_input_token_size
      → get_command last w.word ≡ Command.send
      → (memory' : List ℕ) × (handle_line cfg hw last (line_of (w ∷ x ∷ []) gap) memory c v ≡ (
          let (ends, c', v') =
            after Command.send c.config c (transfer cfg hw c.spi send_cmd x.word v) in
          (ends, memory', c', v')))
  handle_line-send w x gap memory c v h m e =
      let (memory', handled, kept) =
        handle_line-words w (x ∷ []) gap memory Command.send (x.word ∷ []) c v h m e refl in
      (
        memory',
        handled
            ∙ ap (λ r. (r.0, memory', r.1, r.2))
                (process_command-send x.word memory' c v (h.short.0)
                  (ap (λ ts. get_or ts 0 []) kept)),
      )
