-- ===== src/Examples/Cli.antt =====
-- The theorems on cli/radio_cli.c at lines that are typed.
use tryspace_comp_radio.Base.{
  ℕ, ◌+◌, ◌≡◌, refl, false, some, List, [], ◌∷◌, ◌++◌, arith, length, replicate, length-replicate,
}
use tryspace_comp_radio.Hardware.{closed, opened, input, output}
use tryspace_comp_radio.Device.{RadioConfig, set_cfg_cmd, send_cmd}
use tryspace_comp_radio.Device.Commands.{transfer}
use tryspace_comp_radio.Sim.State.{zero_hk, zero_config}
use tryspace_comp_radio.Cli.Text.{codes, to_lower}
use tryspace_comp_radio.Cli.Tokens.{Command, get_command, tokenize}
use tryspace_comp_radio.Cli.Tokens.Rows.{read_tokens}
use tryspace_comp_radio.Cli.Tokens.Line.{Word, IsWord, IsLine, tokenize_round_trip}
use tryspace_comp_radio.Cli.Execute.{Cli, Report, say, process_command, report_interrupt}
use tryspace_comp_radio.Cli.Refusal.{process_command-refused}
use tryspace_comp_radio.Cli.Main.{handle_line, run_main}
use tryspace_comp_radio.Cli.Ends.{Ended, run_main-Ended}
use tryspace_comp_radio.Cli.Session.{after, settings_list, handle_line-cfg, handle_line-send}
use tryspace_comp_radio.Examples.World.{World, cfg, hw}

abbrev world : World
world = record { replies = []; written = []; downlink = [] }

abbrev cli : Cli
cli = record {
  spi = record { bus = 1; cs = 0; is_open = opened };
  power_gpio = record { pin = 10; direction = output; is_open = opened };
  interrupt_gpio = record { pin = 11; direction = input; is_open = closed };
  hk = zero_hk;
  config = zero_config;
  printed = [];
}

abbrev rows : List ℕ
rows = replicate 3200 0

length-rows : length rows ≡ 3200
length-rows = length-replicate {A = ℕ} 3200 0

-- "S hi" and a newline.
abbrev send_word : Word
send_word = record { gap = []; word = codes "S"; mark = 32 }

abbrev hi_word : Word
hi_word = record { gap = 32 ∷ []; word = codes "hi"; mark = 10 }

send-IsWord : IsWord send_word
send-IsWord = record {
  gap = tt;
  first = 83;
  others = [];
  starts = refl;
  plain = (refl, tt);
  mark = refl;
}

hi-IsWord : IsWord hi_word
hi-IsWord = record {
  gap = (refl, tt);
  first = 104;
  others = codes "i";
  starts = refl;
  plain = (refl, (refl, tt));
  mark = refl;
}

send-IsLine : IsLine send_word (hi_word ∷ []) []
send-IsLine = record {
  command = send-IsWord;
  arguments = (hi-IsWord, tt);
  end = tt;
  text = (refl, (refl, (refl, (refl, (refl, (refl, tt))))));
  short = (record { text = (refl, (refl, tt)); short = omega arith }, tt);
  few = omega arith;
}

tokenize_round_trip_example :
    (memory' : List ℕ) × (tokenize 7 (codes "S  hi" ++ 10 ∷ []) rows
      ≡ some (Command.send, 1, memory'))
    × (read_tokens 1 0 memory' ≡ codes "hi" ∷ [])
unfolding get_command to_lower
tokenize_round_trip_example =
    tokenize_round_trip 7 send_word (hi_word ∷ []) [] rows send-IsLine length-rows

handle_line-send_example :
    (memory' : List ℕ) × (handle_line cfg hw 7 (codes "S  hi" ++ 10 ∷ []) rows cli world ≡ (
      let (ends, c', w') =
        after cfg hw 7 Command.send zero_config cli
          (transfer cfg hw cli.spi send_cmd (codes "hi") world) in
      (ends, memory', c', w')))
unfolding get_command to_lower
handle_line-send_example =
    handle_line-send cfg hw 7 send_word hi_word [] rows cli world send-IsLine length-rows refl

-- "c 3 1 2 10 255"
abbrev number_word : List ℕ → Word
number_word digits = record { gap = []; word = digits; mark = 32 }

abbrev digit_word : ℕ → Word
digit_word d = number_word ((48 + d) ∷ [])

abbrev cfg_word : Word
cfg_word = number_word (codes "c")

abbrev last_word : Word
last_word = record { gap = []; word = codes "255"; mark = 10 }

abbrev numbers : List Word
numbers = digit_word 3 ∷ digit_word 1 ∷ digit_word 2 ∷ number_word (codes "10") ∷ last_word ∷ []

abbrev wanted : RadioConfig
wanted = record {
  mode = 3;
  rx_speed_setting = 1;
  rx_wavelength_setting = 2;
  tx_speed_setting = 10;
  tx_wavelength_setting = 255;
}

cfg-IsLine : IsLine cfg_word numbers []
cfg-IsLine = record {
  command = record {
    gap = tt;
    first = 99;
    others = [];
    starts = refl;
    plain = (refl, tt);
    mark = refl;
  };
  arguments = (
    record { gap = tt; first = 51; others = []; starts = refl; plain = (refl, tt); mark = refl },
    (
      record { gap = tt; first = 49; others = []; starts = refl; plain = (refl, tt); mark = refl },
      (
        record {
          gap = tt;
          first = 50;
          others = [];
          starts = refl;
          plain = (refl, tt);
          mark = refl;
        },
        (
          record {
            gap = tt;
            first = 49;
            others = codes "0";
            starts = refl;
            plain = (refl, (refl, tt));
            mark = refl;
          },
          (
            record {
              gap = tt;
              first = 50;
              others = codes "55";
              starts = refl;
              plain = (refl, (refl, (refl, tt)));
              mark = refl;
            },
            tt,
          ),
        ),
      ),
    ),
  );
  end = tt;
  text = (
    refl,
    (
      refl,
      (
        refl,
        (
          refl,
          (
            refl,
            (refl, (refl, (refl, (refl, (refl, (refl, (refl, (refl, (refl, (refl, tt)))))))))),
          ),
        ),
      ),
    ),
  );
  short = (
    record { text = (refl, tt); short = omega arith },
    (
      record { text = (refl, tt); short = omega arith },
      (
        record { text = (refl, tt); short = omega arith },
        (
          record { text = (refl, (refl, tt)); short = omega arith },
          (record { text = (refl, (refl, (refl, tt))); short = omega arith }, tt),
        ),
      ),
    ),
  );
  few = omega arith;
}

handle_line-cfg_example :
    (memory' : List ℕ) × (handle_line cfg hw 7 (codes "c 3 1 2 10 255" ++ 10 ∷ []) rows cli world
      ≡ (let (ends, c', w') =
            after cfg hw 7 Command.cfg wanted cli
              (transfer cfg hw cli.spi set_cfg_cmd (settings_list wanted) world) in
          (ends, memory', c', w')))
unfolding get_command to_lower
handle_line-cfg_example =
    handle_line-cfg cfg hw 7 cfg_word numbers [] rows wanted cli world cfg-IsLine length-rows refl
      refl
      (record {
        mode = omega arith;
        rx_speed = omega arith;
        rx_wavelength = omega arith;
        tx_speed = omega arith;
        tx_wavelength = omega arith;
      })

process_command-refused_example : process_command cfg hw Command.cfg 4 rows cli world ≡ (
    let (c', w') = report_interrupt cfg hw (say Report.invalid_format cli) world in (false, c', w'))
process_command-refused_example = process_command-refused cfg hw Command.cfg 4 rows cli world refl

run_main-Ended_example : Ended (run_main cfg hw 7 6 (codes "noop" ++ 10 ∷ []) rows cli world)
run_main-Ended_example =
    run_main-Ended cfg hw 7 6 (codes "noop" ++ 10 ∷ []) rows cli world (omega arith)
