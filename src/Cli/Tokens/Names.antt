-- ===== src/Cli/Tokens/Names.antt =====
-- `get_command` in cli/radio_cli.c against the table of its words.
use tryspace_comp_radio.Base.{ℕ, ◌≡◌, refl, List, [], ◌∷◌, if◌then◌else◌}
use tryspace_comp_radio.Cli.Text.{codes, eq_bytes, to_lower}
use tryspace_comp_radio.Cli.Tokens.{Command, get_command}
use tryspace_comp_radio.Cli.Tokens.Rows.{IsShort, cstr-strncpy}

-- The words of print_help, each command with its short form.
abbrev pub names : List (List ℕ × Command)
names =
    (codes "help", Command.help)
    ∷ (codes "exit", Command.exit)
    ∷ (codes "noop", Command.noop)
    ∷ (codes "n", Command.noop)
    ∷ (codes "hk", Command.hk)
    ∷ (codes "h", Command.hk)
    ∷ (codes "cfg", Command.cfg)
    ∷ (codes "c", Command.cfg)
    ∷ (codes "send", Command.send)
    ∷ (codes "s", Command.send)
    ∷ (codes "receive", Command.receive)
    ∷ (codes "r", Command.receive)
    ∷ (codes "power_on", Command.power_on)
    ∷ (codes "pon", Command.power_on)
    ∷ (codes "power_off", Command.power_off)
    ∷ (codes "poff", Command.power_off)
    ∷ []

abbrev pub find_command : List ℕ → List (List ℕ × Command) → Command
find_command word [] = Command.unknown
find_command word ((name, cmd) ∷ entries) =
    let later = find_command word entries in if eq_bytes word name then cmd else later

-- A word of up to 49 bytes without a NUL is looked up, in lower case, in the table of the command
-- names and their short forms.
pub get_command-find_command :
    (last : ℕ) (word : List ℕ)
    → IsShort word
    → get_command last word ≡ find_command (to_lower word) names
unfolding get_command
get_command-find_command last word h =
    rw (cstr-strncpy 50 word (last ∷ []) (h.text) (h.short), get_command) refl
