-- ===== src/Cli/Tokens.antt =====
-- How `main` and `get_command` in cli/radio_cli.c take a line apart.
pub mod Line
pub mod Rows
pub mod Names
use tryspace_comp_radio.Base.{
  ℕ, zero, suc, ◌+◌, ◌*◌, Bool, ◌||◌, Option, none, some, List, [], ◌∷◌, ◌++◌, ◌==◌, if◌then◌else◌,
  memcpy, drop,
}
use tryspace_comp_radio.Cli.Text.{codes, cstr, strncpy, eq_bytes, to_lower}

-- The values CMD_UNKNOWN to CMD_POWER_OFF.
pub data Command : Type 0 where
  unknown help exit noop hk cfg send receive power_on power_off : Command

-- MAX_INPUT_BUF, MAX_INPUT_TOKENS and MAX_INPUT_TOKEN_SIZE
abbrev pub max_input_buf : ℕ
max_input_buf = 512

abbrev pub max_input_tokens : ℕ
max_input_tokens = 64

abbrev pub max_input_token_size : ℕ
max_input_token_size = 50

-- get_command. `last` is what the last byte of `lcmd` holds, which nothing writes.
unfoldable pub get_command : ℕ → List ℕ → Command
unfolding to_lower
get_command last str =
    let lcmd = to_lower (cstr (strncpy max_input_token_size str ++ last ∷ [])) in
    if eq_bytes lcmd (codes "help")
    then help
    else if eq_bytes lcmd (codes "exit")
    then exit
    else if eq_bytes lcmd (codes "noop")
    then noop
    else if eq_bytes lcmd (codes "n")
    then noop
    else if eq_bytes lcmd (codes "hk")
    then hk
    else if eq_bytes lcmd (codes "h")
    then hk
    else if eq_bytes lcmd (codes "cfg")
    then cfg
    else if eq_bytes lcmd (codes "c")
    then cfg
    else if eq_bytes lcmd (codes "send")
    then send
    else if eq_bytes lcmd (codes "s")
    then send
    else if eq_bytes lcmd (codes "receive")
    then receive
    else if eq_bytes lcmd (codes "r")
    then receive
    else if eq_bytes lcmd (codes "power_on")
    then power_on
    else if eq_bytes lcmd (codes "pon")
    then power_on
    else if eq_bytes lcmd (codes "power_off")
    then power_off
    else if eq_bytes lcmd (codes "poff")
    then power_off
    else unknown

-- The delimiters " \t\n".
abbrev pub is_delimiter : ℕ → Bool
is_delimiter c = c == 32 || c == 9 || c == 10

abbrev pub skip_delimiters : List ℕ → List ℕ
skip_delimiters [] = []
skip_delimiters (c ∷ s) = if is_delimiter c then skip_delimiters s else c ∷ s

-- A token, and what stands behind the delimiter that ends it.
abbrev pub cut_token : List ℕ → List ℕ × List ℕ
cut_token [] = ([], [])
cut_token (c ∷ s) =
    let (token, rest) = cut_token s in if is_delimiter c then ([], s) else (c ∷ token, rest)

-- `strtok`: the next token of the string, and the string that the next call goes on with.
abbrev pub cut_first : List ℕ → Option (List ℕ × List ℕ)
cut_first [] = none
cut_first (c ∷ s) = some (cut_token (c ∷ s))

unfoldable pub strtok : List ℕ → Option (List ℕ × List ℕ)
strtok s = cut_first (skip_delimiters s)

-- `input_tokens`: the rows of 50 bytes lie one behind the other.
unfoldable pub put_token : ℕ → List ℕ → List ℕ → List ℕ
put_token i token memory =
    memcpy memory (max_input_token_size * i) (strncpy max_input_token_size token)

-- The string that starts in a row, which runs on into the next rows where no NUL ends it.
unfoldable pub token : ℕ → List ℕ → List ℕ
token i memory = cstr (drop (max_input_token_size * i) memory)

-- The turns of the loop behind the first token. `left` is the number of rows that are free.
unfoldable pub arguments : ℕ → ℕ → List ℕ → List ℕ → ℕ × List ℕ
unfolding put_token
arguments zero num s memory = (num, memory)
arguments (suc left) num s memory = elim (strtok s) [
  | none ↦ (num, memory)
  | some (t, rest) ↦ arguments left (num + 1) rest (put_token num t memory)
]

-- The whole loop: the command, the number of its arguments and the rows, unless the line is empty.
unfoldable pub tokenize : ℕ → List ℕ → List ℕ → Option (Command × ℕ × List ℕ)
tokenize last line memory = elim (strtok (cstr line)) [
  | none ↦ none
  | some (t, rest) ↦
      let (num, memory') = arguments max_input_tokens 0 rest memory in
      some (get_command last t, num, memory')
]
