-- ===== src/Cli/Text.antt =====
-- The C strings of cli/radio_cli.c, as lists of bytes, with what the code uses of the C library:
-- strings end at a NUL or, here, at the end of their array.
use Prim.Native.Char.{code}
use Prim.Native.String.{String}
use tryspace_comp_radio.Base.{
  ℕ, zero, suc, ◌+◌, ◌-◌, ◌*◌, ◌%◌, Bool, true, false, ◌&&◌, ◌||◌, List, [], ◌∷◌, ℤ, pos, negsuc,
  leb, ◌==◌, if◌then◌else◌, map,
}

-- The bytes of an ASCII literal.
abbrev pub codes : String → List ℕ
codes String.[] = []
codes (String.◌∷◌ c s) = code c ∷ codes s

-- The string that starts an array.
abbrev pub cstr : List ℕ → List ℕ
cstr [] = []
cstr (c ∷ cs) = if c == 0 then [] else c ∷ cstr cs

-- The `n` bytes that `strncpy` writes: no NUL behind a string of `n` bytes or more.
abbrev pub strncpy : ℕ → List ℕ → List ℕ
strncpy zero s = []
strncpy (suc n) [] = 0 ∷ strncpy n []
strncpy (suc n) (c ∷ s) = c ∷ strncpy n s

-- `strcmp(a, b) == 0`
abbrev pub eq_bytes : List ℕ → List ℕ → Bool
eq_bytes [] [] = true
eq_bytes [] (d ∷ b) = false
eq_bytes (c ∷ a) [] = false
eq_bytes (c ∷ a) (d ∷ b) = c == d && eq_bytes a b

-- `tolower` in the C locale, and the loop of `to_lower` over the string.
abbrev pub lower : ℕ → ℕ
lower c = if leb b'A' c && leb c b'Z' then c + 32 else c

unfoldable pub to_lower : List ℕ → List ℕ
to_lower s = map lower s

-- `isspace` in the C locale.
abbrev pub is_space : ℕ → Bool
is_space c = c == 32 || leb 9 c && leb c 13

abbrev pub is_digit : ℕ → Bool
is_digit c = leb b'0' c && leb c b'9'

abbrev pub skip_space : List ℕ → List ℕ
skip_space [] = []
skip_space (c ∷ s) = if is_space c then skip_space s else c ∷ s

-- The digits at the start, behind a number read so far.
abbrev pub number : ℕ → List ℕ → ℕ
number acc [] = acc
number acc (c ∷ s) = let rest = number (acc * 10 + (c - b'0')) s in if is_digit c then rest else acc

abbrev pub negated : ℕ → ℤ
negated zero = pos 0
negated (suc n) = negsuc n

-- `atoi`, for numbers in the range of `int`; beyond it C leaves the result open.
unfoldable pub atoi : List ℕ → ℤ
atoi s = elim (skip_space s) [
  | [] ↦ pos 0
  | c ∷ rest ↦
      if c == b'-'
      then negated (number 0 rest)
      else if c == b'+'
      then pos (number 0 rest)
      else pos (number 0 (c ∷ rest))
]

-- `(uint8_t)` and `(uint16_t)` of an `int`.
abbrev pub to_uint8 : ℤ → ℕ
to_uint8 (pos n) = n % 256
to_uint8 (negsuc n) = 255 - n % 256

abbrev pub to_uint16 : ℤ → ℕ
to_uint16 (pos n) = n % 65536
to_uint16 (negsuc n) = 65535 - n % 65536
