-- ===== src/Cli/Ends.antt =====
-- `main` in cli/radio_cli.c comes to its end with its input, and closes its devices there.
use tryspace_comp_radio.Base.{
  ℕ, zero, suc, ◌<◌, ◌≤◌, ◌≡◌, inl, inr, Bool, true, false, Option, none, some, List, [], ◌∷◌,
  arith, length, ◌==◌, if◌then◌else◌, Bool-cases,
}
use tryspace_comp_radio.Hardware.{Hardware, DeviceConfig, closed}
use tryspace_comp_radio.Device.{os_success, os_error, Done, done}
use tryspace_comp_radio.Cli.Execute.{Cli}
use tryspace_comp_radio.Cli.Main.{fgets, repl, shut, run_main}

-- A line takes a byte of an input that is not at its end.
length-fgets : (n : ℕ) (s : List ℕ) → length (fgets n s).1 ≤ length s
length-fgets zero s = omega arith
length-fgets (suc n) [] = omega arith
length-fgets (suc n) (c ∷ s) = elim (Bool-cases (c == 10)) [
  | inl line ↦ rw line (omega arith)
  | inr more ↦ rw more (omega (arith, length-fgets n s))
]

length-fgets-suc : (n c : ℕ) (s : List ℕ) → length (fgets (suc n) (c ∷ s)).1 ≤ length s
length-fgets-suc n c s = elim (Bool-cases (c == 10)) [
  | inl line ↦ rw line (omega arith)
  | inr more ↦ rw more (length-fgets n s)
]

-- The three devices are closed.
pub record IsShut (c : Cli) : Type 0 where
  pub spi : c.spi.is_open ≡ closed
  pub power : c.power_gpio.is_open ≡ closed
  pub interrupt : c.interrupt_gpio.is_open ≡ closed

-- The program came to its end, with its devices closed.
pub data Ended {W : Type 0} : Option (Done × Cli × W) → Type 0 where
  ended : (status : Done) (c : Cli) (w : W) → IsShut c → Ended (some (status, c, w))

module _ {W : Type 0} (cfg : DeviceConfig) (hw : Hardware W) (last : ℕ) where
  data Returns : Option (Cli × W) → Type 0 where
    returns : (r : Cli × W) → Returns (some r)

  either-Returns :
      (b : Bool) (x y : Option (Cli × W)) → Returns x → Returns y → Returns (if b then x else y)
  either-Returns true x y u v = u
  either-Returns false x y u v = v

  -- A turn for each byte of the input and one more is enough.
  repl-Returns :
      (turns : ℕ) (stdin memory : List ℕ) (c : Cli) (w : W)
      → length stdin < turns
      → Returns (repl cfg hw last turns stdin memory c w)
  unfolding repl
  repl-Returns zero stdin memory c w h = absurd (omega arith)
  repl-Returns (suc turns) [] memory c w h = returns (c, w)
  repl-Returns (suc turns) (b ∷ stdin) memory c w h =
      either-Returns _ _ _ (returns _)
        (repl-Returns turns _ _ _ _ (omega (arith, length-fgets-suc 510 b stdin)))

  shut-IsShut : (c : Cli) (w : W) → IsShut (shut cfg hw last c w).0
  unfolding shut
  shut-IsShut c w = record { spi = ground arith; power = ground arith; interrupt = ground arith }

  looped-Ended :
      (looped : Option (Cli × W))
      → Returns looped
      → Ended (elim looped [
        | none ↦ none
        | some (c₃, w₃) ↦ let (c', w') = shut cfg hw last c₃ w₃ in some (done, c', w')
      ])
  looped-Ended looped (returns (c, w)) = ended done _ _ (shut-IsShut c w)

  started-Ended :
      (status : Done) (c : Cli) (w : W) (looped : Option (Cli × W))
      → Returns looped
      → Ended (elim status [
        | os_error ↦ let (c', w') = shut cfg hw last c w in some (os_error, c', w')
        | os_success _ ↦ elim looped [
          | none ↦ none
          | some (c₃, w₃) ↦ let (c', w') = shut cfg hw last c₃ w₃ in some (done, c', w')
        ]
      ])
  started-Ended os_error c w looped h = ended os_error _ _ (shut-IsShut c w)
  started-Ended (os_success _) c w looped h = looped-Ended looped h

  -- With one turn more than the input has bytes, the program comes to its end, and its three
  -- devices are marked closed, whether they came up or not.
  pub run_main-Ended :
      (turns : ℕ) (stdin memory : List ℕ) (c : Cli) (w : W)
      → length stdin < turns
      → Ended (run_main cfg hw last turns stdin memory c w)
  unfolding run_main
  run_main-Ended turns stdin memory c w h =
      started-Ended _ _ _ _ (repl-Returns turns stdin memory _ _ h)
