-- ===== src/Cli/Numerals.antt =====
-- The numbers that cli/radio_cli.c reads with `atoi`.
use tryspace_comp_radio.Base.{
  ℕ, zero, suc, ◌+◌, ◌-◌, ◌*◌, ◌/◌, ◌%◌, ◌^◌, ◌<◌, ◌≡◌, refl, ap, ◌∙◌, true, false, List, [], ◌∷◌,
  ◌++◌, arith, pos, ◌==◌, le→leb, ltb, if◌then◌else◌, All, Bool-cases, inl, inr, ltb→lt, subst, sym,
}
use tryspace_comp_radio.Cli.Text.{is_digit, is_space, number, atoi, skip_space}

-- The decimal numeral of a number below 10 ^ places.
abbrev pub decimal : ℕ → ℕ → List ℕ
decimal zero n = []
decimal (suc places) n =
    let front = decimal places (n / 10) in
    if ltb n 10 then (48 + n) ∷ [] else front ++ ((48 + n % 10) ∷ [])

-- Digits and no more.
abbrev pub IsNumeral : List ℕ → Type 0
IsNumeral s = All (λ c. is_digit c ≡ true) s

digit : (d : ℕ) → d < 10 → is_digit (48 + d) ≡ true
digit d h = rw (le→leb 48 (48 + d) (omega arith), le→leb (48 + d) 57 (omega arith)) refl

number-snoc :
    (acc : ℕ) (s : List ℕ) (d : ℕ)
    → IsNumeral s
    → d < 10
    → number acc (s ++ ((48 + d) ∷ [])) ≡ number acc s * 10 + d
number-snoc acc [] d h l = rw (digit d l) (omega arith)
number-snoc acc (c ∷ s) d h l = rw (h.0) (number-snoc (acc * 10 + (c - 48)) s d h.1 l)

append-IsNumeral : (s : List ℕ) (d : ℕ) → IsNumeral s → d < 10 → IsNumeral (s ++ ((48 + d) ∷ []))
append-IsNumeral [] d h l = (digit d l, tt)
append-IsNumeral (c ∷ s) d h l = (h.0, append-IsNumeral s d h.1 l)

decimal-IsNumeral : (places n : ℕ) → IsNumeral (decimal places n)
decimal-IsNumeral zero n = tt
decimal-IsNumeral (suc places) n = elim (Bool-cases (ltb n 10)) [
  | inl one ↦ rw one (digit n (ltb→lt n 10 one), tt)
  | inr more ↦ rw more (
      append-IsNumeral (decimal places (n / 10)) (n % 10) (decimal-IsNumeral places (n / 10))
        (omega arith))
]

number-decimal : (places n : ℕ) → n < 10 ^ places → number 0 (decimal places n) ≡ n
number-decimal zero n h = omega arith
number-decimal (suc places) n h = elim (Bool-cases (ltb n 10)) [
  | inl one ↦ rw one (rw (digit n (ltb→lt n 10 one)) (omega arith))
  | inr more ↦ rw more (
      number-snoc 0 (decimal places (n / 10)) (n % 10) (decimal-IsNumeral places (n / 10))
        (omega arith)
      ∙ ap (λ k. k * 10 + n % 10) (number-decimal places (n / 10) (omega arith))
      ∙ omega arith)
]

snoc-cons : (s : List ℕ) (d : ℕ) → (c : ℕ) × (rest : List ℕ) × (s ++ (d ∷ []) ≡ c ∷ rest)
snoc-cons [] d = (d, [], refl)
snoc-cons (c ∷ s) d = (c, s ++ (d ∷ []), refl)

decimal-cons : (places n : ℕ) → (c : ℕ) × (rest : List ℕ) × (decimal (suc places) n ≡ c ∷ rest)
decimal-cons places n = elim (Bool-cases (ltb n 10)) [
  | inl one ↦ (48 + n, [], rw one refl)
  | inr more ↦ rw more (snoc-cons (decimal places (n / 10)) (48 + n % 10))
]

-- A digit is no space and no sign.
digit-is_space : (c : ℕ) → is_digit c ≡ true → is_space c ≡ false
digit-is_space c h = ground arith

digit-sign : (c s : ℕ) → is_digit c ≡ true → s < 48 → (c == s) ≡ false
digit-sign c s h l = ground arith

skip_space-digit : (c : ℕ) (s : List ℕ) → is_digit c ≡ true → skip_space (c ∷ s) ≡ c ∷ s
skip_space-digit c s h = ap (λ b. if b then skip_space s else c ∷ s) (digit-is_space c h)

atoi-IsNumeral : (c : ℕ) (s : List ℕ) → IsNumeral (c ∷ s) → atoi (c ∷ s) ≡ pos (number 0 (c ∷ s))
unfolding atoi
atoi-IsNumeral c s h =
    rw (skip_space-digit c s h.0, atoi)
      (rw (digit-sign c 45 h.0 (omega arith), digit-sign c 43 h.0 (omega arith)) refl)

pub atoi-decimal : (places n : ℕ) → n < 10 ^ suc places → atoi (decimal (suc places) n) ≡ pos n
atoi-decimal places n h =
    let (c, rest, e) = decimal-cons places n in
    ap atoi e
    ∙ atoi-IsNumeral c rest (subst IsNumeral e (decimal-IsNumeral (suc places) n))
    ∙ ap (λ s. pos (number 0 s)) (sym e)
    ∙ ap pos (number-decimal (suc places) n h)
