-- ===== src/Cli/Tokens/Rows.antt =====
-- The rows of `input_tokens` in cli/radio_cli.c, written from the first on and read back.
use tryspace_comp_radio.Base.{
  ℕ, zero, suc, ◌+◌, ◌*◌, ◌≤◌, ◌<◌, ◌≡◌, refl, sym, ap, ◌∙◌, false, List, [], ◌∷◌, ◌++◌, arith,
  ◌==◌, length, take, drop, take-memcpy, take-append-drop, drop-append_self, append_assoc,
  append-nil, length-append, length-memcpy, memcpy, All,
}
use tryspace_comp_radio.Cli.Text.{cstr, strncpy}
use tryspace_comp_radio.Cli.Tokens.{put_token, token}

-- No byte is a NUL.
abbrev pub IsText : List ℕ → Type 0
IsText s = All (λ c. (c == 0) ≡ false) s

-- A string that a row can hold with a NUL behind it.
pub record IsShort (t : List ℕ) : Type 0 where
  pub text : IsText t
  pub short : length t < 50

pub cstr-IsText : (s : List ℕ) → IsText s → cstr s ≡ s
cstr-IsText [] h = refl
cstr-IsText (c ∷ s) h = rw (h.0, cstr-IsText s h.1)

pub cstr-strncpy :
    (n : ℕ) (t more : List ℕ) → IsText t → length t < n → cstr (strncpy n t ++ more) ≡ t
cstr-strncpy zero t more h l = absurd (omega arith)
cstr-strncpy (suc n) [] more h l = refl
cstr-strncpy (suc n) (c ∷ t) more h l = rw (h.0, cstr-strncpy n t more h.1 (omega arith))

pub take-strncpy :
    (n : ℕ) (t more : List ℕ) → length t ≤ n → take (length t) (strncpy n t ++ more) ≡ t
take-strncpy n [] more l = refl
take-strncpy zero (c ∷ t) more l = absurd (omega arith)
take-strncpy (suc n) (c ∷ t) more l = ap (◌∷◌ c) (take-strncpy n t more (omega arith))

pub length-strncpy : (n : ℕ) (t : List ℕ) → length (strncpy n t) ≡ n
length-strncpy zero t = refl
length-strncpy (suc n) [] = ap suc (length-strncpy n [])
length-strncpy (suc n) (c ∷ t) = ap suc (length-strncpy n t)

-- Rows one behind the other.
rows : List (List ℕ) → List ℕ
rows [] = []
rows (t ∷ ts) = strncpy 50 t ++ rows ts

-- The rows from `i` on are written.
unfoldable pub put_tokens : ℕ → List (List ℕ) → List ℕ → List ℕ
put_tokens i [] memory = memory
put_tokens i (t ∷ ts) memory = put_tokens (i + 1) ts (put_token i t memory)

-- `n` rows from `i` on are read.
abbrev pub read_tokens : ℕ → ℕ → List ℕ → List (List ℕ)
read_tokens zero i memory = []
read_tokens (suc n) i memory = token i memory ∷ read_tokens n (i + 1) memory

-- The last row of the front part is the one that was written.
row-put_token :
    (i : ℕ) (t memory : List ℕ)
    → 50 * (i + 1) ≤ length memory
    → take (50 * (i + 1)) (put_token i t memory) ≡ take (50 * i) memory ++ strncpy 50 t
unfolding put_token
row-put_token i t memory h =
    ap (λ n. take n (memcpy memory (50 * i) (strncpy 50 t))) {x = 50 * (i + 1)}
      {y = 50 * i + length (strncpy 50 t)} (omega (arith, length-strncpy 50 t))
    ∙ take-memcpy memory (50 * i) (strncpy 50 t) (omega (arith, length-strncpy 50 t))

length-put_token : (i : ℕ) (t memory : List ℕ) → length (put_token i t memory) ≡ length memory
unfolding put_token
length-put_token i t memory = length-memcpy memory (50 * i) (strncpy 50 t)

put_tokens-rows :
    (i : ℕ) (ts : List (List ℕ)) (memory : List ℕ)
    → 50 * (i + length ts) ≤ length memory
    → take (50 * (i + length ts)) (put_tokens i ts memory) ≡ take (50 * i) memory ++ rows ts
unfolding put_tokens rows
put_tokens-rows i [] memory h =
    ap (λ n. take n memory) {x = 50 * (i + 0)} {y = 50 * i} (omega arith)
    ∙ sym (append-nil (take (50 * i) memory))
put_tokens-rows i (t ∷ ts) memory h =
    ap (λ n. take n (put_tokens (i + 1) ts memory')) {x = 50 * (i + suc (length ts))}
      {y = 50 * (i + 1 + length ts)} (omega arith)
    ∙ put_tokens-rows (i + 1) ts memory' (omega (arith, length-put_token i t memory))
    ∙ ap (λ front. front ++ rows ts) (row-put_token i t memory (omega arith))
    ∙ append_assoc (take (50 * i) memory) (strncpy 50 t) (rows ts)
  where
    memory' : List ℕ
    memory' = put_token i t memory

-- A row that stands behind `i` others is read back, whatever follows.
row-token :
    (i : ℕ) (t front more : List ℕ)
    → length front ≡ 50 * i
    → IsShort t
    → token i (front ++ (strncpy 50 t ++ more)) ≡ t
unfolding token
row-token i t front more e h =
    ap (λ n. cstr (drop n (front ++ (strncpy 50 t ++ more)))) (sym e)
    ∙ ap cstr (drop-append_self front (strncpy 50 t ++ more))
    ∙ cstr-strncpy 50 t more h.text h.short

-- Rows that stand behind `i` others are read back, whatever follows.
read-rows :
    (i : ℕ) (ts : List (List ℕ)) (front more : List ℕ)
    → length front ≡ 50 * i
    → All IsShort ts
    → read_tokens (length ts) i (front ++ (rows ts ++ more)) ≡ ts
unfolding rows
read-rows i [] front more e h = refl
read-rows i (t ∷ ts) front more e h =
    ap (λ x. read_tokens (suc (length ts)) i (front ++ x))
      (append_assoc (strncpy 50 t) (rows ts) more)
    ∙ ap (λ x. x ∷ read_tokens (length ts) (i + 1) (front ++ (strncpy 50 t ++ (rows ts ++ more))))
        (row-token i t front (rows ts ++ more) e h.0)
    ∙ ap (λ x. t ∷ read_tokens (length ts) (i + 1) x)
        (sym (append_assoc front (strncpy 50 t) (rows ts ++ more)))
    ∙ ap (◌∷◌ t) (
        read-rows (i + 1) ts (front ++ strncpy 50 t) more
          (omega (arith, length-append front (strncpy 50 t), length-strncpy 50 t)) h.1)

-- Tokens that rows can hold are read back.
pub read-put_tokens :
    (ts : List (List ℕ)) (memory : List ℕ)
    → All IsShort ts
    → 50 * length ts ≤ length memory
    → read_tokens (length ts) 0 (put_tokens 0 ts memory) ≡ ts
read-put_tokens ts memory h l =
    ap (read_tokens (length ts) 0) (sym (take-append-drop n written))
    ∙ ap (λ front. read_tokens (length ts) 0 (front ++ drop n written))
        (put_tokens-rows 0 ts memory (omega arith))
    ∙ read-rows 0 ts [] (drop n written) refl h
  where
    n : ℕ
    n = 50 * (0 + length ts)

    written : List ℕ
    written = put_tokens 0 ts memory
