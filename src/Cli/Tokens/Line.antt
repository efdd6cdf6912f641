-- ===== src/Cli/Tokens/Line.antt =====
-- The loop of `main` in cli/radio_cli.c that takes a line apart, on lines of words and delimiters.
use tryspace_comp_radio.Base.{
  ℕ, zero, suc, ◌+◌, ◌*◌, ◌≤◌, ◌≡◌, refl, ap, ◌∙◌, true, false, none, some, List, [], ◌∷◌, ◌++◌,
  arith, length, map, append-nil, sym, subst, if◌then◌else◌, All,
}
use tryspace_comp_radio.Cli.Tokens.{
  get_command, is_delimiter, skip_delimiters, cut_token, strtok, put_token, arguments, cut_first,
  tokenize, max_input_tokens, max_input_token_size,
}
use tryspace_comp_radio.Cli.Tokens.Rows.{
  IsText, IsShort, put_tokens, read_tokens, read-put_tokens, cstr-IsText,
}

-- A word of a line, with the delimiters before it and the one behind it.
pub record Word : Type 0 where
  pub gap : List ℕ
  pub word : List ℕ
  pub mark : ℕ

abbrev pub IsGap : List ℕ → Type 0
IsGap s = All (λ c. is_delimiter c ≡ true) s

-- The word is not empty and holds no delimiter.
pub record IsWord (w : Word) : Type 0 where
  pub gap : IsGap (w.gap)
  pub first : ℕ
  pub others : List ℕ
  pub starts : w.word ≡ first ∷ others
  pub plain : All (λ c. is_delimiter c ≡ false) (w.word)
  pub mark : is_delimiter (w.mark) ≡ true

-- A line of words, and the delimiters at its end.
abbrev pub line_of : List Word → List ℕ → List ℕ
line_of [] gap = gap
line_of (w ∷ ws) gap = w.gap ++ (w.word ++ (w.mark ∷ line_of ws gap))

skip-IsGap : (gap s : List ℕ) → IsGap gap → skip_delimiters (gap ++ s) ≡ skip_delimiters s
skip-IsGap [] s h = refl
skip-IsGap (c ∷ gap) s h = rw (h.0, skip-IsGap gap s h.1)

cut-word :
    (word : List ℕ) (mark : ℕ) (s : List ℕ)
    → All (λ c. is_delimiter c ≡ false) word
    → is_delimiter mark ≡ true
    → cut_token (word ++ (mark ∷ s)) ≡ (word, s)
cut-word [] mark s h m =
    ap (λ b. if b then ([], s) else (mark ∷ (cut_token s).0, (cut_token s).1)) m
cut-word (c ∷ word) mark s h m =
    rw (h.0) (ap (λ cut. (c ∷ cut.0, cut.1)) (cut-word word mark s h.1 m))

strtok-IsGap : (gap : List ℕ) → IsGap gap → strtok gap ≡ none
unfolding strtok
strtok-IsGap gap h =
    ap (λ s. cut_first (skip_delimiters s)) (sym (append-nil gap))
    ∙ ap cut_first (skip-IsGap gap [] h)

strtok-IsWord :
    (w : Word) (s : List ℕ)
    → IsWord w
    → strtok (w.gap ++ (w.word ++ (w.mark ∷ s))) ≡ some (w.word, s)
unfolding strtok
strtok-IsWord w s h =
    ap cut_first (skip-IsGap (w.gap) (w.word ++ (w.mark ∷ s)) (h.gap))
    ∙ ap (λ x. cut_first (skip_delimiters (x ++ (w.mark ∷ s)))) (h.starts)
    ∙ rw (plain.0, cut_first) (ap some (cut-word (h.first ∷ h.others) (w.mark) s plain (h.mark)))
    ∙ ap (λ x. some (x, s)) (sym h.starts)
  where
    plain : All (λ c. is_delimiter c ≡ false) (h.first ∷ h.others)
    plain = subst (All (λ c. is_delimiter c ≡ false)) h.starts h.plain

abbrev pub words_of : List Word → List (List ℕ)
words_of ws = map (λ w. w.word) ws

pub length-words_of : (ws : List Word) → length (words_of ws) ≡ length ws
length-words_of [] = refl
length-words_of (w ∷ ws) = ap suc (length-words_of ws)

-- The turns behind the first token read the words of the line, if there is a row for each.
arguments-IsWord :
    (ws : List Word) (left num : ℕ) (gap memory : List ℕ)
    → All IsWord ws
    → IsGap gap
    → length ws ≤ left
    → arguments left num (line_of ws gap) memory
      ≡ (num + length ws, put_tokens num (words_of ws) memory)
unfolding arguments put_tokens
arguments-IsWord [] zero num gap memory h g l = ap (λ n. (n, memory)) (omega arith)
arguments-IsWord [] (suc left) num gap memory h g l =
    rw (strtok-IsGap gap g, arguments) (ap (λ n. (n, memory)) (omega arith))
arguments-IsWord (w ∷ ws) zero num gap memory h g l = absurd (omega arith)
arguments-IsWord (w ∷ ws) (suc left) num gap memory h g l =
    rw (strtok-IsWord w (line_of ws gap) h.0, arguments)
      (arguments-IsWord ws left (num + 1) gap (put_token num (w.word) memory) h.1 g (omega arith))
    ∙ ap (λ n. (n, put_tokens (num + 1) (words_of ws) (put_token num (w.word) memory)))
        {x = num + 1 + length ws} {y = num + suc (length ws)} (omega arith)

-- A line without a command changes nothing.
pub tokenize-IsGap :
    (last : ℕ) (gap memory : List ℕ) → IsText gap → IsGap gap → tokenize last gap memory ≡ none
unfolding tokenize
tokenize-IsGap last gap memory t g = rw (cstr-IsText gap t, strtok-IsGap gap g, tokenize) refl

pub tokenize-IsWord :
    (last : ℕ) (w : Word) (ws : List Word) (gap memory : List ℕ)
    → IsWord w
    → All IsWord ws
    → IsGap gap
    → IsText (line_of (w ∷ ws) gap)
    → length ws ≤ max_input_tokens
    → tokenize last (line_of (w ∷ ws) gap) memory
      ≡ some (get_command last w.word, length ws, put_tokens 0 (words_of ws) memory)
unfolding tokenize
tokenize-IsWord last w ws gap memory h hs g t l =
    rw (cstr-IsText (line_of (w ∷ ws) gap) t, strtok-IsWord w (line_of ws gap) h, tokenize)
      (rw (arguments-IsWord ws max_input_tokens 0 gap memory hs g l) (
        ap (λ n. some (get_command last w.word, n, put_tokens 0 (words_of ws) memory))
          {x = 0 + length ws} {y = length ws} (omega arith)))

-- A line as the loop expects it: words without a NUL, a row for each argument with room for a NUL.
pub record IsLine (w : Word) (ws : List Word) (gap : List ℕ) : Type 0 where
  pub command : IsWord w
  pub arguments : All IsWord ws
  pub end : IsGap gap
  pub text : IsText (line_of (w ∷ ws) gap)
  pub short : All IsShort (words_of ws)
  pub few : length ws ≤ max_input_tokens

-- A line without a NUL, of a command word and up to 64 arguments of 1 to 49 bytes, each word with
-- a delimiter behind it, is taken apart into the command, the number of the arguments, and rows,
-- 64 of 50 bytes, from which exactly the arguments are read back.
pub tokenize_round_trip :
    (last : ℕ) (w : Word) (ws : List Word) (gap memory : List ℕ)
    → IsLine w ws gap
    → length memory ≡ max_input_tokens * max_input_token_size
    → (memory' : List ℕ) × (tokenize last (line_of (w ∷ ws) gap) memory
        ≡ some (get_command last w.word, length ws, memory'))
      × (read_tokens (length ws) 0 memory' ≡ words_of ws)
tokenize_round_trip last w ws gap memory h e = (
  put_tokens 0 (words_of ws) memory,
  tokenize-IsWord last w ws gap memory (h.command) (h.arguments) (h.end) (h.text) (h.few),
  ap (λ n. read_tokens n 0 (put_tokens 0 (words_of ws) memory)) (sym (length-words_of ws))
      ∙ read-put_tokens (words_of ws) memory (h.short)
          (omega (arith, e, h.few, length-words_of ws)),
)
