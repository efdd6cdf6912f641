-- ===== src/App/Uplink/Frames/Resync.antt =====
-- What the scan for the next header in RADIO_ServiceUplink looks for.
use tryspace_comp_radio.Base.{
  ℕ, Bool, zero, suc, ◌+◌, ◌≤◌, ◌<◌, ◌≡◌, true, false, Option, none, some, List, arith, leb,
  Bool-cases, inl, inr,
}
use native.Mathlib.Decide.{dec_lt}
use tryspace_comp_radio.App.Uplink.Frames.{is_plausible, resync}

-- What the scan from `start` says of the buffer: a header is the first plausible one at or behind
-- `start`, with five bytes left, and none means that there is none.
abbrev pub Finds : List ℕ → ℕ → ℕ → Option ℕ → Type 0
Finds buf n start (some o) =
    (start ≤ o)
    × (o + 5 ≤ n)
    × (is_plausible buf n o ≡ true)
    × ((i : ℕ) → start ≤ i → i < o → is_plausible buf n i ≡ false)
Finds buf n start none = (i : ℕ) → start ≤ i → i + 5 ≤ n → is_plausible buf n i ≡ false

-- What fails at `start` and behind it fails from `start` on.
fails_from :
    (P : ℕ → Bool) (start i : ℕ)
    → P start ≡ false
    → start ≤ i
    → (start + 1 ≤ i → P i ≡ false)
    → P i ≡ false
fails_from P start i h le behind = elim (dec_lt start i) [
  | yes lt ↦ behind (omega arith)
  | no ge ↦ let e : i ≡ start = omega arith in rw e h
]

Finds-step :
    (buf : List ℕ) (n start : ℕ) (r : Option ℕ)
    → is_plausible buf n start ≡ false
    → Finds buf n (start + 1) r
    → Finds buf n start r
Finds-step buf n start none h f =
    λ i le room. fails_from (is_plausible buf n) start i h le (λ lt. f i lt room)
Finds-step buf n start (some o) h f = (
  omega arith,
  f.1,
  f.2,
  λ i le lt. fails_from (is_plausible buf n) start i h le (λ behind. f.3 i behind lt),
)

-- With turns enough for the bytes left, the scan for a header finds the first plausible one at or
-- behind its start, with five bytes left from there, and finds none only if there is none.
pub resync-Finds :
    (turns : ℕ) (buf : List ℕ) (n start : ℕ)
    → n < start + turns + 5
    → Finds buf n start (resync turns buf n start)
unfolding resync
resync-Finds zero buf n start h = λ i le room. absurd (omega arith)
resync-Finds (suc turns) buf n start h = elim (Bool-cases (leb (start + 5) n)) [
  | inr short ↦ rw (short) (λ i le room. absurd (ground arith))
  | inl long ↦ elim (Bool-cases (is_plausible buf n start)) [
    | inl good ↦ rw (long, good) (omega arith, ground arith, good, λ i le lt. absurd (omega arith))
    | inr bad ↦
        rw (long, bad)
          (Finds-step buf n start (resync turns buf n (start + 1)) bad
            (resync-Finds turns buf n (start + 1) (omega arith)))
  ]
]
