-- ===== src/Base/Arrays.antt =====
-- Byte arrays as lists: a write at an index, and `memcpy` into an array.
use Prim.Native.Nat.{ℕ, zero, suc, ◌+◌, ◌≤◌}
use mathlib.Core.Path.{◌≡◌, refl, ap, ◌∙◌}
use mathlib.Core.List.{List, [], ◌∷◌, ◌++◌}
use native.Mathlib.Omega.{arith}
use tryspace_comp_radio.Base.Lists.{length, take}

module _ {ℓ} {A : Type ℓ} where
  -- A write out of bounds changes nothing.
  abbrev pub set : List A → ℕ → A → List A
  set [] i v = []
  set (x ∷ xs) zero v = v ∷ xs
  set (x ∷ xs) (suc i) v = x ∷ set xs i v

  -- `memcpy(dst + at, src, length src)`: what would fall outside `dst` is not written.
  abbrev pub memcpy : List A → ℕ → List A → List A
  memcpy [] at src = []
  memcpy (d ∷ ds) zero [] = d ∷ ds
  memcpy (d ∷ ds) zero (x ∷ src) = x ∷ memcpy ds zero src
  memcpy (d ∷ ds) (suc at) src = d ∷ memcpy ds at src

module _ {ℓ} {A : Type ℓ} where
  pub length-set : (xs : List A) (i : ℕ) (v : A) → length (set xs i v) ≡ length xs
  length-set [] i v = refl
  length-set (x ∷ xs) zero v = refl
  length-set (x ∷ xs) (suc i) v = ap suc (length-set xs i v)

  pub length-memcpy :
      (dst : List A) (at : ℕ) (src : List A) → length (memcpy dst at src) ≡ length dst
  length-memcpy [] at src = refl
  length-memcpy (d ∷ ds) zero [] = refl
  length-memcpy (d ∷ ds) zero (x ∷ src) = ap suc (length-memcpy ds zero src)
  length-memcpy (d ∷ ds) (suc at) src = ap suc (length-memcpy ds at src)

  pub memcpy-nil : (xs : List A) → memcpy xs 0 [] ≡ xs
  memcpy-nil [] = refl
  memcpy-nil (x ∷ xs) = refl

  -- What `memcpy` leaves before, inside and behind the copied part.
  pub memcpy-append :
      (pre mid post src : List A)
      → length src ≡ length mid
      → memcpy (pre ++ mid ++ post) (length pre) src ≡ pre ++ src ++ post
  memcpy-append [] [] [] [] h = refl
  memcpy-append [] [] (p ∷ post) [] h = refl
  memcpy-append [] [] post (s ∷ src) h = absurd (omega arith)
  memcpy-append [] (m ∷ mid) post [] h = absurd (omega arith)
  memcpy-append [] (m ∷ mid) post (s ∷ src) h =
      ap (◌∷◌ s) (memcpy-append [] mid post src (omega arith))
  memcpy-append (p ∷ pre) mid post src h = ap (◌∷◌ p) (memcpy-append pre mid post src h)

  -- The front of an array up to the end of what `memcpy` wrote.
  pub take-memcpy :
      (dst : List A) (at : ℕ) (src : List A)
      → at + length src ≤ length dst
      → take (at + length src) (memcpy dst at src) ≡ take at dst ++ src
  take-memcpy dst zero [] h = refl
  take-memcpy [] zero (x ∷ src) h = absurd (omega arith)
  take-memcpy (d ∷ ds) zero (x ∷ src) h =
      ap (λ n. take n (x ∷ memcpy ds zero src)) {x = zero + suc (length src)}
        {y = suc (zero + length src)} (omega arith)
      ∙ ap (◌∷◌ x) (take-memcpy ds zero src (omega arith))
  take-memcpy [] (suc at) src h = absurd (omega arith)
  take-memcpy (d ∷ ds) (suc at) src h =
      ap (λ n. take n (d ∷ memcpy ds at src)) {x = suc at + length src} {y = suc (at + length src)}
        (omega arith)
      ∙ ap (◌∷◌ d) (take-memcpy ds at src (omega arith))

  pub set-append :
      (pre : List A) (x : A) (post : List A) (v : A)
      → set (pre ++ x ∷ post) (length pre) v ≡ pre ++ v ∷ post
  set-append [] x post v = refl
  set-append (p ∷ pre) x post v = ap (◌∷◌ p) (set-append pre x post v)
