-- ===== src/Base/Lists.antt =====
-- Lists measured and indexed by native numbers.
use Prim.Native.Nat.{ℕ, zero, suc, ◌+◌, ◌-◌, ◌≤◌, ◌<◌}
use mathlib.Core.Path.{◌≡◌, refl, ap, sym, ◌∙◌}
use mathlib.Core.List.{List, [], ◌∷◌, ◌++◌, append_assoc}
use native.Mathlib.Omega.{arith}

module _ {ℓ} {A : Type ℓ} where
  abbrev pub length : List A → ℕ
  length [] = 0
  length (x ∷ xs) = suc (length xs)

  abbrev pub get_or : List A → ℕ → A → A
  get_or [] i d = d
  get_or (x ∷ xs) zero d = x
  get_or (x ∷ xs) (suc i) d = get_or xs i d

  abbrev pub take : ℕ → List A → List A
  take zero xs = []
  take (suc n) [] = []
  take (suc n) (x ∷ xs) = x ∷ take n xs

  abbrev pub drop : ℕ → List A → List A
  drop zero xs = xs
  drop (suc n) [] = []
  drop (suc n) (x ∷ xs) = drop n xs

  abbrev pub replicate : ℕ → A → List A
  replicate zero a = []
  replicate (suc n) a = a ∷ replicate n a

module _ {ℓ} {A : Type ℓ} where
  pub length-append : (xs ys : List A) → length (xs ++ ys) ≡ length xs + length ys
  length-append [] ys = omega arith
  length-append (x ∷ xs) ys = omega (arith, length-append xs ys)

  pub length-replicate : (n : ℕ) (a : A) → length (replicate n a) ≡ n
  length-replicate zero a = refl
  length-replicate (suc n) a = ap suc (length-replicate n a)

  pub length-drop : (n : ℕ) (xs : List A) → length (drop n xs) ≡ length xs - n
  length-drop zero xs = omega arith
  length-drop (suc n) [] = omega arith
  length-drop (suc n) (x ∷ xs) = omega (arith, length-drop n xs)

  pub length-take_le : (n : ℕ) (xs : List A) → n ≤ length xs → length (take n xs) ≡ n
  length-take_le zero xs h = refl
  length-take_le (suc n) [] h = absurd (omega arith)
  length-take_le (suc n) (x ∷ xs) h = ap suc (length-take_le n xs (omega arith))

  pub length-take_bound : (n : ℕ) (xs : List A) → length (take n xs) ≤ n
  length-take_bound zero xs = omega arith
  length-take_bound (suc n) [] = omega arith
  length-take_bound (suc n) (x ∷ xs) = omega (arith, length-take_bound n xs)

  pub take-append-drop : (n : ℕ) (xs : List A) → take n xs ++ drop n xs ≡ xs
  take-append-drop zero xs = refl
  take-append-drop (suc n) [] = refl
  take-append-drop (suc n) (x ∷ xs) = rw (take-append-drop n xs)

  drop-nil : (n : ℕ) → drop {A = A} n [] ≡ []
  drop-nil zero = refl
  drop-nil (suc n) = refl

  pub take-append_self : (xs ys : List A) → take (length xs) (xs ++ ys) ≡ xs
  take-append_self [] ys = refl
  take-append_self (x ∷ xs) ys = ap (◌∷◌ x) (take-append_self xs ys)

  pub drop-append_self : (xs ys : List A) → drop (length xs) (xs ++ ys) ≡ ys
  drop-append_self [] ys = refl
  drop-append_self (x ∷ xs) ys = drop-append_self xs ys

  pub take-append_le : (n : ℕ) (xs ys : List A) → n ≤ length xs → take n (xs ++ ys) ≡ take n xs
  take-append_le zero xs ys h = refl
  take-append_le (suc n) [] ys h = absurd (omega arith)
  take-append_le (suc n) (x ∷ xs) ys h = ap (◌∷◌ x) (take-append_le n xs ys (omega arith))

  pub drop-append_le :
      (n : ℕ) (xs ys : List A) → n ≤ length xs → drop n (xs ++ ys) ≡ drop n xs ++ ys
  drop-append_le zero xs ys h = refl
  drop-append_le (suc n) [] ys h = absurd (omega arith)
  drop-append_le (suc n) (x ∷ xs) ys h = drop-append_le n xs ys (omega arith)

  pub take_all : (xs : List A) → take (length xs) xs ≡ xs
  take_all [] = refl
  take_all (x ∷ xs) = ap (◌∷◌ x) (take_all xs)

  pub take_ge : (k : ℕ) (xs : List A) → length xs ≤ k → take k xs ≡ xs
  take_ge zero [] h = refl
  take_ge zero (x ∷ xs) h = absurd (omega arith)
  take_ge (suc k) [] h = refl
  take_ge (suc k) (x ∷ xs) h = ap (◌∷◌ x) (take_ge k xs (omega arith))

  pub drop_ge : (k : ℕ) (xs : List A) → length xs ≤ k → drop k xs ≡ []
  drop_ge zero [] h = refl
  drop_ge zero (x ∷ xs) h = absurd (omega arith)
  drop_ge (suc k) [] h = refl
  drop_ge (suc k) (x ∷ xs) h = drop_ge k xs (omega arith)

  pub drop-drop : (i j : ℕ) (xs : List A) → drop (i + j) xs ≡ drop j (drop i xs)
  drop-drop zero j xs = ap (λ k. drop k xs) (omega arith)
  drop-drop (suc i) j [] = rw (drop-nil (suc i + j), drop-nil j)
  drop-drop (suc i) j (x ∷ xs) =
      ap (λ k. drop k (x ∷ xs)) {x = suc i + j} {y = suc (i + j)} (omega arith) ∙ drop-drop i j xs

  take-nil : (n : ℕ) → take {A = A} n [] ≡ []
  take-nil zero = refl
  take-nil (suc n) = refl

  pub take_add : (i j : ℕ) (xs : List A) → take (i + j) xs ≡ take i xs ++ take j (drop i xs)
  take_add zero j xs = ap (λ k. take k xs) (omega arith)
  take_add (suc i) j [] = rw (take-nil (suc i + j), take-nil j) refl
  take_add (suc i) j (x ∷ xs) =
      ap (λ k. take k (x ∷ xs)) {x = suc i + j} {y = suc (i + j)} (omega arith)
      ∙ ap (◌∷◌ x) (take_add i j xs)

  pub get_or-drop : (i j : ℕ) (xs : List A) (d : A) → get_or xs (i + j) d ≡ get_or (drop i xs) j d
  get_or-drop zero j xs d = ap (λ k. get_or xs k d) (omega arith)
  get_or-drop (suc i) j [] d = refl
  get_or-drop (suc i) j (x ∷ xs) d =
      ap (λ k. get_or (x ∷ xs) k d) {x = suc i + j} {y = suc (i + j)} (omega arith)
      ∙ get_or-drop i j xs d

  pub get_or-drop_zero : (i : ℕ) (xs : List A) (d : A) → get_or xs i d ≡ get_or (drop i xs) 0 d
  get_or-drop_zero zero xs d = refl
  get_or-drop_zero (suc i) [] d = refl
  get_or-drop_zero (suc i) (x ∷ xs) d = get_or-drop_zero i xs d

  pub get_or-take : (n i : ℕ) (xs : List A) (d : A) → i < n → get_or (take n xs) i d ≡ get_or xs i d
  get_or-take zero i xs d h = absurd (omega arith)
  get_or-take (suc n) i [] d h = refl
  get_or-take (suc n) zero (x ∷ xs) d h = refl
  get_or-take (suc n) (suc i) (x ∷ xs) d h = get_or-take n i xs d (omega arith)

  pub drop_uncons :
      (i : ℕ) (xs : List A) (d : A) → i < length xs → drop i xs ≡ get_or xs i d ∷ drop (i + 1) xs
  drop_uncons i [] d h = absurd (omega arith)
  drop_uncons zero (x ∷ xs) d h = refl
  drop_uncons (suc i) (x ∷ xs) d h =
      drop_uncons i xs d (omega arith)
      ∙ ap (λ k. get_or xs i d ∷ drop k (x ∷ xs)) {x = suc (i + 1)} {y = suc i + 1} (omega arith)

  pub get_or-append_left :
      (xs ys : List A) (i : ℕ) (d : A) → i < length xs → get_or (xs ++ ys) i d ≡ get_or xs i d
  get_or-append_left [] ys i d h = absurd (omega arith)
  get_or-append_left (x ∷ xs) ys zero d h = refl
  get_or-append_left (x ∷ xs) ys (suc i) d h = get_or-append_left xs ys i d (omega arith)

  pub get_or-append_at : (xs ys : List A) (x d : A) → get_or (xs ++ x ∷ ys) (length xs) d ≡ x
  get_or-append_at [] ys x d = refl
  get_or-append_at (y ∷ xs) ys x d = get_or-append_at xs ys x d

-- Every element satisfies the predicate.
abbrev pub All {ℓ κ} : {A : Type ℓ} → (A → Type κ) → List A → Type κ
All P [] = Unit
All P (x ∷ xs) = P x × All P xs

-- The pieces of a stream, put together.
abbrev pub concat {ℓ} : {A : Type ℓ} → List (List A) → List A
concat [] = []
concat (x ∷ xs) = x ++ concat xs

pub concat-append {ℓ} :
    {A : Type ℓ} (xss yss : List (List A)) → concat (xss ++ yss) ≡ concat xss ++ concat yss
concat-append [] yss = refl
concat-append (xs ∷ xss) yss =
    ap (λ t. xs ++ t) (concat-append xss yss) ∙ sym (append_assoc xs (concat xss) (concat yss))
