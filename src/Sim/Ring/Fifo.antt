-- ===== src/Sim/Ring/Fifo.antt =====
-- The receive buffer against a queue of bytes, oldest first.
use tryspace_comp_radio.Base.{
  ℕ, zero, suc, ◌+◌, ◌-◌, ◌%◌, ◌≤◌, ◌<◌, ◌≡◌, ◌≢◌, refl, sym, ap, ◌∙◌, List, [], ◌∷◌, ◌++◌, arith,
  ltb, if◌then◌else◌, length, length-set, get_or, set, take, Bool-cases, inl, inr, append_assoc,
  append-nil,
}
use native.Mathlib.Numerals.{add-one}
use native.Mathlib.Nat.{mod-eq_of_lt, mod_self}
use mathlib.Core.Path.{ap₂}
use tryspace_comp_radio.Sim.Ring.{Ring, IsRing, rx_count, write_bytes, read_bytes}

get_or-set_self : (xs : List ℕ) (i v : ℕ) → i < length xs → get_or (set xs i v) i 0 ≡ v
get_or-set_self [] i v h = absurd (omega arith)
get_or-set_self (x ∷ xs) zero v h = refl
get_or-set_self (x ∷ xs) (suc i) v h = get_or-set_self xs i v (omega arith)

get_or-set_ne : (xs : List ℕ) (i j v : ℕ) → i ≢ j → get_or (set xs i v) j 0 ≡ get_or xs j 0
get_or-set_ne [] i j v h = refl
get_or-set_ne (x ∷ xs) zero zero v h = absurd (h refl)
get_or-set_ne (x ∷ xs) zero (suc j) v h = refl
get_or-set_ne (x ∷ xs) (suc i) zero v h = refl
get_or-set_ne (x ∷ xs) (suc i) (suc j) v h = get_or-set_ne xs i j v (λ e. h (ap suc e))

module _ (size : ℕ) where
  -- The index `n` places behind `i`, going round once.
  abbrev place : ℕ → ℕ → ℕ
  place i n = if ltb (i + n) size then i + n else i + n - size

  next_place : (i : ℕ) → i < size → (i + 1) % size ≡ place i 1
  next_place i h = elim (Bool-cases (ltb (i + 1) size)) [
    | inl e ↦ rw e (mod-eq_of_lt (ground arith))
    | inr e ↦
        rw e (let last : i + 1 ≡ size = ground arith in rw last (omega (arith, mod_self size)))
  ]

  place-zero : (i : ℕ) → i < size → place i 0 ≡ i
  place-zero i h = ground arith

  place-suc : (i n : ℕ) → i < size → suc n < size → place i (suc n) ≡ place ((i + 1) % size) n
  place-suc i n hi hn = rw (next_place i hi) (ground arith)

  place-ne : (i n : ℕ) → i < size → suc n < size → place i (suc n) ≢ i
  place-ne i n hi hn = ground arith

  -- The `n` bytes from index `i` on, going round at the end of the array.
  abbrev pub span : List ℕ → ℕ → ℕ → List ℕ
  span buf i zero = []
  span buf i (suc n) = get_or buf i 0 ∷ span buf ((i + 1) % size) n

  length-span : (buf : List ℕ) (i n : ℕ) → length (span buf i n) ≡ n
  length-span buf i zero = refl
  length-span buf i (suc n) = ap suc (length-span buf ((i + 1) % size) n)

  -- A byte written at the place behind a span extends it.
  span-set :
      (buf : List ℕ) (x i n h : ℕ)
      → length buf ≡ size
      → i < size
      → n < size
      → h ≡ place i n
      → span (set buf h x) i (suc n) ≡ span buf i n ++ (x ∷ [])
  span-set buf x i zero h l hi hn e =
      rw (e ∙ place-zero i hi, get_or-set_self buf i x (omega arith))
  span-set buf x i (suc n) h l hi hn e =
      ap₂ ◌∷◌ (get_or-set_ne buf h i x (λ q. place-ne i n hi hn (sym e ∙ q))) (
        span-set buf x ((i + 1) % size) n h l (omega arith) (omega arith) (e ∙ place-suc i n hi hn))

  take-span : (buf : List ℕ) (i k n : ℕ) → k ≤ n → take k (span buf i n) ≡ span buf i k
  take-span buf i zero n h = refl
  take-span buf i (suc k) zero h = absurd (omega arith)
  take-span buf i (suc k) (suc n) h =
      ap (◌∷◌ (get_or buf i 0)) (take-span buf ((i + 1) % size) k n (omega arith))

  -- The bytes that wait in the buffer, oldest first.
  unfoldable pub contents : Ring → List ℕ
  contents r = span r.buf r.tail (rx_count size r)

  place-tail : (r : Ring) → IsRing size r → place r.tail (rx_count size r) ≡ r.head
  unfolding rx_count
  place-tail r v = ground arith

  pub rx_count-lt : (r : Ring) → IsRing size r → rx_count size r < size
  unfolding rx_count
  rx_count-lt r v = ground arith

  -- One turn of the loop that writes.
  abbrev put : Ring → ℕ → Ring
  put r x = record r { buf = set r.buf r.head x; head = (r.head + 1) % size }

  put-IsRing : (r : Ring) (x : ℕ) → IsRing size r → IsRing size (put r x)
  put-IsRing r x v = omega (arith, length-set r.buf r.head x)

  put-rx_count :
      (r : Ring) (x : ℕ)
      → IsRing size r
      → rx_count size r + 1 < size
      → rx_count size (put r x) ≡ rx_count size r + 1
  unfolding rx_count
  put-rx_count r x v room = rw (next_place r.head v.head_in) (ground arith)

  put-contents :
      (r : Ring) (x : ℕ)
      → IsRing size r
      → rx_count size r + 1 < size
      → contents (put r x) ≡ contents r ++ (x ∷ [])
  unfolding contents
  put-contents r x v room =
      rw (put-rx_count r x v room, add-one)
        (span-set r.buf x r.tail (rx_count size r) r.head v.length_buf v.tail_in (omega arith)
          (sym (place-tail r v)))

  pub write_bytes_lem :
      (r : Ring) (xs : List ℕ)
      → IsRing size r
      → rx_count size r + length xs < size
      → IsRing size (write_bytes size r xs)
        × (contents (write_bytes size r xs) ≡ contents r ++ xs)
        × (rx_count size (write_bytes size r xs) ≡ rx_count size r + length xs)
  unfolding write_bytes
  write_bytes_lem r [] v room = (v, sym (append-nil (contents r)), omega arith)
  write_bytes_lem r (x ∷ xs) v room =
      let n = put-rx_count r x v (omega arith) in
      let (v', e, k) = write_bytes_lem (put r x) xs (put-IsRing r x v) (omega arith) in
      (
        v',
        e
            ∙ ap (λ t. t ++ xs) (put-contents r x v (omega arith))
            ∙ append_assoc (contents r) (x ∷ []) xs,
        omega arith,
      )

  -- One turn of the loop that reads.
  abbrev pop : Ring → Ring
  pop r = record r { tail = (r.tail + 1) % size }

  pop-IsRing : (r : Ring) → IsRing size r → IsRing size (pop r)
  pop-IsRing r v = omega arith

  pop-rx_count :
      (r : Ring)
      → IsRing size r
      → 0 < rx_count size r
      → rx_count size r ≡ suc (rx_count size (pop r))
  unfolding rx_count
  pop-rx_count r v some_left = rw (next_place r.tail v.tail_in) (ground arith)

  pub read_bytes_lem :
      (k : ℕ) (r : Ring)
      → IsRing size r
      → k ≤ rx_count size r
      → let (bytes, r') = read_bytes size k r in
        IsRing size r'
        × (contents r ≡ bytes ++ contents r')
        × (length bytes ≡ k)
        × (rx_count size r ≡ k + rx_count size r')
  unfolding read_bytes contents
  read_bytes_lem zero r v h = (v, refl, refl, omega arith)
  read_bytes_lem (suc k) r v h =
      let n = pop-rx_count r v (omega arith) in
      let (v', e, l, m) = read_bytes_lem k (pop r) (pop-IsRing r v) (omega arith) in
      (v', rw n (ap (◌∷◌ (get_or r.buf r.tail 0)) e), ap suc l, omega arith)

  pub length-contents : (r : Ring) → length (contents r) ≡ rx_count size r
  unfolding contents
  length-contents r = length-span r.buf r.tail (rx_count size r)
