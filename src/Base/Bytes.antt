-- ===== src/Base/Bytes.antt =====
-- Big-endian fields. `(x >> k) & 0xFF` is `x / 2 ^ k % 256`, and `(a << 8) | b` is `a * 256 + b`,
-- which agree on bytes.
use Prim.Native.Nat.{ℕ, ◌+◌, ◌*◌, ◌/◌, ◌%◌, ◌^◌, ◌<◌}
use mathlib.Core.Path.{◌≡◌}
use native.Mathlib.Omega.{arith}

-- The byte of `x` that stands `8 * k` bits up: `(uint8_t)((x >> 8k) & 0xFF)`.
abbrev pub byte_at : ℕ → ℕ → ℕ
byte_at k x = x / 256 ^ k % 256

abbrev pub be16 : ℕ → ℕ → ℕ
be16 hi lo = hi * 256 + lo

abbrev pub be32 : ℕ → ℕ → ℕ → ℕ → ℕ
be32 a b c d = a * 16777216 + b * 65536 + c * 256 + d

-- `++` on a `uint8_t`, a `uint16_t`; `+=` on a `uint32_t`.
abbrev pub inc8 : ℕ → ℕ
inc8 x = (x + 1) % 256

abbrev pub inc16 : ℕ → ℕ
inc16 x = (x + 1) % 65536

abbrev pub add32 : ℕ → ℕ → ℕ
add32 x y = (x + y) % 4294967296

-- Splitting and joining are inverse on values of the field's width.
pub be16_round_trip : (x : ℕ) → x < 65536 → be16 (byte_at 1 x) (byte_at 0 x) ≡ x
be16_round_trip x h = omega arith

pub be32_round_trip :
    (x : ℕ) → x < 4294967296 → be32 (byte_at 3 x) (byte_at 2 x) (byte_at 1 x) (byte_at 0 x) ≡ x
be32_round_trip x h = omega arith
