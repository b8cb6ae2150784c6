-- ===== src/Base/Words.antt =====
-- The fixed widths of the source: casts, wrapping subtraction, complement, shifts, and the
-- little-endian bytes of a word, which is how the supported boards lay out memory.
use Prim.Native.Nat.{bit_or}
use Prim.Native.Nat.{ℕ, ◌+◌, ◌-◌, ◌*◌, ◌/◌, ◌%◌, ◌^◌, ◌<◌}
use mathlib.Core.Path.{◌≡◌}
use mathlib.Core.List.{List, [], ◌∷◌}
use native.Mathlib.Omega.{arith}

abbrev pub u8 : ℕ → ℕ
u8 n = n % 2 ^ 8

abbrev pub u16 : ℕ → ℕ
u16 n = n % 2 ^ 16

abbrev pub u32 : ℕ → ℕ
u32 n = n % 2 ^ 32

-- uint32_t a - b, with its wrap.
abbrev pub sub32 : ℕ → ℕ → ℕ
sub32 a b = (a + 2 ^ 32 - b) % 2 ^ 32

-- ~a at 32 bits.
abbrev pub not32 : ℕ → ℕ
not32 a = 2 ^ 32 - 1 - a

infixl 75 ◌<<<◌ ◌>>>◌
abbrev pub ◌<<<◌ : ℕ → ℕ → ℕ
x <<< k = x * 2 ^ k

abbrev pub ◌>>>◌ : ℕ → ℕ → ℕ
x >>> k = x / 2 ^ k

-- The words that the packets hold big-endian: (hi << 8) | lo, and the same of four bytes.
abbrev pub be16 : ℕ → ℕ → ℕ
be16 hi lo = bit_or (hi <<< 8) lo

abbrev pub be32 : ℕ → ℕ → ℕ → ℕ → ℕ
be32 a b c d = bit_or (bit_or (bit_or (a <<< 24) (b <<< 16)) (c <<< 8)) d

abbrev pub le16_bytes : ℕ → List ℕ
le16_bytes w = w % 256 ∷ w / 256 % 256 ∷ []

abbrev pub le32_bytes : ℕ → List ℕ
le32_bytes w = w % 256 ∷ w / 256 % 256 ∷ w / 65536 % 256 ∷ w / 16777216 % 256 ∷ []

abbrev pub le16 : ℕ → ℕ → ℕ
le16 a b = a + b * 256

abbrev pub le32 : ℕ → ℕ → ℕ → ℕ → ℕ
le32 a b c d = a + b * 256 + c * 65536 + d * 16777216

pub le16_roundtrip : (w : ℕ) → w < 2 ^ 16 → le16 (w % 256) (w / 256 % 256) ≡ w
le16_roundtrip w h = omega arith

pub le32_roundtrip :
    (w : ℕ) → w < 2 ^ 32 → le32 (w % 256) (w / 256 % 256) (w / 65536 % 256) (w / 16777216 % 256) ≡ w
le32_roundtrip w h = omega arith
