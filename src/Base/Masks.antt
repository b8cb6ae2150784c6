-- ===== src/Base/Masks.antt =====
-- Single bits of a mask: the tests, sets, flips and clears of `1UL << i`.
use Prim.Native.Nat.{ℕ, zero, suc, ◌-◌, ◌/◌, ◌%◌, ◌^◌, ◌≤◌, ◌<◌}
use Prim.Native.Nat.{bit_and, bit_or, bit_xor}
use mathlib.Core.Path.{◌≡◌, refl, sym, ap, ap₂, ◌∙◌}
use mathlib.Core.Bool.{Bool, false, not, ◌&&◌, ◌||◌}
use native.Mathlib.Omega.{arith}
use native.Mathlib.Nat.{pow-suc, mod-eq_of_lt}
use via_arduino.Base.Tests.{◌==◌, if◌then◌else◌}
use via_arduino.Base.Bits.{
  bit_and-lowest, bit_or-lowest, bit_and-zero, bit_xor-lowest, bit_xor-zero, zero-bit_or,
  bit_or_comm, bit_and_mask, pow_pos,
}

-- Bit `i` of a mask.
abbrev pub bit : ℕ → ℕ → Bool
bit m zero = m % 2 == 1
bit m (suc i) = bit (m / 2) i

pub bit_and-single : (m i : ℕ) → (bit_and m (2 ^ i) == 0) ≡ not (bit m i)
bit_and-single m zero = ground (arith, bit_and-lowest m 1, bit_and-zero (m / 2))
bit_and-single m (suc i) =
    ground (arith, bit_and-lowest m (2 ^ suc i), pow-suc 2 i, bit_and-single (m / 2) i)

bit_or-half : (a b : ℕ) → bit_or a b / 2 ≡ bit_or (a / 2) (b / 2)
bit_or-half a b = omega (arith, bit_or-lowest a b)

double-half : (i : ℕ) → 2 ^ suc i / 2 ≡ 2 ^ i
double-half i = omega (arith, pow-suc 2 i)

-- `m |= 1UL << i` sets bit i and keeps the others.
pub bit-bit_or : (m i j : ℕ) → bit (bit_or m (2 ^ i)) j ≡ bit m j || i == j
bit-bit_or m zero zero = ground (arith, bit_or-lowest m 1)
bit-bit_or m zero (suc j) =
    ap (λ t. bit t j) (bit_or-half m 1 ∙ bit_or_comm (m / 2) 0 ∙ zero-bit_or (m / 2)) ∙ ground arith
bit-bit_or m (suc i) zero = ground (arith, bit_or-lowest m (2 ^ suc i), pow-suc 2 i)
bit-bit_or m (suc i) (suc j) =
    ap (λ t. bit t j) (bit_or-half m (2 ^ suc i) ∙ ap (bit_or (m / 2)) (double-half i))
    ∙ bit-bit_or (m / 2) i j
    ∙ ground arith

bit_and-half : (a b : ℕ) → bit_and a b / 2 ≡ bit_and (a / 2) (b / 2)
bit_and-half a b = omega (arith, bit_and-lowest a b)

pub pow_lt : (i k : ℕ) → i < k → 2 ^ i < 2 ^ k
pow_lt i zero h = absurd (omega arith)
pow_lt zero (suc k) h = omega (arith, pow-suc 2 k, pow_pos k)
pow_lt (suc i) (suc k) h = omega (arith, pow-suc 2 k, pow-suc 2 i, pow_lt i k (omega arith))

-- The word of `k` ones but for bit i, and its half.
hole-half : (k i : ℕ) → i < k → (2 ^ suc k - 1 - 2 ^ suc i) / 2 ≡ 2 ^ k - 1 - 2 ^ i
hole-half k i h = omega (arith, pow-suc 2 k, pow-suc 2 i, pow_lt i k h)

ones-half : (k : ℕ) → (2 ^ suc k - 1 - 1) / 2 ≡ 2 ^ k - 1
ones-half k = omega (arith, pow-suc 2 k, pow_pos k)

-- `m &= ~(1UL << i)`, at k bits, clears bit i and keeps the others.
pub bit-bit_and :
    (k m i j : ℕ)
    → i < k
    → m < 2 ^ k
    → bit (bit_and m (2 ^ k - 1 - 2 ^ i)) j ≡ bit m j && not (i == j)
bit-bit_and zero m i j h small = absurd (omega arith)
bit-bit_and (suc k) m zero zero h small =
    ground (arith, bit_and-lowest m (2 ^ suc k - 1 - 1), pow-suc 2 k, pow_pos k)
bit-bit_and (suc k) m zero (suc j) h small =
    ap (λ t. bit t j)
      (bit_and-half m (2 ^ suc k - 1 - 1)
        ∙ ap (bit_and (m / 2)) (ones-half k)
        ∙ bit_and_mask k (m / 2)
        ∙ mod-eq_of_lt (omega (arith, pow-suc 2 k)))
    ∙ ground arith
bit-bit_and (suc k) m (suc i) zero h small =
    ground
      (arith, bit_and-lowest m (2 ^ suc k - 1 - 2 ^ suc i), pow-suc 2 k, pow-suc 2 i, pow_lt i k)
bit-bit_and (suc k) m (suc i) (suc j) h small =
    ap (λ t. bit t j)
      (bit_and-half m (2 ^ suc k - 1 - 2 ^ suc i)
        ∙ ap (bit_and (m / 2)) (hole-half k i (omega arith)))
    ∙ bit-bit_and k (m / 2) i j (omega arith) (omega (arith, pow-suc 2 k))
    ∙ ground arith

bit_xor-half : (a b : ℕ) → bit_xor a b / 2 ≡ bit_xor (a / 2) (b / 2)
bit_xor-half a b = omega (arith, bit_xor-lowest a b)

-- `m ^= 1UL << i` flips bit i and keeps the others.
pub bit-bit_xor :
    (m i j : ℕ) → bit (bit_xor m (2 ^ i)) j ≡ (if i == j then not (bit m j) else bit m j)
bit-bit_xor m zero zero = ground (arith, bit_xor-lowest m 1)
bit-bit_xor m zero (suc j) =
    ap (λ t. bit t j) (bit_xor-half m 1 ∙ bit_xor-zero (m / 2)) ∙ ground arith
bit-bit_xor m (suc i) zero = ground (arith, bit_xor-lowest m (2 ^ suc i), pow-suc 2 i)
bit-bit_xor m (suc i) (suc j) =
    ap (λ t. bit t j) (bit_xor-half m (2 ^ suc i) ∙ ap (bit_xor (m / 2)) (double-half i))
    ∙ bit-bit_xor (m / 2) i j
    ∙ ground arith

-- The word `1UL << i` alone, and the empty word.
pub bit-single : (i j : ℕ) → bit (2 ^ i) j ≡ i == j
bit-single i j =
    ap (λ t. bit t j) (sym (zero-bit_or (2 ^ i))) ∙ bit-bit_or 0 i j ∙ rw (zero-bit j) refl
  where
    zero-bit : (j : ℕ) → bit 0 j ≡ false
    zero-bit zero = refl
    zero-bit (suc j) = zero-bit j

pub bit_or-lt : (k a b : ℕ) → a < 2 ^ k → b < 2 ^ k → bit_or a b < 2 ^ k
bit_or-lt zero a b h l =
    omega (arith, bit_or-lowest a b, zero-bit_or 0, ap₂ bit_or (zeros a h) (zeros b l))
  where
    zeros : (a : ℕ) → a < 1 → a ≡ 0
    zeros a h = omega arith
bit_or-lt (suc k) a b h l = omega (
  arith,
  bit_or-lowest a b,
  pow-suc 2 k,
  bit_or-lt k (a / 2) (b / 2) (omega (arith, pow-suc 2 k)) (omega (arith, pow-suc 2 k)),
)

pub bit_xor_comm : (a b : ℕ) → bit_xor a b ≡ bit_xor b a
bit_xor_comm a b = comm_below a a b (omega arith)
  where
    comm_below : (n a b : ℕ) → a ≤ n → bit_xor a b ≡ bit_xor b a
    comm_below n zero b h =
        omega (arith, bit_xor-lowest 0 b, bit_xor-zero b, zero_below b b (omega arith))
      where
        zero_below : (n b : ℕ) → b ≤ n → bit_xor 0 b ≡ b
        zero_below zero b h = omega (arith, bit_xor-zero 0, ap (bit_xor 0) (zero_of b h))
          where
            zero_of : (b : ℕ) → b ≤ 0 → b ≡ 0
            zero_of b h = omega arith
        zero_below (suc n) b h =
            omega (arith, bit_xor-lowest 0 b, zero_below n (b / 2) (omega arith))
    comm_below zero (suc a) b h = absurd (omega arith)
    comm_below (suc n) (suc a) b h = omega (
      arith,
      bit_xor-lowest (suc a) b,
      bit_xor-lowest b (suc a),
      comm_below n (suc a / 2) (b / 2) (omega arith),
    )

pub bit_xor-lt : (k a b : ℕ) → a < 2 ^ k → b < 2 ^ k → bit_xor a b < 2 ^ k
bit_xor-lt zero a b h l =
    omega (arith, bit_xor-lowest a b, bit_xor-zero 0, ap₂ bit_xor (zeros a h) (zeros b l))
  where
    zeros : (a : ℕ) → a < 1 → a ≡ 0
    zeros a h = omega arith
bit_xor-lt (suc k) a b h l = omega (
  arith,
  bit_xor-lowest a b,
  pow-suc 2 k,
  bit_xor-lt k (a / 2) (b / 2) (omega (arith, pow-suc 2 k)) (omega (arith, pow-suc 2 k)),
)

-- `x ^ mask` with `k` ones is the complement.
pub bit_xor-ones : (k a : ℕ) → a < 2 ^ k → bit_xor a (2 ^ k - 1) ≡ 2 ^ k - 1 - a
bit_xor-ones zero a h = omega (arith, bit_xor-zero a)
bit_xor-ones (suc k) a h = omega (
  arith,
  bit_xor-lowest a (2 ^ suc k - 1),
  pow-suc 2 k,
  pow_pos k,
  bit_xor-ones k (a / 2) (omega (arith, pow-suc 2 k)),
  ap (bit_xor (a / 2)) (half k),
)
  where
    half : (k : ℕ) → (2 ^ suc k - 1) / 2 ≡ 2 ^ k - 1
    half k = omega (arith, pow-suc 2 k, pow_pos k)
