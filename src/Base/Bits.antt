-- ===== src/Base/Bits.antt =====
-- Laws of `bit_and` and `bit_or` at variables: the equation for the lowest digit, and from it the
-- masks and the disjoint fields that the source uses.
use Prim.Native.Nat.{ℕ, zero, suc, ◌+◌, ◌*◌, ◌/◌, ◌%◌, ◌^◌, ◌≤◌, ◌<◌, ◌-◌, min, max}
use Prim.Native.Nat.{bit_and, bit_or, bit_xor, digits, bitwise, differ}
use Prim.Native.Nat.{bit_and-bitwise, bit_or-bitwise, bit_xor-bitwise}
use mathlib.Core.Path.{◌≡◌, refl, ap, ◌∙◌}
use native.Mathlib.Nat.{pow-suc}
use native.Mathlib.Omega.{arith}

-- The digit recursion does not depend on its fuel, once that covers the first argument.
module _ (rest : ℕ → ℕ) (op : ℕ → ℕ → ℕ) where
  digits_any_fuel : (m n a b : ℕ) → a ≤ m → a ≤ n → digits rest op m a b ≡ digits rest op n a b
  digits_any_fuel zero zero a b p q = refl
  digits_any_fuel zero (suc n) zero b p q = refl
  digits_any_fuel zero (suc n) (suc a) b p q = absurd (omega arith)
  digits_any_fuel (suc m) zero zero b p q = refl
  digits_any_fuel (suc m) zero (suc a) b p q = absurd (omega arith)
  digits_any_fuel (suc m) (suc n) zero b p q = refl
  digits_any_fuel (suc m) (suc n) (suc a) b p q =
      rw (digits_any_fuel m n (suc a / 2) (b / 2) (omega arith) (omega arith))

  lowest_digit :
      (a b : ℕ)
      → bitwise rest op (suc a) b ≡ bitwise rest op (suc a / 2) (b / 2) * 2 + op (suc a % 2) (b % 2)
  lowest_digit a b =
      omega (arith, digits_any_fuel (suc a / 2) a (suc a / 2) (b / 2) (omega arith) (omega arith))

pub bit_and-lowest : (a b : ℕ) → bit_and a b ≡ bit_and (a / 2) (b / 2) * 2 + min (a % 2) (b % 2)
bit_and-lowest zero b = simp bit_and-bitwise (omega arith)
bit_and-lowest (suc a) b = simp bit_and-bitwise (lowest_digit (λ y. 0) min a b)

pub bit_or-lowest : (a b : ℕ) → bit_or a b ≡ bit_or (a / 2) (b / 2) * 2 + max (a % 2) (b % 2)
bit_or-lowest zero b = simp bit_or-bitwise (omega arith)
bit_or-lowest (suc a) b = simp bit_or-bitwise (lowest_digit (λ y. y) max a b)

pub bit_xor-lowest : (a b : ℕ) → bit_xor a b ≡ bit_xor (a / 2) (b / 2) * 2 + (a % 2 + b % 2) % 2
bit_xor-lowest zero b = simp bit_xor-bitwise (omega arith)
bit_xor-lowest (suc a) b =
    simp bit_xor-bitwise
      (omega (arith, lowest_digit (λ y. y) differ a b, digits_differ (suc a % 2) (b % 2)))
  where
    digits_differ : (x y : ℕ) → x < 2 → y < 2 → differ x y ≡ (x + y) % 2
    digits_differ zero y h k = omega arith
    digits_differ (suc zero) zero h k = refl
    digits_differ (suc zero) (suc zero) h k = refl
    digits_differ (suc zero) (suc (suc y)) h k = absurd (omega arith)
    digits_differ (suc (suc x)) y h k = absurd (omega arith)

pub bit_xor-zero : (a : ℕ) → bit_xor a 0 ≡ a
bit_xor-zero a = bit_xor-zero_below a a (omega arith)
  where
    bit_xor-zero_below : (n a : ℕ) → a ≤ n → bit_xor a 0 ≡ a
    bit_xor-zero_below n zero h = refl
    bit_xor-zero_below zero (suc a) h = absurd (omega arith)
    bit_xor-zero_below (suc n) (suc a) h =
        omega (arith, bit_xor-lowest (suc a) 0, bit_xor-zero_below n (suc a / 2) (omega arith))

bit_and-zero_below : (n a : ℕ) → a ≤ n → bit_and a 0 ≡ 0
bit_and-zero_below n zero h = refl
bit_and-zero_below zero (suc a) h = absurd (omega arith)
bit_and-zero_below (suc n) (suc a) h =
    omega (arith, bit_and-lowest (suc a) 0, bit_and-zero_below n (suc a / 2) (omega arith))

pub bit_and-zero : (a : ℕ) → bit_and a 0 ≡ 0
bit_and-zero a = bit_and-zero_below a a (omega arith)

pub zero-bit_and : (b : ℕ) → bit_and 0 b ≡ 0
zero-bit_and b = simp bit_and-bitwise

pub zero-bit_or : (b : ℕ) → bit_or 0 b ≡ b
zero-bit_or b = simp bit_or-bitwise

bit_or_comm_below : (n a b : ℕ) → a ≤ n → b ≤ n → bit_or a b ≡ bit_or b a
bit_or_comm_below zero zero zero p q = refl
bit_or_comm_below zero zero (suc b) p q = absurd (omega arith)
bit_or_comm_below zero (suc a) b p q = absurd (omega arith)
bit_or_comm_below (suc n) a b p q = omega (
  arith,
  bit_or-lowest a b,
  bit_or-lowest b a,
  bit_or_comm_below n (a / 2) (b / 2) (omega arith) (omega arith),
)

pub bit_or_comm : (a b : ℕ) → bit_or a b ≡ bit_or b a
bit_or_comm a b = bit_or_comm_below (a + b) a b (omega arith) (omega arith)

double_pow : (q k : ℕ) → q * 2 ^ suc k ≡ q * 2 ^ k * 2
double_pow q k = omega (arith, ap (λ (t : ℕ). q * t) (pow-suc 2 k))

-- `(q << k) | r` is a sum when `r` fits below bit `k`.
pub bit_or_disjoint : (k q r : ℕ) → r < 2 ^ k → bit_or r (q * 2 ^ k) ≡ q * 2 ^ k + r
bit_or_disjoint zero q zero h = omega (arith, zero-bit_or (q * 2 ^ 0))
bit_or_disjoint zero q (suc r) h = absurd (omega arith)
bit_or_disjoint (suc k) q r h = ground (
  arith,
  bit_or-lowest r (q * 2 ^ suc k),
  double_pow q k,
  pow-suc 2 k,
  bit_or_disjoint k q (r / 2),
)

-- A mask shifted past the low bits.
bit_and_shifted :
    (k q r m : ℕ) → r < 2 ^ k → bit_and (q * 2 ^ k + r) (m * 2 ^ k) ≡ bit_and q m * 2 ^ k
bit_and_shifted zero q zero m h =
    omega (arith, ap (λ (t : ℕ). bit_and t m) (one q), ap (bit_and (q * 1 + 0)) (one' m))
  where
    one : (x : ℕ) → x * 1 + 0 ≡ x
    one x = omega arith

    one' : (x : ℕ) → x * 1 ≡ x
    one' x = omega arith
bit_and_shifted zero q (suc r) m h = absurd (omega arith)
bit_and_shifted (suc k) q r m h = ground (
  arith,
  bit_and-lowest (q * 2 ^ suc k + r) (m * 2 ^ suc k),
  double_pow q k,
  double_pow m k,
  double_pow (bit_and q m) k,
  pow-suc 2 k,
  bit_and_shifted k q (r / 2) m,
)

pub bit_and-one : (a : ℕ) → bit_and a 1 ≡ a % 2
bit_and-one a = omega (arith, bit_and-lowest a 1, bit_and-zero (a / 2))

pub pow_pos : (j : ℕ) → 0 < 2 ^ j
pow_pos zero = omega arith
pow_pos (suc j) = omega (arith, pow-suc 2 j, pow_pos j)

bit_and_low : (k q r : ℕ) → r < 2 ^ k → bit_and (q * 2 ^ k + r) (2 ^ k - 1) ≡ r
bit_and_low zero q r h = ground (arith, bit_and-zero (q * 2 ^ 0 + r))
bit_and_low (suc k) q r h = ground (
  arith,
  bit_and-lowest (q * 2 ^ suc k + r) (2 ^ suc k - 1),
  double_pow q k,
  pow-suc 2 k,
  pow_pos k,
  bit_and_low k q (r / 2),
)

-- A mask of `k` low bits is the remainder by `2 ^ k`.
pub bit_and_mask : (k a : ℕ) → bit_and a (2 ^ k - 1) ≡ a % 2 ^ k
bit_and_mask k a = ground (arith, pow_pos k, bit_and_low k (a / 2 ^ k) (a % 2 ^ k))

pub bit_and_low_byte : (a : ℕ) → bit_and a 0x00FF ≡ a % 256
bit_and_low_byte a = bit_and_mask 8 a

pub bit_and_high_byte : (a : ℕ) → a < 2 ^ 16 → bit_and a 0xFF00 ≡ a / 256 * 256
bit_and_high_byte a h =
    ap (λ (t : ℕ). bit_and t 0xFF00) split
    ∙ bit_and_shifted 8 (a / 256) (a % 256) 255 (omega arith)
    ∙ omega (arith, bit_and_mask 8 (a / 256))
  where
    split : a ≡ a / 256 * 2 ^ 8 + a % 256
    split = omega arith

-- The same with the high field first, as the source writes it.
pub bit_or_fields : (k q r : ℕ) → r < 2 ^ k → bit_or (q * 2 ^ k) r ≡ q * 2 ^ k + r
bit_or_fields k q r h = bit_or_comm (q * 2 ^ k) r ∙ bit_or_disjoint k q r h

pub be16_lem : (hi lo : ℕ) → lo < 256 → bit_or (hi * 2 ^ 8) lo ≡ hi * 256 + lo
be16_lem hi lo h = bit_or_fields 8 hi lo h

pub be32_lem :
    (a b c d : ℕ)
    → b < 256
    → c < 256
    → d < 256
    → bit_or (bit_or (bit_or (a * 2 ^ 24) (b * 2 ^ 16)) (c * 2 ^ 8)) d
      ≡ ((a * 256 + b) * 256 + c) * 256 + d
be32_lem a b c d hb hc hd =
    let first : bit_or (a * 2 ^ 24) (b * 2 ^ 16) ≡ (a * 256 + b) * 2 ^ 16 =
      bit_or_fields 24 a (b * 2 ^ 16) (omega arith) ∙ omega arith in
    let second : bit_or ((a * 256 + b) * 2 ^ 16) (c * 2 ^ 8) ≡ ((a * 256 + b) * 256 + c) * 2 ^ 8 =
      bit_or_fields 16 (a * 256 + b) (c * 2 ^ 8) (omega arith) ∙ omega arith in
    ap (λ t. bit_or (bit_or t (c * 2 ^ 8)) d) first
    ∙ ap (λ t. bit_or t d) second
    ∙ bit_or_fields 8 ((a * 256 + b) * 256 + c) d hd
