-- ===== src/Battery/Average.antt =====
-- The running sum of the battery is the sum of its samples, and the level is a percentage.
use via_arduino.Base.{ℕ, zero, suc, ◌+◌, ◌-◌, ◌*◌, ◌/◌, ◌≤◌, ◌<◌, ◌^◌, ◌≡◌, arith, List, [], ◌∷◌}
use via_arduino.Base.{get_or, set, length, length-set, ◌∙◌}
use native.Mathlib.Nat.{div-lt_iff_lt-mul}
use via_arduino.Protocol.Valid.{Below, Below-set, get_or-lt}
use via_arduino.Battery.{BatteryMgr, update, percentage, clamped, average_mv}

unfoldable pub total : List ℕ → ℕ
total [] = 0
total (x ∷ xs) = x + total xs

total-set :
    (xs : List ℕ) (i v : ℕ) → i < length xs → total (set xs i v) + get_or xs i 0 ≡ total xs + v
unfolding total
total-set [] i v h = absurd (omega arith)
total-set (x ∷ xs) zero v h = omega arith
total-set (x ∷ xs) (suc i) v h = omega (arith, total-set xs i v (omega arith))

total-le : (xs : List ℕ) (n : ℕ) → Below n xs → total xs ≤ length xs * n
unfolding total
total-le [] n h = omega arith
total-le (x ∷ xs) n h = grind (arith, total-le xs n h.1, h.0)

-- The 32 samples, all in range, with their sum; the average is over at most 32 of them.
pub record IsCoherent (m : BatteryMgr) : Type 0 where
  pub slots : length m.circular ≡ 32
  pub samples : Below (2 ^ 16) m.circular
  pub summed : m.sample_sum ≡ total m.circular
  pub window : (0 < m.avg_samples) × (m.avg_samples ≤ 32)
  pub index : m.sample_index < m.avg_samples
  pub counted : m.sample_count ≤ m.avg_samples

-- With an average over 1 to 32 samples and maxMv in 16 bits: each reading replaces one kept sample,
-- the running sum stays the sum of the kept samples, and the indices stay inside the ring.
pub update-IsCoherent :
    (raw : ℕ) (m : BatteryMgr) → m.max_mv < 2 ^ 16 → IsCoherent m → IsCoherent (update raw m)
unfolding update
update-IsCoherent raw m small c =
    let mv : clamped raw m < 2 ^ 16 = ground arith in
    record {
      slots = length-set m.circular m.sample_index (clamped raw m) ∙ c.slots;
      samples = Below-set (2 ^ 16) m.circular m.sample_index (clamped raw m) c.samples mv;
      summed = omega (
        arith,
        c.summed,
        total-set m.circular m.sample_index (clamped raw m)
            (omega (arith, c.slots, c.index, c.window)),
        total-le m.circular (2 ^ 16) c.samples,
        c.slots,
        mv,
        get_or-lt (2 ^ 16) m.circular m.sample_index (omega arith) c.samples,
      );
      window = c.window;
      index = ground (arith, c.index, c.window);
      counted = ground (arith, c.counted);
    }

level-le : (avg lo hi : ℕ) → lo < avg → avg < hi → (avg - lo) * 100 / (hi - lo) < 101
level-le avg lo hi h k = (div-lt_iff_lt-mul (omega arith)).1 (omega arith)

-- The level is at most 100 percent, whatever was measured.
pub percentage-le : (m : BatteryMgr) → m.min_mv < 2 ^ 16 → m.max_mv < 2 ^ 16 → percentage m ≤ 100
unfolding percentage
percentage-le m h k = ground (arith, level-le (average_mv m) m.min_mv m.max_mv)
