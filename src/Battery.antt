-- ===== src/Battery.antt =====
-- src/VIA_Battery.h: the averaged battery level.
pub mod Average
use via_arduino.Base.{ℕ, ◌+◌, ◌-◌, ◌*◌, ◌/◌, ◌^◌, Bool, true, false, List}
use via_arduino.Base.{
  get_or, set, replicate, leb, ltb, ◌==◌, if◌then◌else◌, u8, u16, u32, sub32, ◌<<<◌,
}

pub record BatteryMgr : Type 0 where
  pub min_mv : ℕ
  pub max_mv : ℕ
  pub vref_mv : ℕ
  pub adc_bits : ℕ
  pub avg_samples : ℕ
  pub is_charging : Bool
  pub circular : List ℕ
  pub sample_index : ℕ
  pub sample_count : ℕ
  pub sample_sum : ℕ

abbrev pub new_battery : BatteryMgr
new_battery = record {
  min_mv = 3200;
  max_mv = 4200;
  vref_mv = 3300;
  adc_bits = 12;
  avg_samples = 32;
  is_charging = false;
  circular = replicate 32 0;
  sample_index = 0;
  sample_count = 0;
  sample_sum = 0;
}

unfoldable pub set_calibration : ℕ → ℕ → BatteryMgr → BatteryMgr
set_calibration min_mv max_mv m = record m { min_mv = min_mv; max_mv = max_mv }

unfoldable pub set_average_samples : ℕ → BatteryMgr → BatteryMgr
set_average_samples n m = record m { avg_samples = n }

unfoldable pub set_charging : Bool → BatteryMgr → BatteryMgr
set_charging state m = record m { is_charging = state }

unfoldable pub set_vref : ℕ → BatteryMgr → BatteryMgr
set_vref vref_mv m = record m { vref_mv = vref_mv }

unfoldable pub set_adc_bits : ℕ → BatteryMgr → BatteryMgr
set_adc_bits bits m = record m { adc_bits = bits }

-- The greatest reading, (1 << adcBits_) - 1; the source divides by it, so adcBits_ is not 0.
abbrev pub max_raw : BatteryMgr → ℕ
max_raw m = sub32 (u32 (1 <<< m.adc_bits)) 1

unfoldable pub raw_to_mv : ℕ → BatteryMgr → ℕ
raw_to_mv raw m = u16 (u32 (raw * m.vref_mv) / max_raw m)

unfoldable pub raw_from_mv : ℕ → BatteryMgr → ℕ
raw_from_mv mv m =
    let raw = u32 (mv * max_raw m) / m.vref_mv in if ltb 65535 raw then 65535 else u16 raw

-- The reading in millivolts, held between minMv_ and maxMv_.
unfoldable pub clamped : ℕ → BatteryMgr → ℕ
unfolding raw_to_mv
clamped raw m =
    let mv = raw_to_mv raw m in
    let low = if ltb mv m.min_mv then m.min_mv else mv in if ltb m.max_mv low then m.max_mv else low

unfoldable pub update : ℕ → BatteryMgr → BatteryMgr
unfolding clamped
update raw m =
    let mv = clamped raw m in
    let next = u8 (m.sample_index + 1) in
    record m {
      sample_sum = sub32 (u32 (m.sample_sum + mv)) (get_or m.circular m.sample_index 0);
      circular = set m.circular m.sample_index mv;
      sample_count =
          if ltb m.sample_count m.avg_samples then m.sample_count + 1 else m.sample_count;
      sample_index = if leb m.avg_samples next then 0 else next;
    }

unfoldable pub average_mv : BatteryMgr → ℕ
average_mv m = u16 (m.sample_sum / m.sample_count)

unfoldable pub percentage : BatteryMgr → ℕ
unfolding average_mv
percentage m =
    if m.sample_count == 0
    then 0
    else if leb (average_mv m) m.min_mv
    then 0
    else if leb m.max_mv (average_mv m)
    then 100
    else u8 ((average_mv m - m.min_mv) * 100 / (m.max_mv - m.min_mv))
