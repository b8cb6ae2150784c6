-- ===== src/Sleep.antt =====
-- src/VIA_SleepMgr.h: the inactivity timer that asks for sleep.
pub mod Once
use via_arduino.Base.{ℕ, Bool, true, false, leb, if◌then◌else◌, sub32}

pub record SleepMgr : Type 0 where
  pub timeout_ms : ℕ
  pub last_activity_ts : ℕ
  pub sleep_requested : Bool

abbrev pub new_sleep : SleepMgr
new_sleep = record { timeout_ms = 300000; last_activity_ts = 0; sleep_requested = false }

unfoldable pub configure : ℕ → SleepMgr → SleepMgr
configure timeout_ms s = record s { timeout_ms = timeout_ms }

unfoldable pub update : Bool → ℕ → SleepMgr → Bool × SleepMgr
update any_activity now s =
    if any_activity
    then (false, record s { last_activity_ts = now; sleep_requested = false })
    else if s.sleep_requested
    then (false, s)
    else if leb s.timeout_ms (sub32 now s.last_activity_ts)
    then (true, record s { sleep_requested = true })
    else (false, s)
