-- ===== src/Keyboard.antt =====
-- src/VIA_Keyboard.cpp and class Keyboard of src/VIA_Keyboard.h: from the debounced matrix to the
-- HID keyboard reports.
pub mod Report
pub mod Pass
pub mod Keys
use via_arduino.Base.{ℕ, ◌+◌, ◌*◌, Bool, true, false, not, ◌&&◌, List, [], ◌∷◌}
use via_arduino.Base.{ltb, ◌==◌, if◌then◌else◌, u8, take}
use via_arduino.Layers.{LayerState}
use via_arduino.Matrix.{Matrix, nonzero_rows, has_changed}
use via_arduino.Keyboard.Report.{KeyboardReport, build_report, same_report}
use via_arduino.Keyboard.Pass.{KeyboardConfig, Held, run_passes}

-- class KeyboardHID. `host_leds` are the values that takeHostLeds hands out until it returns false.
pub record KeyboardHid (H : Type 0) : Type 0 where
  pub configured : H → Bool
  pub send : KeyboardReport → H → Bool × H
  pub send_complete : H → Bool × H
  pub host_leds : H → List ℕ × H
  pub suspended : H → Bool
  pub remote_wakeup_allowed : H → Bool
  pub remote_wakeup : H → Bool × H

-- A call of a method of class KeyboardCallbacks.
pub data Event : Type 0 where
  host_leds_changed : ℕ → Event
  bootloader_requested : Event

-- The members of Keyboard that change, with the array activeCodes, and the callbacks so far.
pub record Keyboard : Type 0 where
  pub held : Held
  pub pending_report : KeyboardReport
  pub report_pending : Bool
  pub last_accepted_report : KeyboardReport
  pub last_host_leds : ℕ
  pub wake_requested : Bool
  pub was_suspended : Bool
  pub events : List Event

-- The loop over takeHostLeds.
unfoldable pub tell_leds : Bool → List ℕ → Keyboard → Keyboard
tell_leds callbacks [] k = k
tell_leds callbacks (leds ∷ rest) k = tell_leds callbacks rest (
    if callbacks && not (leds == k.last_host_leds)
    then record k { last_host_leds = leds; events = host_leds_changed leds ∷ k.events }
    else k)

-- Some key is down.
abbrev pub some_active : List ℕ → Bool
some_active [] = false
some_active (code ∷ codes) = if code == 0 then some_active codes else true

module _ {H : Type 0} (hid : KeyboardHid H) (config : KeyboardConfig) (callbacks : Bool) where
  unfoldable pub retry_report : Keyboard × H → Keyboard × H
  retry_report (k, h) =
      let (complete, h') = hid.send_complete h in
      let (_, h'') = hid.send k.pending_report h' in
      if not k.report_pending
      then (k, h)
      else if complete
      then (record k { last_accepted_report = k.pending_report; report_pending = false }, h')
      else (k, h'')

  -- `const uint8_t total = rows * cols`
  abbrev pub total : ℕ
  total = u8 (config.rows * config.columns)

  unfoldable pub while_suspended : Keyboard × H → Keyboard × H
  while_suspended (k, h) =
      let (_, h') = hid.remote_wakeup h in
      let asleep = record k { was_suspended = true } in
      if hid.remote_wakeup_allowed h && not k.wake_requested
      then (if some_active (take total k.held.active_codes)
          then (record asleep { wake_requested = true }, h')
          else (asleep, h))
      else (asleep, h)

  -- The new report is sent if it differs from the one pending, or else from the last one accepted.
  unfoldable pub send_changes : Keyboard × H → Keyboard × H
  unfolding build_report same_report
  send_changes (k, h) =
      let desired = build_report (take total k.held.active_codes) in
      let (_, h') = hid.send desired h in
      if k.report_pending
      then (if same_report desired k.pending_report
          then (k, h)
          else (record k { pending_report = desired }, h'))
      else if same_report desired k.last_accepted_report
      then (k, h)
      else (record k { pending_report = desired; report_pending = true }, h')

  unfoldable pub after_passes : Bool → Keyboard × H → Keyboard × H
  unfolding while_suspended send_changes
  after_passes boot_pending (k, h) =
      let awake = record k { was_suspended = false; wake_requested = false } in
      let (k', h') = send_changes (awake, h) in
      let told = record k' { events = bootloader_requested ∷ k'.events } in
      if hid.suspended h
      then while_suspended (k, h)
      else (if boot_pending && callbacks then told else k', h')

  -- task() from `changedRows` on.
  unfoldable pub scan_changes : List ℕ → Matrix → Keyboard × H → Matrix × Keyboard × H
  unfolding after_passes nonzero_rows has_changed run_passes
  scan_changes keymap m (k, h) =
      let c_rows = nonzero_rows 0 m.changed_rows in
      let resumed = k.was_suspended && not (hid.suspended h) in
      let (_, m') = has_changed m in
      let (held', boot_pending) =
        run_passes config keymap c_rows m.changed_rows m.stable_rows k.held in
      let k' = record k { held = held' } in
      if c_rows == 0 && not resumed
      then (m, record k { was_suspended = hid.suspended h }, h)
      else if c_rows == 0
      then (let (k'', h') = after_passes false (k, h) in (m', k'', h'))
      else (let (k'', h') = after_passes boot_pending (k', h) in (m', k'', h'))

  unfoldable pub task : List ℕ → Matrix → Keyboard × H → Matrix × Keyboard × H
  unfolding tell_leds retry_report scan_changes
  task keymap m (k, h) =
      let (leds, h') = hid.host_leds h in
      scan_changes keymap m (retry_report (tell_leds callbacks leds k, h'))

unfoldable pub begin : KeyboardConfig → Bool → Bool
begin config has_codes = ltb 0 config.rows && (ltb 0 config.columns && has_codes)
