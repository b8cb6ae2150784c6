-- ===== src/Boot.antt =====
-- src/VIA_STM32F1_Boot.cpp and its header: the steps to the STM32 system boot loader.
pub mod Steps
use via_arduino.Base.{ℕ, Bool, true, false, not, ◌&&◌, ◌||◌, List, replicate, if◌then◌else◌}
use via_arduino.Keyboard.{KeyboardHid}
use via_arduino.Keyboard.Report.{KeyboardReport}
use via_arduino.Protocol.Board.{Board, State}
use via_arduino.Protocol.Persist.{save}

-- The states of BootCoordinator, and `entered` after the jump of kDetach, which does not return.
pub data BootState : Type 0 where
  idle dirty_save keyboard_release via_release detach jump entered : BootState

pub record Coordinator (S C H : Type 0) : Type 0 where
  pub protocol : State S C
  pub hid : H
  pub boot_state : BootState

-- A report with no key down.
abbrev pub release_report : KeyboardReport
release_report = record { modifiers = 0; keys = replicate 6 0 }

unfoldable pub request : {S C H : Type 0} → Coordinator S C H → Bool × Coordinator S C H
request s = elim s.boot_state [
  | idle ↦ (true, record s { boot_state = dirty_save })
  | _ ↦ (false, s)
]

module _ {S C H : Type 0} (b : Board S C) (hid : KeyboardHid H) where
  unfoldable pub save_step : Coordinator S C H → Coordinator S C H
  save_step s =
      let (saved, protocol') = save b s.protocol in
      let p = if s.protocol.dirty then protocol' else s.protocol in
      let (_, h) = hid.send release_report s.hid in
      if s.protocol.dirty && not saved
      then record s { protocol = p; boot_state = idle }
      else record s {
        protocol = p;
        hid = if hid.configured s.hid then h else s.hid;
        boot_state = keyboard_release;
      }

  unfoldable pub release_step : Coordinator S C H → Coordinator S C H
  release_step s =
      let (complete, h) = hid.send_complete s.hid in
      if not (hid.configured s.hid)
      then record s { boot_state = via_release }
      else record s { hid = h; boot_state = if complete then via_release else s.boot_state }

  unfoldable pub task : Coordinator S C H → Coordinator S C H
  unfolding save_step release_step
  task s = elim s.boot_state [
    | idle ↦ s
    | dirty_save ↦ save_step s
    | keyboard_release ↦ release_step s
    | via_release ↦ record s { boot_state = detach }
    | detach ↦ record s { boot_state = entered }
    | jump ↦ s
    | entered ↦ s
  ]
