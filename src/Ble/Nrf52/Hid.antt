-- ===== src/Ble/Nrf52/Hid.antt =====
-- src/VIA_nRF52_BLE.h: the keyboard over the HID service of Bluefruit.
use via_arduino.Base.{ℕ, Bool, true, false, not, Option, none, some, List, [], ◌∷◌, if◌then◌else◌}
use via_arduino.Keyboard.{KeyboardHid}
use via_arduino.Keyboard.Report.{KeyboardReport}

-- The HID service and the connection: the LED callback, a report, and whether there is a connection.
pub record HidService (B : Type 0) : Type 0 where
  pub set_led_callback : B → B
  pub keyboard_report : ℕ → List ℕ → B → Bool × B
  pub connected : B → Bool

-- The members of one BLEKeyboardHID, named by a number, and the static activeAdapter, none for
-- nullptr.
pub record BleKeyboardHid (B : Type 0) : Type 0 where
  pub service : B
  pub active_adapter : Option ℕ
  pub leds_pending : Bool
  pub pending_leds : ℕ

unfoldable pub new_keyboard : {B : Type 0} → B → Option ℕ → BleKeyboardHid B
new_keyboard service active_adapter = record {
  service = service;
  active_adapter = active_adapter;
  leds_pending = false;
  pending_leds = 0;
}

module _ {B : Type 0} (ops : HidService B) where
  -- The callback, on the active adapter.
  unfoldable pub led_callback : ℕ → BleKeyboardHid B → BleKeyboardHid B
  led_callback leds s = elim s.active_adapter [
    | none ↦ s
    | some _ ↦ record s { pending_leds = leds; leds_pending = true }
  ]

  unfoldable pub begin : ℕ → BleKeyboardHid B → Bool × BleKeyboardHid B
  begin me s = elim s.active_adapter [
    | some _ ↦ (false, s)
    | none ↦ (true, record s { active_adapter = some me; service = ops.set_led_callback s.service })
  ]

  unfoldable pub send : KeyboardReport → BleKeyboardHid B → Bool × BleKeyboardHid B
  send r s =
      let (sent, service) = ops.keyboard_report r.modifiers r.keys s.service in
      (sent, record s { service = service })

  unfoldable pub take_host_leds : BleKeyboardHid B → Option ℕ × BleKeyboardHid B
  take_host_leds s =
      if s.leds_pending then (some s.pending_leds, record s { leds_pending = false }) else (none, s)

  -- What takeHostLeds hands out until it returns false: after a value it does, so there is one.
  unfoldable pub host_leds : BleKeyboardHid B → List ℕ × BleKeyboardHid B
  unfolding take_host_leds
  host_leds s =
      let (leds, s') = take_host_leds s in
      elim leds [ none ↦ ([], s') | some value ↦ (value ∷ [], s') ]

  unfoldable pub hid_ops : KeyboardHid (BleKeyboardHid B)
  unfolding send host_leds
  hid_ops = record {
    configured = λ s. ops.connected s.service;
    send = send;
    send_complete = λ s. (true, s);
    host_leds = host_leds;
    suspended = λ s. not (ops.connected s.service);
    remote_wakeup_allowed = λ s. false;
    remote_wakeup = λ s. (false, s);
  }
