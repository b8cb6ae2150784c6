-- ===== src/Ble/Esp32/Hid.antt =====
-- src/VIA_ESP32_BLE.h: the keyboard over the HID service of NimBLE.
use via_arduino.Base.{ℕ, Bool, true, false, not, ◌&&◌, Option, none, some, List, [], ◌∷◌}
use via_arduino.Base.{if◌then◌else◌, ltb, take}
use via_arduino.Keyboard.{KeyboardHid}
use via_arduino.Keyboard.Report.{KeyboardReport}

-- NimBLE: the creation of the HID device, with its manufacturer and report map, which may find no
-- memory; the input report characteristic of an ID, none for nullptr; a notification on it; and the
-- number of connections.
pub record NimBleHid (B : Type 0) : Type 0 where
  pub create : List ℕ → List ℕ → B → Bool × B
  pub input_report : ℕ → B → Option ℕ × B
  pub notify : ℕ → List ℕ → B → Bool × B
  pub connected_count : B → ℕ

abbrev pub report_id : ℕ
report_id = 1

-- kReportMap
abbrev pub report_map : List ℕ
report_map =
    0x05 ∷ 0x01 ∷ 0x09 ∷ 0x06 ∷ 0xA1 ∷ 0x01 ∷ 0x85 ∷ 0x01 ∷ 0x05 ∷ 0x07 ∷ 0x19 ∷ 0xE2 ∷ 0x29 ∷ 0xFD
    ∷ 0x15 ∷ 0x00 ∷ 0x25 ∷ 0x01 ∷ 0x75 ∷ 0x01 ∷ 0x95 ∷ 0x08 ∷ 0x81 ∷ 0x02 ∷ 0x75 ∷ 0x08 ∷ 0x95
    ∷ 0x01 ∷ 0x81 ∷ 0x01 ∷ 0x05 ∷ 0x07 ∷ 0x19 ∷ 0x00 ∷ 0x29 ∷ 0x65 ∷ 0x15 ∷ 0x00 ∷ 0x25 ∷ 0x65
    ∷ 0x75 ∷ 0x08 ∷ 0x95 ∷ 0x06 ∷ 0x81 ∷ 0x00 ∷ 0xC0 ∷ []

-- `server` says whether there is a server.
pub record BleKeyboardHid (B : Type 0) : Type 0 where
  pub nimble : B
  pub server : Bool
  pub input : Option ℕ

module _ {B : Type 0} (ops : NimBleHid B) where
  -- A server of false and a manufacturer of none are null pointers; the device name is not used.
  unfoldable pub begin : Bool → Option (List ℕ) → BleKeyboardHid B → Bool × BleKeyboardHid B
  begin server manufacturer s = elim manufacturer [
    | none ↦ (false, s)
    | some name ↦
        let (created, nimble) = ops.create name report_map s.nimble in
        let (input, nimble') = ops.input_report report_id nimble in
        if not server
        then (false, s)
        else if not created
        then (false, record s { server = true; nimble = nimble })
        else (
          (elim input [ none ↦ false | some _ ↦ true ]),
          record s { server = true; nimble = nimble'; input = input },
        )
  ]

  unfoldable pub connected : BleKeyboardHid B → Bool
  connected s = s.server && ltb 0 (ops.connected_count s.nimble)

  -- The report ID, the modifiers, the reserved byte, which is always 0, and six keys.
  unfoldable pub send : KeyboardReport → BleKeyboardHid B → Bool × BleKeyboardHid B
  unfolding connected
  send r s = elim s.input [
    | none ↦ (false, s)
    | some c ↦
        let (sent, nimble) = ops.notify c (report_id ∷ r.modifiers ∷ 0 ∷ take 6 r.keys) s.nimble in
        if not (connected s) then (false, s) else (sent, record s { nimble = nimble })
  ]

  unfoldable pub hid_ops : KeyboardHid (BleKeyboardHid B)
  unfolding connected send
  hid_ops = record {
    configured = connected;
    send = send;
    send_complete = λ s. (true, s);
    host_leds = λ s. ([], s);
    suspended = λ s. not (connected s);
    remote_wakeup_allowed = λ s. false;
    remote_wakeup = λ s. (false, s);
  }
