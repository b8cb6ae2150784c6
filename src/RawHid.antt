-- ===== src/RawHid.antt =====
-- src/VIA_TinyUSB_RawHID.cpp and its header: the transport over a TinyUSB vendor HID interface.
pub mod Delivery
use via_arduino.Base.{ℕ, Bool, true, false, not, ◌&&◌, ◌||◌, Option, none, some, List, [], ◌∷◌}
use via_arduino.Base.{length, ◌==◌, if◌then◌else◌}
use via_arduino.Protocol.Packet.{Packet, packet_size}

-- The Adafruit TinyUSB device and its HID interface: the set-up calls of RawHID::begin up to
-- hid_.begin, whether the interface is ready, and the sending of a report.
pub record UsbHid (U : Type 0) : Type 0 where
  pub start : U → Bool × U
  pub ready : U → Bool
  pub send_report : Packet → U → Bool × U

-- The static members of RawHID. An instance is named by a number; `active` is none for nullptr.
pub record RawHid (U : Type 0) : Type 0 where
  pub usb : U
  pub rx : Packet
  pub rx_ready : Bool
  pub active : Option ℕ
  pub begin_attempted : Bool

abbrev pub is_active : {U : Type 0} → ℕ → RawHid U → Bool
is_active me s = elim s.active [ none ↦ false | some other ↦ other == me ]

abbrev pub any_active : {U : Type 0} → RawHid U → Bool
any_active s = elim s.active [ none ↦ false | some _ ↦ true ]

-- kViaRawHidDescriptor
abbrev pub via_raw_hid_descriptor : List ℕ
via_raw_hid_descriptor =
    0x06 ∷ 0x60 ∷ 0xFF ∷ 0x09 ∷ 0x61 ∷ 0xA1 ∷ 0x01 ∷ 0x15 ∷ 0x00 ∷ 0x26 ∷ 0xFF ∷ 0x00 ∷ 0x75 ∷ 0x08
    ∷ 0x95 ∷ packet_size ∷ 0x09 ∷ 0x62 ∷ 0x81 ∷ 0x02 ∷ 0x95 ∷ packet_size ∷ 0x09 ∷ 0x63 ∷ 0x91
    ∷ 0x02 ∷ 0xC0 ∷ []

-- HID_REPORT_TYPE_OUTPUT
abbrev pub report_type_output : ℕ
report_type_output = 2

module _ {U : Type 0} (ops : UsbHid U) where
  -- ~RawHID
  unfoldable pub destroy : ℕ → RawHid U → RawHid U
  destroy me s = if is_active me s then record s { active = none } else s

  unfoldable pub begin : ℕ → RawHid U → Bool × RawHid U
  begin me s =
      let (started, usb) = ops.start s.usb in
      if any_active s || s.begin_attempted
      then (false, s)
      else if started
      then (true, record s { usb = usb; active = some me; begin_attempted = true })
      else (false, record s { usb = usb; active = none; begin_attempted = true })

  unfoldable pub receive : ℕ → RawHid U → Option Packet × RawHid U
  receive me s =
      if not (is_active me s)
      then (none, s)
      else if not s.rx_ready
      then (none, s)
      else (some s.rx, record s { rx_ready = false })

  unfoldable pub send : ℕ → Packet → RawHid U → Bool × RawHid U
  send me packet s =
      let (sent, usb) = ops.send_report packet s.usb in
      if is_active me s && ops.ready s.usb then (sent, record s { usb = usb }) else (false, s)

  unfoldable pub send_complete : ℕ → RawHid U → Bool
  send_complete me s = is_active me s && ops.ready s.usb

  unfoldable pub ready : ℕ → RawHid U → Bool
  ready me s = is_active me s && ops.ready s.usb

  -- The callback for a SET_REPORT or an output report.
  unfoldable pub set_report : ℕ → ℕ → List ℕ → RawHid U → RawHid U
  set_report report_id report_type buffer s =
      if not (any_active s)
        || (not (report_id == 0)
            || ((not (report_type == 0) && not (report_type == report_type_output))
                || (not (length buffer == packet_size) || s.rx_ready)))
      then s
      else record s { rx = buffer; rx_ready = true }
