-- ===== src/UsbKeyboard.antt =====
-- src/VIA_TinyUSB_Keyboard.h and src/VIA_TinyUSB_Keyboard.cpp: reports to a TinyUSB HID keyboard.
use via_arduino.Base.{ℕ, Bool, false, not, List, replicate, if◌then◌else◌}

-- The Adafruit TinyUSB device and its HID interface: whether the device is initialised, its begin,
-- the set-up calls of Keyboard::begin up to hid_.begin, whether the interface is ready, and a
-- keyboard report.
pub record UsbHid (U : Type 0) : Type 0 where
  pub is_initialized : U → Bool
  pub begin_device : U → U
  pub begin_interface : List ℕ → U → Bool × U
  pub ready : U → Bool
  pub keyboard_report : ℕ → List ℕ → U → Bool × U

module _ {U : Type 0} (ops : UsbHid U) where
  unfoldable pub begin : List ℕ → U → Bool × U
  begin interface_name u =
      ops.begin_interface interface_name
        (if not (ops.is_initialized u) then ops.begin_device u else u)

  unfoldable pub report : ℕ → List ℕ → U → Bool × U
  report modifiers keys u = if ops.ready u then ops.keyboard_report modifiers keys u else (false, u)

  unfoldable pub release : U → Bool × U
  unfolding report
  release u = report 0 (replicate 6 0) u

  unfoldable pub ready : U → Bool
  ready u = ops.ready u
