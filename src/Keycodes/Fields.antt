-- ===== src/Keycodes/Fields.antt =====
-- The fields of layer and modified key codes.
use via_arduino.Base.{ℕ, ◌/◌, ◌%◌, ◌^◌, ◌<◌, ◌≡◌, ◌↔◌, arith, none, some}
use via_arduino.Base.{if◌then◌else◌, ◌==◌}
use via_arduino.Base.Bits.{bit_and_mask, bit_and_high_byte}
use via_arduino.Keycodes.{KeycodeType, classify_keycode, extract_layer_action}

-- Of a 16-bit code, the layer action is found exactly on the codes classified as layer codes, and it
-- is made of bits 5 and 6 with the layer in bits 0 to 4; bit 7 is not looked at.
pub extract_layer_action_lem :
    (code : ℕ)
    → code < 2 ^ 16
    → extract_layer_action code
      ≡ (if code / 256 == 0x52 then some (code / 32 % 4, code % 32) else none)
unfolding extract_layer_action
extract_layer_action_lem code h =
    ground (arith, bit_and_high_byte code h, bit_and_mask 2 (code / 32), bit_and_mask 5 code)

pub layer_code_iff :
    (code action layer : ℕ)
    → code < 2 ^ 16
    → (extract_layer_action code ≡ some (action, layer)) ↔ (
        (classify_keycode code ≡ KeycodeType.layer)
        × (action ≡ code / 32 % 4)
        × (layer ≡ code % 32))
unfolding classify_keycode
layer_code_iff code action layer h = (
  ground (arith, extract_layer_action_lem code h),
  ground (arith, extract_layer_action_lem code h),
)
