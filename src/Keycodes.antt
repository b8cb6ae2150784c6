-- ===== src/Keycodes.antt =====
-- src/VIA_Keycodes.h: the classes of the 16-bit key codes and the fields inside them.
pub mod Fields
use via_arduino.Base.{ℕ, ◌-◌, Bool, not, ◌&&◌, ◌||◌, Option, none, some}
use via_arduino.Base.{leb, ltb, ◌==◌, if◌then◌else◌, u8, bit_and, ◌>>>◌, ◌<<<◌}

pub data KeycodeType : Type 0 where
  no_key transparent basic modifier layer boot unsupported : KeycodeType

unfoldable pub classify_keycode : ℕ → KeycodeType
classify_keycode code =
    let page = code >>> 8 in
    if page == 0x00
    then (if code == 0x0000
        then no_key
        else if code == 0x0001
        then transparent
        else if leb 0x0004 code && leb code 0x00A4
        then basic
        else if leb 0x00E0 code && leb code 0x00E7
        then modifier
        else unsupported)
    else if leb 0x01 page && leb page 0x1F
    then basic
    else if page == 0x52
    then layer
    else if page == 0x7C
    then boot
    else unsupported

unfoldable pub extract_basic_usage : ℕ → ℕ
extract_basic_usage code = bit_and code 0xFF

-- 1U << (code - 0xE0), in a uint8_t; the callers have a modifier code.
unfoldable pub extract_modifier_mask : ℕ → ℕ
extract_modifier_mask code = u8 (1 <<< (code - 0xE0))

-- The usage and the modifier mask.
unfoldable pub extract_qk_mods : ℕ → Option (ℕ × ℕ)
extract_qk_mods code =
    let mods = bit_and (code >>> 8) 0x0F in
    if ltb code 0x0100 || ltb 0x1FFF code
    then none
    else some (bit_and code 0xFF, if bit_and code 0x1000 == 0 then mods else u8 (mods <<< 4))

-- The action and the layer.
unfoldable pub extract_layer_action : ℕ → Option (ℕ × ℕ)
extract_layer_action code =
    if not (bit_and code 0xFF00 == 0x5200)
    then none
    else some (bit_and (code >>> 5) 0x03, bit_and code 0x1F)
