-- ===== src/Protocol/Config.antt =====
-- The configuration of the protocol core and the sizes computed from it: struct Config of
-- src/VIA_Protocol.h, keyCount, keymapBytes, encoderMapBytes, stateBytes, rangesOverlap and
-- loadBufferValid of src/VIA_Protocol.cpp.
use via_arduino.Base.{ℕ, ◌+◌, ◌-◌, ◌*◌, Bool, false, not, ◌&&◌, ◌||◌}
use via_arduino.Base.{Option, none, some, List, u32, ltb, leb, ◌==◌, if◌then◌else◌}

-- Pointers are addresses, 0 for nullptr. The constant arrays are their contents; the mutable ones
-- are fields of the protocol's state.
pub record Config : Type 0 where
  pub rows : ℕ
  pub columns : ℕ
  pub layers : ℕ
  pub keymap_at : ℕ
  pub default_keymap_at : ℕ
  pub default_keymap : List ℕ
  pub macros_at : ℕ
  pub macro_bytes : ℕ
  pub macro_count : ℕ
  pub firmware_version : ℕ
  pub auto_save_ms : ℕ
  pub default_layout_options : ℕ
  pub encoder_count : ℕ
  pub encoder_map_at : ℕ
  pub default_encoder_map_at : ℕ
  pub default_encoder_map : List ℕ
  pub load_buffer_at : ℕ
  pub load_buffer_bytes : ℕ
  pub matrix_state_enabled : Bool
  pub eeprom_reset_enabled : Bool
  pub bootloader_enabled : Bool

-- sizeof(StateHeader), packed.
abbrev pub header_size : ℕ
header_size = 12

abbrev pub max_custom_state_size : ℕ
max_custom_state_size = 16

unfoldable pub key_count : Config → ℕ
key_count c = u32 (c.rows * c.columns * c.layers)

unfoldable pub keymap_bytes : Config → ℕ
keymap_bytes c = key_count c * 2

unfoldable pub encoder_map_bytes : Config → ℕ
encoder_map_bytes c = u32 (c.layers * c.encoder_count * 2 * 2)

-- The size of the payload, or nothing when the record would not fit 16 bits; the argument is the
-- size of the custom state, 0 without a custom value.
unfoldable pub state_bytes : Config → ℕ → Option ℕ
state_bytes c custom =
    if ltb max_custom_state_size custom
    then none
    else let keymap : ℕ = u32 (c.rows * c.columns * c.layers * 2) in
      let encoders : ℕ = u32 (c.layers * c.encoder_count * 2 * 2) in
      let total : ℕ = u32 (keymap + encoders + c.macro_bytes + 4 + custom) in
      if ltb 65535 (u32 (total + header_size)) then none else some total

unfoldable pub required_load_buffer_size : Config → ℕ → ℕ
unfolding state_bytes
required_load_buffer_size c custom = elim (state_bytes c custom) [ none ↦ 0 | some bytes ↦ bytes ]

-- Whether the ranges [first, first + n) and [second, second + m) meet.
unfoldable pub ranges_overlap : ℕ → ℕ → ℕ → ℕ → Bool
ranges_overlap first n second m =
    if n == 0 || m == 0
    then false
    else if leb first second
    then ltb (second - first) n
    else ltb (first - second) m

unfoldable pub load_buffer_valid : Config → ℕ → Bool
load_buffer_valid c bytes =
    if c.load_buffer_at == 0 || ltb c.load_buffer_bytes bytes
    then false
    else not (ranges_overlap c.load_buffer_at (u32 bytes) c.keymap_at (u32 (keymap_bytes c)))
      && not
          (ranges_overlap c.load_buffer_at (u32 bytes) c.default_keymap_at (u32 (keymap_bytes c)))
      && not
          (ranges_overlap c.load_buffer_at (u32 bytes) c.encoder_map_at (u32 (encoder_map_bytes c)))
      && not (
          ranges_overlap c.load_buffer_at (u32 bytes) c.default_encoder_map_at
            (u32 (encoder_map_bytes c)))
      && not (ranges_overlap c.load_buffer_at (u32 bytes) c.macros_at c.macro_bytes)
