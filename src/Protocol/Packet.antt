-- ===== src/Protocol/Packet.antt =====
-- The packets of Protocol::process of src/VIA_Protocol.cpp: their fields, their commands and the bytes
-- of the matrix state.
use via_arduino.Base.{ℕ, zero, suc, ◌+◌, ◌*◌}
use via_arduino.Base.{List, [], ◌∷◌, ◌++◌, get_or, set}
use via_arduino.Base.{ltb, ◌==◌, if◌then◌else◌, u8, be16, ◌>>>◌}

abbrev pub packet_size : ℕ
packet_size = 32

-- The cases of `switch (packet[0])`.
pub data Command : Type 0 where
  get_protocol_version get_keyboard_value set_keyboard_value : Command
  get_keycode store_keycode reset_keymap : Command
  set_custom_value get_custom_value commit_eeprom reset_eeprom bootloader_jump_request : Command
  get_macro_count get_macro_buffer_size get_macro_buffer set_macro_buffer clear_macros : Command
  get_layer_count get_keymap_buffer set_keymap_buffer : Command
  get_encoder set_encoder unhandled : Command

unfoldable pub command_of : ℕ → Command
command_of code =
    if code == 0x01
    then get_protocol_version
    else if code == 0x02
    then get_keyboard_value
    else if code == 0x03
    then set_keyboard_value
    else if code == 0x04
    then get_keycode
    else if code == 0x05
    then store_keycode
    else if code == 0x06
    then reset_keymap
    else if code == 0x07
    then set_custom_value
    else if code == 0x08
    then get_custom_value
    else if code == 0x09
    then commit_eeprom
    else if code == 0x0A
    then reset_eeprom
    else if code == 0x0B
    then bootloader_jump_request
    else if code == 0x0C
    then get_macro_count
    else if code == 0x0D
    then get_macro_buffer_size
    else if code == 0x0E
    then get_macro_buffer
    else if code == 0x0F
    then set_macro_buffer
    else if code == 0x10
    then clear_macros
    else if code == 0x11
    then get_layer_count
    else if code == 0x12
    then get_keymap_buffer
    else if code == 0x13
    then set_keymap_buffer
    else if code == 0x14
    then get_encoder
    else if code == 0x15
    then set_encoder
    else unhandled

abbrev pub Packet : Type 0
Packet = List ℕ

abbrev pub at : Packet → ℕ → ℕ
at p i = get_or p i 0

-- packet[0] = 0xFF
abbrev pub refuse : Packet → Packet
refuse p = set p 0 0xFF

-- A 16-bit word, big-endian, into bytes i and i + 1; a 32-bit one from byte 2 on.
abbrev pub put16 : Packet → ℕ → ℕ → Packet
put16 p i v = set (set p i (u8 (v >>> 8))) (suc i) (u8 v)

abbrev pub put32 : Packet → ℕ → Packet
put32 p v = set (set (set (set p 2 (u8 (v >>> 24))) 3 (u8 (v >>> 16))) 4 (u8 (v >>> 8))) 5 (u8 v)

-- The offset and the size, at most 28, of the buffer commands.
abbrev pub chunk_offset : Packet → ℕ
chunk_offset p = be16 (at p 1) (at p 2)

abbrev pub chunk_size : Packet → ℕ
chunk_size p = if ltb 28 (at p 3) then 28 else at p 3

-- The bytes of a matrix row, most significant first.
unfoldable pub row_bytes : ℕ → ℕ → List ℕ
row_bytes zero row_data = []
row_bytes (suc k) row_data = u8 (row_data >>> (8 * k)) ∷ row_bytes k row_data

-- The bytes of `count` rows from `row` on; `data_of` is what the loop reads for a row.
unfoldable pub matrix_bytes : (ℕ → ℕ) → ℕ → ℕ → ℕ → List ℕ
unfolding row_bytes
matrix_bytes data_of width zero row = []
matrix_bytes data_of width (suc count) row =
    row_bytes width (data_of row) ++ matrix_bytes data_of width count (row + 1)
