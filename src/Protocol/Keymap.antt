-- ===== src/Protocol/Keymap.antt =====
-- Key codes, encoder codes and the two bulk buffers: keycode, setKeycode, encoderKeycode,
-- setEncoderKeycode, readDynamicKeymap, writeDynamicKeymap, markDirty and resetBuffers of
-- src/VIA_Protocol.cpp, and the macro buffer loops of Protocol::process.
pub mod Bytes
pub mod Macros
pub mod Index
pub mod Behind
use via_arduino.Base.{ℕ, zero, suc, ◌+◌, ◌*◌, ◌/◌, Bool, true, false, ◌||◌, u8, u32}
use via_arduino.Base.{none, some, List, [], ◌∷◌}
use via_arduino.Base.{get_or, set, splice, take, replicate, leb, ltb, ◌==◌, if◌then◌else◌}
use via_arduino.Base.{bit_and, bit_or, ◌>>>◌, ◌<<<◌}
use via_arduino.Protocol.Config.{Config, key_count, encoder_map_bytes}
use via_arduino.Protocol.Board.{Board, State, changed, notify}

abbrev pub key_index : Config → ℕ → ℕ → ℕ → ℕ
key_index c layer row column = (layer * c.rows + row) * c.columns + column

abbrev pub encoder_index : Config → ℕ → ℕ → ℕ → ℕ
encoder_index c layer encoder clockwise = (layer * c.encoder_count + encoder) * 2 + clockwise

-- layer >= layers || row >= rows || column >= columns
abbrev pub out_of_map : Config → ℕ → ℕ → ℕ → Bool
out_of_map c layer row column = leb c.layers layer || (leb c.rows row || leb c.columns column)

abbrev pub out_of_encoders : Config → ℕ → ℕ → ℕ → Bool
out_of_encoders c layer encoder clockwise =
    leb c.layers layer || (leb c.encoder_count encoder || ltb 1 clockwise)

-- One byte of the big-endian view of the key map.
unfoldable pub keymap_byte : List ℕ → ℕ → ℕ
keymap_byte keymap index =
    let code = get_or keymap (index / 2) 0 in
    if bit_and index 1 == 0 then u8 (code >>> 8) else u8 code

-- The loop of readDynamicKeymap, `size` rounds from index `offset` on: the bytes it puts out.
unfoldable pub read_dynamic_keymap : ℕ → List ℕ → ℕ → ℕ → List ℕ
unfolding keymap_byte
read_dynamic_keymap bytes keymap offset zero = []
read_dynamic_keymap bytes keymap offset (suc size) =
    (if leb bytes offset then 0 else keymap_byte keymap offset)
    ∷ read_dynamic_keymap bytes keymap (offset + 1) size

unfoldable pub put_keymap_byte : List ℕ → ℕ → ℕ → List ℕ
put_keymap_byte keymap index value =
    let code = get_or keymap (index / 2) 0 in
    set keymap (index / 2) (
      if bit_and index 1 == 0
      then bit_or (bit_and code 0x00FF) (value <<< 8)
      else bit_or (bit_and code 0xFF00) value)

-- The loop of writeDynamicKeymap over the input bytes from index `offset` on; the flag is `wrote`.
unfoldable pub write_dynamic_keymap : ℕ → ℕ → List ℕ → List ℕ × Bool → List ℕ × Bool
unfolding put_keymap_byte
write_dynamic_keymap bytes offset [] acc = acc
write_dynamic_keymap bytes offset (x ∷ xs) (keymap, wrote) =
    write_dynamic_keymap bytes (offset + 1) xs
      (if leb bytes offset then (keymap, wrote) else (put_keymap_byte keymap offset x, true))

-- The loop of "get macro buffer".
unfoldable pub read_macros : ℕ → List ℕ → ℕ → ℕ → List ℕ
read_macros bytes macros offset zero = []
read_macros bytes macros offset (suc size) =
    (if ltb offset bytes then get_or macros offset 0 else 0)
    ∷ read_macros bytes macros (offset + 1) size

-- The loop of "set macro buffer".
unfoldable pub write_macros : ℕ → ℕ → List ℕ → List ℕ × Bool → List ℕ × Bool
write_macros bytes offset [] acc = acc
write_macros bytes offset (x ∷ xs) (macros, wrote) =
    write_macros bytes (offset + 1) xs
      (if ltb offset bytes then (set macros offset x, true) else (macros, wrote))

module _ {S C : Type 0} (b : Board S C) where
  unfoldable pub mark_dirty : ℕ → State S C → State S C
  mark_dirty now s =
      notify b changed (record s { dirty = true; save_at = u32 (now + b.config.auto_save_ms) })

  unfoldable pub keycode : State S C → ℕ → ℕ → ℕ → ℕ
  keycode s layer row column =
      if out_of_map b.config layer row column
      then 0
      else get_or s.keymap (key_index b.config layer row column) 0

  unfoldable pub set_keycode : ℕ → ℕ → ℕ → ℕ → State S C → Bool × State S C
  set_keycode layer row column value s =
      if out_of_map b.config layer row column
      then (false, s)
      else (true, record s { keymap = set s.keymap (key_index b.config layer row column) value })

  unfoldable pub encoder_keycode : State S C → ℕ → ℕ → ℕ → ℕ
  encoder_keycode s layer encoder clockwise =
      if out_of_encoders b.config layer encoder clockwise
      then 0
      else get_or s.encoder_map (encoder_index b.config layer encoder clockwise) 0

  unfoldable pub set_encoder_keycode : ℕ → ℕ → ℕ → ℕ → State S C → Bool × State S C
  set_encoder_keycode layer encoder clockwise value s =
      if out_of_encoders b.config layer encoder clockwise then (false, s) else (
        true,
        record s {
          encoder_map = set s.encoder_map (encoder_index b.config layer encoder clockwise) value;
        },
      )

  -- memcpy of the default key map and, where there are encoders, of the default encoder map.
  unfoldable pub reset_keymaps : State S C → State S C
  reset_keymaps s = record s {
    keymap = splice s.keymap 0 (take (key_count b.config) b.config.default_keymap);
    encoder_map =
        if encoder_map_bytes b.config == 0
        then s.encoder_map
        else splice s.encoder_map 0
            (take (encoder_map_bytes b.config / 2) b.config.default_encoder_map);
  }

  unfoldable pub reset_macros : State S C → State S C
  reset_macros s =
      if b.config.macro_bytes == 0
      then s
      else record s { macros = splice s.macros 0 (replicate b.config.macro_bytes 0) }

  unfoldable pub reset_buffers : State S C → State S C
  unfolding reset_keymaps reset_macros
  reset_buffers s =
      let s' = reset_macros (reset_keymaps s) in
      record s' {
        layout_options = b.config.default_layout_options;
        custom = elim s'.custom [ none ↦ none | some c ↦ some (b.custom_ops.reset_value c) ];
      }
