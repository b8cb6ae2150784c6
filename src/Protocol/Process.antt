-- ===== src/Protocol/Process.antt =====
-- Protocol::process of src/VIA_Protocol.cpp: one 32-byte packet, answered in place.
pub mod Buffers
pub mod Keys
pub mod Packets
pub mod Parts
pub mod Answers
pub mod Good
pub mod Inside
use via_arduino.Base.{ℕ, zero, suc, ◌+◌, ◌-◌, ◌*◌, ◌/◌, Bool, true, false, not, ◌&&◌, ◌||◌}
use via_arduino.Base.{none, some, List, [], ◌∷◌, ◌++◌, length, get_or, set, splice, slice}
use via_arduino.Base.{replicate, ltb, ◌==◌, if◌then◌else◌, u8, be16, be32, ◌>>>◌}
use via_arduino.Protocol.Config.{keymap_bytes}
use via_arduino.Protocol.Board.{Board, State, device_indication, layout_options_changed, notify}
use via_arduino.Protocol.Keymap.{mark_dirty, keycode, set_keycode, encoder_keycode}
use via_arduino.Protocol.Keymap.{set_encoder_keycode, read_dynamic_keymap, write_dynamic_keymap}
use via_arduino.Protocol.Keymap.{read_macros, write_macros, reset_keymaps, reset_macros}
use via_arduino.Protocol.Keymap.{out_of_encoders}
use via_arduino.Protocol.Persist.{save}
use via_arduino.Protocol.Reset.{factory_reset}
use via_arduino.Protocol.Packet.{
  Command, Packet, at, bootloader_jump_request, chunk_offset, chunk_size, clear_macros, command_of,
  commit_eeprom, get_custom_value, get_encoder, get_keyboard_value, get_keycode, get_keymap_buffer,
  get_layer_count, get_macro_buffer, get_macro_buffer_size, get_macro_count, get_protocol_version,
  matrix_bytes, packet_size, put16, put32, refuse, reset_eeprom, reset_keymap, row_bytes,
  set_custom_value, set_encoder, set_keyboard_value, set_keymap_buffer, set_macro_buffer,
  store_keycode, unhandled,
}

module _ {S C : Type 0} (b : Board S C) where
  -- A row is disclosed only if enabled, with callbacks, and inside the matrix.
  unfoldable pub disclosed_row : ℕ → ℕ
  disclosed_row row = elim b.matrix_row [
    | none ↦ 0
    | some read ↦ if b.config.matrix_state_enabled && ltb row b.config.rows then read row else 0
  ]

  unfoldable pub matrix_state : Packet → Packet
  unfolding matrix_bytes disclosed_row
  matrix_state p =
      let width : ℕ = u8 ((b.config.columns + 7) / 8) in
      let rows = matrix_bytes disclosed_row width (28 / width) (at p 2) in
      if width == 0 || ltb 4 width
      then refuse p
      else splice p 3 (rows ++ replicate (packet_size - (3 + length rows)) 0)

  unfoldable pub keyboard_value : ℕ → Packet → State S C → Packet
  unfolding matrix_state
  keyboard_value now p s =
      if at p 1 == 0x01
      then put32 p now
      else if at p 1 == 0x02
      then put32 p s.layout_options
      else if at p 1 == 0x03
      then matrix_state p
      else if at p 1 == 0x04
      then put32 p b.config.firmware_version
      else if at p 1 == 0x06
      then set (set (set (set p 4 0) 3 0) 2 0) 5 8
      else refuse p

  unfoldable pub store_keyboard_value : ℕ → Packet → State S C → Packet × State S C
  store_keyboard_value now p s =
      let options = be32 (at p 2) (at p 3) (at p 4) (at p 5) in
      if at p 1 == 0x05
      then (p, notify b (device_indication (at p 2)) s)
      else if at p 1 == 0x02
      then (
        p,
        notify b (layout_options_changed options)
            (mark_dirty b now (record s { layout_options = options })),
      )
      else (refuse p, s)

  -- A setter's result: mark dirty where it accepts, refuse the packet where it does not.
  unfoldable pub settle : ℕ → Packet → Bool × State S C → Packet × State S C
  settle now p (done, s) = if done then (p, mark_dirty b now s) else (refuse p, s)

  -- `if (wrote) markDirty(nowMs)`
  abbrev pub dirty_if : Bool → ℕ → State S C → State S C
  dirty_if wrote now s = if wrote then mark_dirty b now s else s

  unfoldable pub set_custom : ℕ → Packet → State S C → Packet × State S C
  set_custom now p s = elim s.custom [
    | none ↦ (refuse p, s)
    | some c ↦
        let (done, p', c') = b.custom_ops.set_value c p in
        let s' = record s { custom = some c' } in
        if done then (p', mark_dirty b now s') else (refuse p', s')
  ]

  unfoldable pub get_custom : Packet → State S C → Packet × State S C
  get_custom p s = elim s.custom [
    | none ↦ (refuse p, s)
    | some c ↦
        let (done, p', c') = b.custom_ops.get_value c p in
        (if done then p' else refuse p', record s { custom = some c' })
  ]

  unfoldable pub commit_custom : Packet → State S C → Packet × State S C
  commit_custom p s = elim s.custom [
    | none ↦ (refuse p, s)
    | some c ↦
        let (done, p', c') = b.custom_ops.save_value c p in
        let s' = record s { custom = some c' } in
        let (saved, s'') = save b s' in
        if done then (if saved then p' else refuse p', s'') else (refuse p', s')
  ]

  unfoldable pub reset_stored : Packet → State S C → Packet × State S C
  reset_stored p s =
      let (done, s') = factory_reset b s in
      if b.config.eeprom_reset_enabled then (if done then p else refuse p, s') else (refuse p, s)

  -- Whether the board has callbacks at all.
  abbrev pub has_callbacks : Bool
  has_callbacks = elim b.matrix_row [ none ↦ false | some _ ↦ true ]

  unfoldable pub prepare_jump : Packet → State S C → Packet × State S C
  prepare_jump p s =
      let (saved, s') = save b s in
      if not b.config.bootloader_enabled || not has_callbacks
      then (refuse p, s)
      else if s.dirty
      then (if saved then p else refuse p, s')
      else (p, s)

  unfoldable pub store_macros : ℕ → Packet → State S C → Packet × State S C
  store_macros now p s =
      let (macros', wrote) =
        write_macros b.config.macro_bytes (chunk_offset p) (slice p 4 (chunk_size p))
          (s.macros, false) in
      (p, dirty_if wrote now (record s { macros = macros' }))

  unfoldable pub store_keymap : ℕ → Packet → State S C → Packet × State S C
  store_keymap now p s =
      let (keymap', wrote) =
        write_dynamic_keymap (keymap_bytes b.config) (chunk_offset p) (slice p 4 (chunk_size p))
          (s.keymap, false) in
      (p, dirty_if wrote now (record s { keymap = keymap' }))

  unfoldable pub read_encoder : Packet → State S C → Packet
  read_encoder p s =
      if out_of_encoders b.config (at p 1) (at p 2) (at p 3)
      then refuse p
      else put16 p 4 (encoder_keycode b s (at p 1) (at p 2) (at p 3))

  unfoldable pub run_command : Command → ℕ → Packet → State S C → Packet × State S C
  unfolding keyboard_value store_keyboard_value settle set_custom get_custom commit_custom
      reset_stored prepare_jump store_macros store_keymap read_encoder
  run_command get_protocol_version now p s = (set (set p 1 0) 2 0x0D, s)
  run_command get_keyboard_value now p s = (keyboard_value now p s, s)
  run_command set_keyboard_value now p s = store_keyboard_value now p s
  run_command get_keycode now p s = (put16 p 4 (keycode b s (at p 1) (at p 2) (at p 3)), s)
  run_command store_keycode now p s =
      settle now p (set_keycode b (at p 1) (at p 2) (at p 3) (be16 (at p 4) (at p 5)) s)
  run_command reset_keymap now p s = (p, mark_dirty b now (reset_keymaps b s))
  run_command set_custom_value now p s = set_custom now p s
  run_command get_custom_value now p s = get_custom p s
  run_command commit_eeprom now p s = commit_custom p s
  run_command reset_eeprom now p s = reset_stored p s
  run_command bootloader_jump_request now p s = prepare_jump p s
  run_command get_macro_count now p s = (set p 1 b.config.macro_count, s)
  run_command get_macro_buffer_size now p s = (put16 p 1 b.config.macro_bytes, s)
  run_command get_macro_buffer now p s =
      (splice p 4 (read_macros b.config.macro_bytes s.macros (chunk_offset p) (chunk_size p)), s)
  run_command set_macro_buffer now p s = store_macros now p s
  run_command clear_macros now p s = (p, mark_dirty b now (reset_macros b s))
  run_command get_layer_count now p s = (set p 1 b.config.layers, s)
  run_command get_keymap_buffer now p s = (
    splice p 4
        (read_dynamic_keymap (keymap_bytes b.config) s.keymap (chunk_offset p) (chunk_size p)),
    s,
  )
  run_command set_keymap_buffer now p s = store_keymap now p s
  run_command get_encoder now p s = (read_encoder p s, s)
  run_command set_encoder now p s =
      settle now p (set_encoder_keycode b (at p 1) (at p 2) (at p 3) (be16 (at p 4) (at p 5)) s)
  run_command unhandled now p s = (refuse p, s)

  -- The result is `packet[0] != 0xFF` at the end.
  unfoldable pub process : ℕ → Packet → State S C → Bool × Packet × State S C
  unfolding command_of run_command
  process now p s =
      let (p', s') = run_command (command_of (at p 0)) now p s in (not (at p' 0 == 0xFF), p', s')
