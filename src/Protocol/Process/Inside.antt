-- ===== src/Protocol/Process/Inside.antt =====
-- Protocol::process writes nothing behind the key map, the encoder map and the macros.
use via_arduino.Base.{ℕ, refl, arith, false, Bool, slice, some}
use via_arduino.Base.{either, optionally, if◌then◌else◌, not, ◌||◌}
use via_arduino.Protocol.Config.{key_count, keymap_bytes}
use via_arduino.Protocol.Board.{Board, State}
use via_arduino.Protocol.Sizes.{IsConfig}
use via_arduino.Protocol.Keymap.{}
use via_arduino.Protocol.Keymap.{
  mark_dirty, reset_keymaps, reset_macros, write_macros, write_dynamic_keymap,
}
use via_arduino.Protocol.Packet.{
  Command, Packet, at, bootloader_jump_request, chunk_offset, chunk_size, clear_macros, command_of,
  commit_eeprom, get_custom_value, get_encoder, get_keyboard_value, get_keycode, get_keymap_buffer,
  get_layer_count, get_macro_buffer, get_macro_buffer_size, get_macro_count, get_protocol_version,
  refuse, reset_eeprom, reset_keymap, set_custom_value, set_encoder, set_keyboard_value,
  set_keymap_buffer, set_macro_buffer, store_keycode, unhandled,
}
use via_arduino.Protocol.Process.{
  settle, dirty_if, store_macros, store_keymap, store_keyboard_value, set_custom, get_custom,
  commit_custom, prepare_jump, reset_stored, has_callbacks, run_command, process,
}
use via_arduino.Protocol.Persist.{save}
use via_arduino.Protocol.Reset.{factory_reset}
use via_arduino.Protocol.Keymap.Behind.{drop-write_dynamic_keymap, drop-write_macros}
use via_arduino.Protocol.Inside.{
  StaysInside, StaysInside-arrays, StaysInside-trans, set_keycode-StaysInside,
  set_encoder_keycode-StaysInside, mark_dirty-StaysInside, reset_keymaps-StaysInside,
  reset_macros-StaysInside, save-StaysInside, factory_reset-StaysInside,
}

module _ {S C : Type 0} (b : Board S C) (fits : IsConfig b.config) where
  -- The state after a step of process, whatever the answer.
  abbrev Kept : State S C → Packet × State S C → Type 0
  Kept s (p, s') = StaysInside b.config s s'

  settle-Kept :
      (now : ℕ) (p : Packet) (s : State S C) (r : Bool × State S C)
      → StaysInside b.config s r.1
      → Kept s (settle b now p r)
  unfolding settle
  settle-Kept now p s r h =
      either (Kept s) r.0 {x = (p, mark_dirty b now r.1)} {y = (refuse p, r.1)}
        (StaysInside-trans b fits s r.1 (mark_dirty b now r.1) h
          (mark_dirty-StaysInside b fits now r.1))
        h

  dirty_if-StaysInside :
      (wrote : Bool) (now : ℕ) (s s' : State S C)
      → StaysInside b.config s s'
      → StaysInside b.config s (dirty_if b wrote now s')
  dirty_if-StaysInside wrote now s s' h =
      either (StaysInside b.config s) wrote {x = mark_dirty b now s'} {y = s'}
        (StaysInside-trans b fits s s' (mark_dirty b now s') h
          (mark_dirty-StaysInside b fits now s'))
        h

  store_macros-Kept : (now : ℕ) (p : Packet) (s : State S C) → Kept s (store_macros b now p s)
  unfolding store_macros
  store_macros-Kept now p s =
      let xs = slice p 4 (chunk_size p) in
      let (macros', wrote) =
        write_macros b.config.macro_bytes (chunk_offset p) xs (s.macros, false) in
      dirty_if-StaysInside wrote now s (record s { macros = macros' })
        (record {
          behind_keys = refl;
          behind_encoders = refl;
          behind_macros = drop-write_macros b.config.macro_bytes (chunk_offset p) xs s.macros false;
        })

  store_keymap-Kept : (now : ℕ) (p : Packet) (s : State S C) → Kept s (store_keymap b now p s)
  unfolding store_keymap keymap_bytes
  store_keymap-Kept now p s =
      let xs = slice p 4 (chunk_size p) in
      let (keymap', wrote) =
        write_dynamic_keymap (keymap_bytes b.config) (chunk_offset p) xs (s.keymap, false) in
      dirty_if-StaysInside wrote now s (record s { keymap = keymap' })
        (record {
          behind_keys =
              drop-write_dynamic_keymap (key_count b.config) (chunk_offset p) xs s.keymap false;
          behind_encoders = refl;
          behind_macros = refl;
        })

  store_keyboard_value-Kept :
      (now : ℕ) (p : Packet) (s : State S C) → Kept s (store_keyboard_value b now p s)
  unfolding store_keyboard_value mark_dirty
  store_keyboard_value-Kept now p s =
      StaysInside-arrays b fits s (store_keyboard_value b now p s).1 (ground arith) (ground arith)
        (ground arith)

  set_custom-Kept : (now : ℕ) (p : Packet) (s : State S C) → Kept s (set_custom b now p s)
  unfolding set_custom mark_dirty
  set_custom-Kept now p s =
      StaysInside-arrays b fits s (set_custom b now p s).1 (ground arith) (ground arith)
        (ground arith)

  get_custom-Kept : (p : Packet) (s : State S C) → Kept s (get_custom b p s)
  unfolding get_custom
  get_custom-Kept p s =
      StaysInside-arrays b fits s (get_custom b p s).1 (ground arith) (ground arith) (ground arith)

  commit_custom-Kept : (p : Packet) (s : State S C) → Kept s (commit_custom b p s)
  unfolding commit_custom
  commit_custom-Kept p s =
      optionally (Kept s) s.custom {z = (refuse p, s)}
        (StaysInside-arrays b fits s s refl refl refl)
        (λ c _.
          let (done, p', c') = b.custom_ops.save_value c p in
          let s' = record s { custom = some c' } in
          let (saved, s'') = save b s' in
          let kept = StaysInside-arrays b fits s s' refl refl refl in
          either (Kept s) done {x = (if saved then p' else refuse p', s'')} {y = (refuse p', s')}
            (StaysInside-trans b fits s s' s'' kept (save-StaysInside b fits s')) kept)

  prepare_jump-Kept : (p : Packet) (s : State S C) → Kept s (prepare_jump b p s)
  unfolding prepare_jump
  prepare_jump-Kept p s =
      let same = StaysInside-arrays b fits s s refl refl refl in
      let saved = save b s in
      either (Kept s) (not b.config.bootloader_enabled || not (has_callbacks b)) {x = (refuse p, s)}
        same
        (either (Kept s) s.dirty {x = (if saved.0 then p else refuse p, saved.1)} {y = (p, s)}
          (save-StaysInside b fits s) same)

  reset_stored-Kept : (p : Packet) (s : State S C) → Kept s (reset_stored b p s)
  unfolding reset_stored
  reset_stored-Kept p s =
      let (done, s') = factory_reset b s in
      either (Kept s) b.config.eeprom_reset_enabled {x = (if done then p else refuse p, s')}
        {y = (refuse p, s)} (factory_reset-StaysInside b fits s)
        (StaysInside-arrays b fits s s refl refl refl)

  run_command-Kept :
      (c : Command) (now : ℕ) (p : Packet) (s : State S C) → Kept s (run_command b c now p s)
  unfolding run_command
  run_command-Kept store_keycode now p s =
      settle-Kept now p s _ (set_keycode-StaysInside b fits (at p 1) (at p 2) (at p 3) _ s)
  run_command-Kept set_encoder now p s =
      settle-Kept now p s _ (set_encoder_keycode-StaysInside b fits (at p 1) (at p 2) (at p 3) _ s)
  run_command-Kept reset_keymap now p s =
      StaysInside-trans b fits s (reset_keymaps b s) _ (reset_keymaps-StaysInside b fits s)
        (mark_dirty-StaysInside b fits now (reset_keymaps b s))
  run_command-Kept clear_macros now p s =
      StaysInside-trans b fits s (reset_macros b s) _ (reset_macros-StaysInside b fits s)
        (mark_dirty-StaysInside b fits now (reset_macros b s))
  run_command-Kept set_macro_buffer now p s = store_macros-Kept now p s
  run_command-Kept set_keymap_buffer now p s = store_keymap-Kept now p s
  run_command-Kept set_keyboard_value now p s = store_keyboard_value-Kept now p s
  run_command-Kept set_custom_value now p s = set_custom-Kept now p s
  run_command-Kept get_custom_value now p s = get_custom-Kept p s
  run_command-Kept commit_eeprom now p s = commit_custom-Kept p s
  run_command-Kept reset_eeprom now p s = reset_stored-Kept p s
  run_command-Kept bootloader_jump_request now p s = prepare_jump-Kept p s
  run_command-Kept get_protocol_version now p s = StaysInside-arrays b fits s s refl refl refl
  run_command-Kept get_keyboard_value now p s = StaysInside-arrays b fits s s refl refl refl
  run_command-Kept get_keycode now p s = StaysInside-arrays b fits s s refl refl refl
  run_command-Kept get_macro_count now p s = StaysInside-arrays b fits s s refl refl refl
  run_command-Kept get_macro_buffer_size now p s = StaysInside-arrays b fits s s refl refl refl
  run_command-Kept get_macro_buffer now p s = StaysInside-arrays b fits s s refl refl refl
  run_command-Kept get_layer_count now p s = StaysInside-arrays b fits s s refl refl refl
  run_command-Kept get_keymap_buffer now p s = StaysInside-arrays b fits s s refl refl refl
  run_command-Kept get_encoder now p s = StaysInside-arrays b fits s s refl refl refl
  run_command-Kept unhandled now p s = StaysInside-arrays b fits s s refl refl refl

  -- With a configuration whose sizes fit their C++ types, for every packet and time and every
  -- state, with whatever lies in memory behind the arrays: process writes nothing behind the
  -- keyCount codes of the key map, the encoder codes of the encoder map and the macroBytes bytes of
  -- the macros.
  pub process-StaysInside :
      (now : ℕ) (p : Packet) (s : State S C) → StaysInside b.config s (process b now p s).2
  unfolding process
  process-StaysInside now p s = run_command-Kept (command_of (at p 0)) now p s
