-- ===== src/Protocol/Reset.antt =====
-- Protocol::factoryReset of src/VIA_Protocol.cpp.
pub mod Good
pub mod Frame
pub mod Staged
pub mod Finish
pub mod Restores
pub mod Roundtrip
use via_arduino.Base.{ℕ, ◌+◌, ◌-◌, Bool, true, false, not, ◌||◌, none, some, List}
use via_arduino.Base.{length, splice, slice, take, replicate, ltb, ◌==◌, if◌then◌else◌, le32_bytes}
use via_arduino.Protocol.Config.{keymap_bytes, encoder_map_bytes, state_bytes, load_buffer_valid}
use via_arduino.Protocol.Config.{header_size}
use via_arduino.Protocol.Board.{Board, State, changed, layout_options_changed}
use via_arduino.Protocol.Board.{notify, custom_size}
use via_arduino.Protocol.Persist.{words_bytes, header_bytes, payload_crc, Action, ◌>>◌, publish}

module _ {S C : Type 0} (b : Board S C) where
  -- The defaults laid out in the load buffer: key map, encoder map, cleared macros, options.
  unfoldable pub stage_defaults : List ℕ → List ℕ
  stage_defaults buffer =
      let c = b.config in
      let macro_at = keymap_bytes c + encoder_map_bytes c in
      let keys = splice buffer 0 (take (keymap_bytes c) (words_bytes c.default_keymap)) in
      let encoders =
        if encoder_map_bytes c == 0
        then keys
        else splice keys (keymap_bytes c)
            (take (encoder_map_bytes c) (words_bytes c.default_encoder_map)) in
      let cleared =
        if c.macro_bytes == 0
        then encoders
        else splice encoders macro_at (replicate c.macro_bytes 0) in
      splice cleared (macro_at + c.macro_bytes) (le32_bytes c.default_layout_options)

  -- The custom value is reset and its bytes staged, zeros where saveState refuses; the flag is
  -- what validateState says of them.
  unfoldable pub stage_custom : ℕ → State S C → Bool × State S C
  stage_custom bytes s = elim s.custom [
    | none ↦ (true, s)
    | some c ↦
        let size = b.custom_ops.state_size c in
        let c' = b.custom_ops.reset_value c in
        let buffer =
          let kept : List ℕ = elim (b.custom_ops.save_state c' size) [
            | none ↦ splice s.load_buffer (bytes - size) (replicate size 0)
            | some image ↦ splice s.load_buffer (bytes - size) image
          ] in
          kept in
        if size == 0 then (true, s) else (
          b.custom_ops.validate_state c' (slice buffer (bytes - size) size) size,
          record s { custom = some c'; load_buffer = buffer },
        )
  ]

  -- The storage calls: erase, the header with no CRC, the payload, the whole header, commit.
  unfoldable pub write_defaults : List ℕ → Action S
  write_defaults payload =
      let ops = b.storage_ops in
      let bytes = length payload in
      ops.erase
      >> ops.write 0 (header_bytes bytes 0)
      >> ops.write header_size payload
      >> ops.write 0 (header_bytes bytes (payload_crc payload))
      >> ops.commit

  -- (void)customValue_->loadState(…)
  unfoldable pub reload_custom : ℕ → State S C → State S C
  reload_custom bytes s = elim s.custom [
    | none ↦ s
    | some c ↦
        let size = b.custom_ops.state_size c in
        let (_, c') = b.custom_ops.load_state c (slice s.load_buffer (bytes - size) size) size in
        if size == 0 then s else record s { custom = some c' }
  ]

  unfoldable pub finish_reset : ℕ → State S C → Bool × State S C
  unfolding reload_custom publish
  finish_reset bytes s =
      let s' = publish b (reload_custom bytes s) in
      (true, notify b changed (notify b (layout_options_changed s'.layout_options) s'))

  unfoldable pub reset_storage : ℕ → S → State S C → Bool × State S C
  unfolding write_defaults finish_reset
  reset_storage bytes store s =
      let (written, store') = write_defaults (take bytes s.load_buffer) store in
      let s' = record s { storage = some store' } in
      if written then finish_reset bytes s' else (false, s')

  unfoldable pub factory_reset : State S C → Bool × State S C
  unfolding stage_defaults stage_custom reset_storage
  factory_reset s = elim s.storage [
    | none ↦ (false, s)
    | some store ↦ elim (state_bytes b.config (custom_size b s)) [
      | none ↦ (false, s)
      | some bytes ↦
          if not (load_buffer_valid b.config bytes)
            || ltb (b.storage_ops.capacity store) (header_size + bytes)
          then (false, s)
          else let (valid, s') =
              stage_custom bytes (record s { load_buffer = stage_defaults s.load_buffer }) in
            if valid then reset_storage bytes store s' else (false, s')
    ]
  ]
