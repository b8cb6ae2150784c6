-- ===== src/Protocol/Process/Answers.antt =====
-- Each part of Protocol::process keeps the arrays in size and range and answers with a packet.
use via_arduino.Base.{ℕ, ◌^◌, ◌<◌, ◌∙◌}
use via_arduino.Base.{slice, set}
use via_arduino.Base.{Bool, true, false, not, ◌||◌, some}
use via_arduino.Base.{if◌then◌else◌, either, optionally, ◌==◌, be32}
use via_arduino.Base.{length-set}
use via_arduino.Protocol.Config.{keymap_bytes}
use via_arduino.Protocol.Board.{Board, State, notify, layout_options_changed}
use via_arduino.Protocol.Board.{device_indication}
use via_arduino.Protocol.Contract.{IsByteWise}
use via_arduino.Protocol.Valid.{Below-set}
use via_arduino.Protocol.Valid.{IsPacket}
use via_arduino.Protocol.Keymap.{
  key_index, encoder_index, out_of_map, out_of_encoders, set_keycode, set_encoder_keycode,
}
use via_arduino.Protocol.Keymap.{mark_dirty}
use via_arduino.Protocol.Keymap.{write_macros, write_dynamic_keymap}
use via_arduino.Protocol.Keymap.Bytes.{write_dynamic_keymap_sound}
use via_arduino.Protocol.Keymap.Macros.{write_macros_sound}
use via_arduino.Protocol.Persist.{save}
use via_arduino.Protocol.Persist.Validity.{Below-slice}
use via_arduino.Protocol.Persist.Good.{IsGood, IsGood-custom, IsGood-notify, save-IsGood}
use via_arduino.Protocol.Reset.{factory_reset}
use via_arduino.Protocol.Reset.Good.{factory_reset-IsGood}
use via_arduino.Protocol.Packet.{Packet, at, refuse, chunk_offset, chunk_size}
use via_arduino.Protocol.Process.{
  store_keyboard_value, settle, set_custom, get_custom, commit_custom,
}
use via_arduino.Protocol.Process.{
  reset_stored, prepare_jump, store_macros, store_keymap, read_encoder,
}
use via_arduino.Protocol.Process.{has_callbacks}
use via_arduino.Protocol.Process.Packets.{at-lt, IsPacket-refuse, IsPacket-put16, be32-lt}
use via_arduino.Protocol.Process.Parts.{mark_dirty-IsGood, IsGood-keymap, IsGood-encoders}
use via_arduino.Protocol.Process.Parts.{IsGood-macros, IsGood-options}

module _ {S C : Type 0} (b : Board S C) (Sound : C → Type 0) where
  -- The answer is a packet and the state after it is good.
  pub record Answers (r : Packet × State S C) : Type 0 where
    pub packet : IsPacket r.0
    pub good : IsGood b Sound r.1

  pub settle-Answers :
      (now : ℕ) (p : Packet) (r : Bool × State S C)
      → IsPacket p
      → IsGood b Sound r.1
      → Answers (settle b now p r)
  unfolding settle
  settle-Answers now p r h g =
      either Answers r.0 {x = (p, mark_dirty b now r.1)} {y = (refuse p, r.1)}
        (record { packet = h; good = mark_dirty-IsGood b Sound now r.1 g })
        (record { packet = IsPacket-refuse p h; good = g })

  pub set_keycode-IsGood :
      (layer row column value : ℕ) (s : State S C)
      → IsGood b Sound s
      → value < 2 ^ 16
      → IsGood b Sound (set_keycode b layer row column value s).1
  unfolding set_keycode
  set_keycode-IsGood layer row column value s g h =
      let keys = set s.keymap (key_index b.config layer row column) value in
      either (λ (r : Bool × State S C). IsGood b Sound r.1) (out_of_map b.config layer row column)
        {x = (false, s)} {y = (true, record s { keymap = keys })} g
        (IsGood-keymap b Sound s keys g (
          length-set s.keymap _ value ∙ g.valid.keymap_size,
          Below-set (2 ^ 16) s.keymap _ value g.valid.keymap_range h,
        ))

  pub set_encoder_keycode-IsGood :
      (layer encoder clockwise value : ℕ) (s : State S C)
      → IsGood b Sound s
      → value < 2 ^ 16
      → IsGood b Sound (set_encoder_keycode b layer encoder clockwise value s).1
  unfolding set_encoder_keycode
  set_encoder_keycode-IsGood layer encoder clockwise value s g h =
      let codes = set s.encoder_map (encoder_index b.config layer encoder clockwise) value in
      either (λ (r : Bool × State S C). IsGood b Sound r.1)
        (out_of_encoders b.config layer encoder clockwise) {x = (false, s)}
        {y = (true, record s { encoder_map = codes })} g
        (IsGood-encoders b Sound s codes g (
          length-set s.encoder_map _ value ∙ g.valid.encoder_size,
          Below-set (2 ^ 16) s.encoder_map _ value g.valid.encoder_range h,
        ))

  pub store_keyboard_value-Answers :
      (now : ℕ) (p : Packet) (s : State S C)
      → IsPacket p
      → IsGood b Sound s
      → Answers (store_keyboard_value b now p s)
  unfolding store_keyboard_value
  store_keyboard_value-Answers now p s h g =
      let options = be32 (at p 2) (at p 3) (at p 4) (at p 5) in
      let range =
        be32-lt (at p 2) (at p 3) (at p 4) (at p 5) (at-lt p 2 h) (at-lt p 3 h) (at-lt p 4 h)
          (at-lt p 5 h) in
      either Answers (at p 1 == 0x05) {x = (p, notify b (device_indication (at p 2)) s)}
        (record { packet = h; good = IsGood-notify b Sound _ s g })
        (either Answers (at p 1 == 0x02) {y = (refuse p, s)}
          (record {
            packet = h;
            good =
                IsGood-notify b Sound (layout_options_changed options) _
                  (mark_dirty-IsGood b Sound now _ (IsGood-options b Sound s options g range));
          })
          (record { packet = IsPacket-refuse p h; good = g }))

  pub prepare_jump-Answers :
      (p : Packet) (s : State S C) → IsPacket p → IsGood b Sound s → Answers (prepare_jump b p s)
  unfolding prepare_jump
  prepare_jump-Answers p s h g =
      let refused = IsPacket-refuse p h in
      let saved = save-IsGood b Sound s g in
      either Answers (not b.config.bootloader_enabled || not (has_callbacks b)) {x = (refuse p, s)}
        (record { packet = refused; good = g })
        (either Answers s.dirty {y = (p, s)}
          (record { packet = either IsPacket (save b s).0 h refused; good = saved })
          (record { packet = h; good = g }))

  pub store_macros-Answers :
      (now : ℕ) (p : Packet) (s : State S C)
      → IsPacket p
      → IsGood b Sound s
      → Answers (store_macros b now p s)
  unfolding store_macros
  store_macros-Answers now p s h g =
      let result =
        write_macros b.config.macro_bytes (chunk_offset p) (slice p 4 (chunk_size p))
          (s.macros, false) in
      let kept =
        write_macros_sound b.config.macro_bytes (chunk_offset p) (slice p 4 (chunk_size p)) s.macros
          false g.valid.macro_range (Below-slice p 4 (chunk_size p) h.bytes) in
      let s' = record s { macros = result.0 } in
      let g' : IsGood b Sound s' =
        IsGood-macros b Sound s result.0 g (kept.0 ∙ g.valid.macro_size, kept.1) in
      record {
        packet = h;
        good =
            either (IsGood b Sound) result.1 {x = mark_dirty b now s'} {y = s'}
              (mark_dirty-IsGood b Sound now s' g') g';
      }

  pub store_keymap-Answers :
      (now : ℕ) (p : Packet) (s : State S C)
      → IsPacket p
      → IsGood b Sound s
      → Answers (store_keymap b now p s)
  unfolding store_keymap
  store_keymap-Answers now p s h g =
      let result =
        write_dynamic_keymap (keymap_bytes b.config) (chunk_offset p) (slice p 4 (chunk_size p))
          (s.keymap, false) in
      let kept =
        write_dynamic_keymap_sound (keymap_bytes b.config) (chunk_offset p)
          (slice p 4 (chunk_size p)) s.keymap false g.valid.keymap_range
          (Below-slice p 4 (chunk_size p) h.bytes) in
      let s' = record s { keymap = result.0 } in
      let g' : IsGood b Sound s' =
        IsGood-keymap b Sound s result.0 g (kept.0 ∙ g.valid.keymap_size, kept.1) in
      record {
        packet = h;
        good =
            either (IsGood b Sound) result.1 {x = mark_dirty b now s'} {y = s'}
              (mark_dirty-IsGood b Sound now s' g') g';
      }

  pub read_encoder-IsPacket :
      (p : Packet) (s : State S C) → IsPacket p → IsPacket (read_encoder b p s)
  unfolding read_encoder
  read_encoder-IsPacket p s h =
      either IsPacket _ {x = refuse p} (IsPacket-refuse p h) (IsPacket-put16 p 4 _ h)

  module _ (law : IsByteWise b.custom_ops Sound) where
    pub set_custom-Answers :
        (now : ℕ) (p : Packet) (s : State S C)
        → IsPacket p
        → IsGood b Sound s
        → Answers (set_custom b now p s)
    unfolding set_custom
    set_custom-Answers now p s h g =
        optionally Answers s.custom {z = (refuse p, s)}
          (record { packet = IsPacket-refuse p h; good = g })
          (λ c e.
            let r = b.custom_ops.set_value c p in
            let kept = law.set_lem c p (rw e at g.sound) h in
            let s' = record s { custom = some r.2 } in
            let g' : IsGood b Sound s' = IsGood-custom b Sound s r.2 g kept.1 in
            either Answers r.0 {x = (r.1, mark_dirty b now s')} {y = (refuse r.1, s')}
              (record { packet = kept.0; good = mark_dirty-IsGood b Sound now s' g' })
              (record { packet = IsPacket-refuse r.1 kept.0; good = g' }))

    pub get_custom-Answers :
        (p : Packet) (s : State S C) → IsPacket p → IsGood b Sound s → Answers (get_custom b p s)
    unfolding get_custom
    get_custom-Answers p s h g =
        optionally Answers s.custom {z = (refuse p, s)}
          (record { packet = IsPacket-refuse p h; good = g })
          (λ c e.
            let r = b.custom_ops.get_value c p in
            let kept = law.get_lem c p (rw e at g.sound) h in
            record {
              packet = either IsPacket r.0 kept.0 (IsPacket-refuse r.1 kept.0);
              good = IsGood-custom b Sound s r.2 g kept.1;
            })

    pub commit_custom-Answers :
        (p : Packet) (s : State S C) → IsPacket p → IsGood b Sound s → Answers (commit_custom b p s)
    unfolding commit_custom
    commit_custom-Answers p s h g =
        optionally Answers s.custom {z = (refuse p, s)}
          (record { packet = IsPacket-refuse p h; good = g })
          (λ c e.
            let r = b.custom_ops.save_value c p in
            let kept = law.commit_lem c p (rw e at g.sound) h in
            let s' = record s { custom = some r.2 } in
            let g' : IsGood b Sound s' = IsGood-custom b Sound s r.2 g kept.1 in
            let refused = IsPacket-refuse r.1 kept.0 in
            let saved = save-IsGood b Sound s' g' in
            either Answers r.0 {x = (if (save b s').0 then r.1 else refuse r.1, (save b s').1)}
              {y = (refuse r.1, s')}
              (record { packet = either IsPacket (save b s').0 kept.0 refused; good = saved })
              (record { packet = refused; good = g' }))

    pub reset_stored-Answers :
        (p : Packet) (s : State S C) → IsPacket p → IsGood b Sound s → Answers (reset_stored b p s)
    unfolding reset_stored
    reset_stored-Answers p s h g =
        let refused = IsPacket-refuse p h in
        let r = factory_reset b s in
        either Answers b.config.eeprom_reset_enabled {x = (if r.0 then p else refuse p, r.1)}
          {y = (refuse p, s)}
          (record {
            packet = either IsPacket r.0 h refused;
            good = factory_reset-IsGood b Sound law s g;
          })
          (record { packet = refused; good = g })
