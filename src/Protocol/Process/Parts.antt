-- ===== src/Protocol/Process/Parts.antt =====
-- A new key map, encoder map, macro text or option word in range keeps a state good, and so do
-- markDirty and the resets of the key maps and the macros.
use via_arduino.Base.{ℕ, ◌/◌, ◌^◌, ◌<◌, ◌≡◌, arith, ◌∙◌}
use via_arduino.Base.{List, length, splice, take}
use via_arduino.Base.{either, ◌==◌}
use via_arduino.Base.{length-splice}
use via_arduino.Protocol.Config.{encoder_map_bytes, key_count}
use via_arduino.Protocol.Board.{Board, State}
use via_arduino.Protocol.Valid.{Below, Below-splice, Below-take, Below-replicate}
use via_arduino.Protocol.Valid.{IsDefaults}
use via_arduino.Protocol.Keymap.{mark_dirty, reset_keymaps, reset_macros}
use via_arduino.Protocol.Persist.Good.{IsGood, IsGood-Same}

module _ {S C : Type 0} (b : Board S C) (Sound : C → Type 0) where
  pub mark_dirty-IsGood :
      (now : ℕ) (s : State S C) → IsGood b Sound s → IsGood b Sound (mark_dirty b now s)
  unfolding mark_dirty
  mark_dirty-IsGood now s = IsGood-Same b Sound s (mark_dirty b now s) (ground arith) (ground arith)

  pub IsGood-keymap :
      (s : State S C) (keys : List ℕ)
      → IsGood b Sound s
      → (length keys ≡ key_count b.config) × Below (2 ^ 16) keys
      → IsGood b Sound (record s { keymap = keys })
  IsGood-keymap s keys g h = record {
    valid = record {
      keymap_size = h.0;
      keymap_range = h.1;
      encoder_size = g.valid.encoder_size;
      encoder_range = g.valid.encoder_range;
      macro_size = g.valid.macro_size;
      macro_range = g.valid.macro_range;
      load_size = g.valid.load_size;
      load_range = g.valid.load_range;
      options_range = g.valid.options_range;
    };
    sound = g.sound;
  }

  pub IsGood-encoders :
      (s : State S C) (codes : List ℕ)
      → IsGood b Sound s
      → (length codes ≡ encoder_map_bytes b.config / 2) × Below (2 ^ 16) codes
      → IsGood b Sound (record s { encoder_map = codes })
  IsGood-encoders s codes g h = record {
    valid = record {
      keymap_size = g.valid.keymap_size;
      keymap_range = g.valid.keymap_range;
      encoder_size = h.0;
      encoder_range = h.1;
      macro_size = g.valid.macro_size;
      macro_range = g.valid.macro_range;
      load_size = g.valid.load_size;
      load_range = g.valid.load_range;
      options_range = g.valid.options_range;
    };
    sound = g.sound;
  }

  pub IsGood-macros :
      (s : State S C) (text : List ℕ)
      → IsGood b Sound s
      → (length text ≡ b.config.macro_bytes) × Below 256 text
      → IsGood b Sound (record s { macros = text })
  IsGood-macros s text g h = record {
    valid = record {
      keymap_size = g.valid.keymap_size;
      keymap_range = g.valid.keymap_range;
      encoder_size = g.valid.encoder_size;
      encoder_range = g.valid.encoder_range;
      macro_size = h.0;
      macro_range = h.1;
      load_size = g.valid.load_size;
      load_range = g.valid.load_range;
      options_range = g.valid.options_range;
    };
    sound = g.sound;
  }

  pub IsGood-options :
      (s : State S C) (options : ℕ)
      → IsGood b Sound s
      → options < 2 ^ 32
      → IsGood b Sound (record s { layout_options = options })
  IsGood-options s options g h = record {
    valid = record {
      keymap_size = g.valid.keymap_size;
      keymap_range = g.valid.keymap_range;
      encoder_size = g.valid.encoder_size;
      encoder_range = g.valid.encoder_range;
      macro_size = g.valid.macro_size;
      macro_range = g.valid.macro_range;
      load_size = g.valid.load_size;
      load_range = g.valid.load_range;
      options_range = h;
    };
    sound = g.sound;
  }

  pub reset_keymaps-IsGood :
      (s : State S C) → IsDefaults b.config → IsGood b Sound s → IsGood b Sound (reset_keymaps b s)
  unfolding reset_keymaps
  reset_keymaps-IsGood s d g =
      let keys = splice s.keymap 0 (take (key_count b.config) b.config.default_keymap) in
      let codes =
        splice s.encoder_map 0
          (take (encoder_map_bytes b.config / 2) b.config.default_encoder_map) in
      let s' = record s { keymap = keys } in
      let g' : IsGood b Sound s' = IsGood-keymap s keys g (
        length-splice s.keymap 0 _ ∙ g.valid.keymap_size,
        Below-splice (2 ^ 16) s.keymap 0 _ g.valid.keymap_range
            (Below-take (2 ^ 16) _ b.config.default_keymap d.default_key_range),
      ) in
      either (λ (m : List ℕ). IsGood b Sound (record s { keymap = keys; encoder_map = m }))
        (encoder_map_bytes b.config == 0) {x = s.encoder_map} {y = codes} g'
        (IsGood-encoders s' codes g' (
          length-splice s.encoder_map 0 _ ∙ g.valid.encoder_size,
          Below-splice (2 ^ 16) s.encoder_map 0 _ g.valid.encoder_range
              (Below-take (2 ^ 16) _ b.config.default_encoder_map d.default_encoder_range),
        ))

  pub reset_macros-IsGood : (s : State S C) → IsGood b Sound s → IsGood b Sound (reset_macros b s)
  unfolding reset_macros
  reset_macros-IsGood s g = either (IsGood b Sound) (b.config.macro_bytes == 0) {x = s} g (
      IsGood-macros s _ g (
        length-splice s.macros 0 _ ∙ g.valid.macro_size,
        Below-splice 256 s.macros 0 _ g.valid.macro_range
            (Below-replicate 256 b.config.macro_bytes 0 (omega arith)),
      ))
