-- ===== src/Protocol/Inside.antt =====
-- What writes to the key map, the encoder map and the macros of a Protocol keep of the memory behind
-- those arrays.
use via_arduino.Base.{
  ℕ, ◌+◌, ◌*◌, ◌/◌, ◌≤◌, ◌≡◌, refl, arith, ap, ◌∙◌, false, Bool, Bool-cases, inl, inr, List, [],
  ◌∷◌, length, take, drop, slice, length-take, ltb, ◌==◌, some,
}
use via_arduino.Base.{either, optionally, not, ◌||◌}
use via_arduino.Protocol.Config.{Config, key_count, keymap_bytes, encoder_map_bytes}
use via_arduino.Protocol.Board.{Board, State}
use via_arduino.Protocol.Sizes.{IsConfig}
use via_arduino.Protocol.Keymap.{out_of_map, out_of_encoders, set_keycode, set_encoder_keycode}
use via_arduino.Protocol.Keymap.{mark_dirty, reset_keymaps, reset_macros}
use via_arduino.Protocol.Packet.{}
use via_arduino.Protocol.Process.{}
use via_arduino.Protocol.Keymap.Index.{key_index-lt, encoder_index-lt}
use via_arduino.Protocol.Persist.{publish, bytes_words, save}
use via_arduino.Protocol.Persist.Frame.{save-frame}
use via_arduino.Protocol.Config.{state_bytes, load_buffer_valid, header_size}
use via_arduino.Protocol.Board.{custom_size}
use via_arduino.Base.{replicate, length-replicate}
use via_arduino.Protocol.Reset.{
  factory_reset, stage_defaults, stage_custom, reload_custom, finish_reset, reset_storage,
  write_defaults,
}
use via_arduino.Protocol.Keymap.Behind.{drop-set, drop-splice}

length-bytes_words : (xs : List ℕ) → length (bytes_words xs) * 2 ≤ length xs
unfolding bytes_words
length-bytes_words [] = omega arith
length-bytes_words (x ∷ []) = omega arith
length-bytes_words (x ∷ y ∷ xs) = omega (arith, length-bytes_words xs)

-- What lies behind the three arrays is the same in both states: behind keyCount key codes, behind
-- encoderMapBytes / 2 encoder codes and behind macroBytes bytes.
pub record StaysInside {S C : Type 0} (c : Config) (s s' : State S C) : Type 0 where
  pub behind_keys : drop (key_count c) s'.keymap ≡ drop (key_count c) s.keymap
  pub behind_encoders :
      drop (encoder_map_bytes c / 2) s'.encoder_map ≡ drop (encoder_map_bytes c / 2) s.encoder_map
  pub behind_macros : drop c.macro_bytes s'.macros ≡ drop c.macro_bytes s.macros

module _ {S C : Type 0} (b : Board S C) (fits : IsConfig b.config) where
  pub StaysInside-arrays :
      (s s' : State S C)
      → s'.keymap ≡ s.keymap
      → s'.encoder_map ≡ s.encoder_map
      → s'.macros ≡ s.macros
      → StaysInside b.config s s'
  StaysInside-arrays s s' keys encoders macros = record {
    behind_keys = ap (drop (key_count b.config)) keys;
    behind_encoders = ap (drop (encoder_map_bytes b.config / 2)) encoders;
    behind_macros = ap (drop b.config.macro_bytes) macros;
  }

  pub StaysInside-trans :
      (s s' s'' : State S C)
      → StaysInside b.config s s'
      → StaysInside b.config s' s''
      → StaysInside b.config s s''
  StaysInside-trans s s' s'' p q = record {
    behind_keys = q.behind_keys ∙ p.behind_keys;
    behind_encoders = q.behind_encoders ∙ p.behind_encoders;
    behind_macros = q.behind_macros ∙ p.behind_macros;
  }

  pub set_keycode-StaysInside :
      (layer row column value : ℕ) (s : State S C)
      → StaysInside b.config s (set_keycode b layer row column value s).1
  unfolding set_keycode
  set_keycode-StaysInside layer row column value s =
      elim (Bool-cases (out_of_map b.config layer row column)) [
        | inl refused ↦ rw refused (StaysInside-arrays s s refl refl refl)
        | inr within ↦
            let below =
              key_index-lt b.config layer row column fits (ground (arith, within))
                (ground (arith, within)) (ground (arith, within)) in
            rw within (record {
              behind_keys = drop-set (key_count b.config) _ value s.keymap below;
              behind_encoders = refl;
              behind_macros = refl;
            })
      ]

  pub set_encoder_keycode-StaysInside :
      (layer encoder clockwise value : ℕ) (s : State S C)
      → StaysInside b.config s (set_encoder_keycode b layer encoder clockwise value s).1
  unfolding set_encoder_keycode
  set_encoder_keycode-StaysInside layer encoder clockwise value s =
      elim (Bool-cases (out_of_encoders b.config layer encoder clockwise)) [
        | inl refused ↦ rw refused (StaysInside-arrays s s refl refl refl)
        | inr within ↦
            let below =
              encoder_index-lt b.config layer encoder clockwise fits (ground (arith, within))
                (ground (arith, within)) (ground (arith, within)) in
            rw within (record {
              behind_keys = refl;
              behind_encoders =
                  drop-set (encoder_map_bytes b.config / 2) _ value s.encoder_map below;
              behind_macros = refl;
            })
      ]

  pub mark_dirty-StaysInside :
      (now : ℕ) (s : State S C) → StaysInside b.config s (mark_dirty b now s)
  unfolding mark_dirty
  mark_dirty-StaysInside now s =
      StaysInside-arrays s (mark_dirty b now s) (ground arith) (ground arith) (ground arith)

  pub publish-StaysInside : (s : State S C) → StaysInside b.config s (publish b s)
  unfolding publish keymap_bytes
  publish-StaysInside s =
      let c = b.config in
      let keys = slice s.load_buffer 0 (keymap_bytes c) in
      let codes = slice s.load_buffer (keymap_bytes c) (encoder_map_bytes c) in
      let text = slice s.load_buffer (keymap_bytes c + encoder_map_bytes c) c.macro_bytes in
      record {
        behind_keys =
            drop-splice (key_count c) 0 s.keymap (bytes_words keys)
              (omega (arith, length-bytes_words keys, length-take (keymap_bytes c) s.load_buffer));
        behind_encoders =
            either
              (λ (xs : List ℕ).
                drop (encoder_map_bytes c / 2) xs ≡ drop (encoder_map_bytes c / 2) s.encoder_map)
              (encoder_map_bytes c == 0) {x = s.encoder_map} refl
              (drop-splice (encoder_map_bytes c / 2) 0 s.encoder_map (bytes_words codes) (
                omega (
                  arith,
                  length-bytes_words codes,
                  length-take (encoder_map_bytes c) (drop (keymap_bytes c) s.load_buffer),
                )));
        behind_macros =
            either (λ (xs : List ℕ). drop c.macro_bytes xs ≡ drop c.macro_bytes s.macros)
              (c.macro_bytes == 0) {x = s.macros} refl
              (drop-splice c.macro_bytes 0 s.macros text (
                omega (
                  arith,
                  length-take c.macro_bytes
                      (drop (keymap_bytes c + encoder_map_bytes c) s.load_buffer),
                )));
      }

  pub reset_keymaps-StaysInside : (s : State S C) → StaysInside b.config s (reset_keymaps b s)
  unfolding reset_keymaps
  reset_keymaps-StaysInside s =
      let c = b.config in
      record {
        behind_keys =
            drop-splice (key_count c) 0 s.keymap (take (key_count c) c.default_keymap)
              (omega (arith, length-take (key_count c) c.default_keymap));
        behind_encoders =
            either
              (λ (xs : List ℕ).
                drop (encoder_map_bytes c / 2) xs ≡ drop (encoder_map_bytes c / 2) s.encoder_map)
              (encoder_map_bytes c == 0) {x = s.encoder_map} refl
              (drop-splice (encoder_map_bytes c / 2) 0 s.encoder_map
                (take (encoder_map_bytes c / 2) c.default_encoder_map)
                (omega (arith, length-take (encoder_map_bytes c / 2) c.default_encoder_map)));
        behind_macros = refl;
      }

  pub reset_macros-StaysInside : (s : State S C) → StaysInside b.config s (reset_macros b s)
  unfolding reset_macros
  reset_macros-StaysInside s =
      let n = b.config.macro_bytes in
      either (StaysInside b.config s) (n == 0) {x = s} (StaysInside-arrays s s refl refl refl)
        (record {
          behind_keys = refl;
          behind_encoders = refl;
          behind_macros =
              drop-splice n 0 s.macros (replicate n 0)
                (omega (arith, length-replicate {A = ℕ} n 0));
        })

  pub save-StaysInside : (s : State S C) → StaysInside b.config s (save b s).1
  save-StaysInside s =
      let frame = save-frame b s in
      StaysInside-arrays s (save b s).1 (ap (λ (r : State S C). r.keymap) frame)
        (ap (λ (r : State S C). r.encoder_map) frame) (ap (λ (r : State S C). r.macros) frame)

  finish_reset-StaysInside : (n : ℕ) (s : State S C) → StaysInside b.config s (finish_reset b n s).1
  unfolding finish_reset reload_custom
  finish_reset-StaysInside n s =
      let s' = reload_custom b n s in
      let told = finish_reset b n s in
      StaysInside-trans s s' told.1
        (StaysInside-arrays s s' (ground arith) (ground arith) (ground arith))
        (StaysInside-trans s' (publish b s') told.1 (publish-StaysInside s')
          (StaysInside-arrays (publish b s') told.1 (ground arith) (ground arith) (ground arith)))

  reset_storage-StaysInside :
      (n : ℕ) (store : S) (s : State S C) → StaysInside b.config s (reset_storage b n store s).1
  unfolding reset_storage
  reset_storage-StaysInside n store s =
      let (written, store') = write_defaults b (take n s.load_buffer) store in
      let s' = record s { storage = some store' } in
      let kept = StaysInside-arrays s s' refl refl refl in
      either (λ (r : Bool × State S C). StaysInside b.config s r.1) written
        {x = finish_reset b n s'} {y = (false, s')}
        (StaysInside-trans s s' (finish_reset b n s').1 kept (finish_reset-StaysInside n s')) kept

  pub factory_reset-StaysInside : (s : State S C) → StaysInside b.config s (factory_reset b s).1
  unfolding factory_reset stage_custom
  factory_reset-StaysInside s =
      let Kept = λ (r : Bool × State S C). StaysInside b.config s r.1 in
      let same = StaysInside-arrays s s refl refl refl in
      optionally Kept s.storage {z = (false, s)} same (λ store _.
        optionally Kept (state_bytes b.config (custom_size b s)) {z = (false, s)} same (λ n _.
          let staged = record s { load_buffer = stage_defaults b s.load_buffer } in
          let custom = stage_custom b n staged in
          let kept = StaysInside-arrays s custom.1 (ground arith) (ground arith) (ground arith) in
          either Kept
            (not (load_buffer_valid b.config n)
              || ltb (b.storage_ops.capacity store) (header_size + n))
            {x = (false, s)} same
            (either Kept custom.0 {x = reset_storage b n store custom.1} {y = (false, custom.1)}
              (StaysInside-trans s custom.1 (reset_storage b n store custom.1).1 kept
                (reset_storage-StaysInside n store custom.1))
              kept)))
