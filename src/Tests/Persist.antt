-- ===== src/Tests/Persist.antt =====
-- Save and load on the small keyboard.
use via_arduino.Base.{◌≡◌, refl, arith, true, false, Option, some, [], ◌∷◌, replicate}
use via_arduino.Protocol.Config.{key_count, keymap_bytes, encoder_map_bytes, state_bytes}
use via_arduino.Protocol.Config.{required_load_buffer_size, load_buffer_valid, ranges_overlap}
use via_arduino.Protocol.Sizes.{IsConfig}
use via_arduino.Protocol.Valid.{IsValid, IsDefaults}
use via_arduino.Protocol.Persist.{save, load, custom_image, header_bytes, words_bytes}
use via_arduino.Protocol.Persist.Roundtrip.{save-load}
use via_arduino.Protocol.Reset.{factory_reset, stage_defaults, write_defaults, finish_reset}
use via_arduino.Protocol.Reset.Roundtrip.{factory_reset-load}
use via_arduino.Memory.{MemoryStorage, write, erase}
use via_arduino.Memory.Laws.{IsUsable, memory-IsStorage, stored_bytes}
use via_arduino.RgbLight.{save_state, validate_state}
use via_arduino.RgbLight.Laws.{rgb-IsPersistent}
use via_arduino.Tests.Fixture.{tiny_config, tiny_board, edited, powered_on, blank_storage}

pub tiny-IsConfig : IsConfig tiny_config
tiny-IsConfig = omega arith

pub edited-IsValid : IsValid tiny_config edited
unfolding key_count encoder_map_bytes
edited-IsValid = ground arith

pub powered_on-IsValid : (o : Option MemoryStorage) → IsValid tiny_config (powered_on o)
unfolding key_count encoder_map_bytes
powered_on-IsValid o = ground arith

abbrev saved_store : Option MemoryStorage
saved_store = (save tiny_board edited).1.storage

blank-IsUsable : (store : MemoryStorage) → some blank_storage ≡ some store → IsUsable store
blank-IsUsable store e = record {
  bytes = replicate 100 0xFF;
  given = ground arith;
  sized = ground arith;
}

edited_saves : save tiny_board edited ≡ (true, (save tiny_board edited).1)
unfolding save write save_state state_bytes header_bytes keymap_bytes key_count words_bytes
    encoder_map_bytes
edited_saves = refl

tiny_room : load_buffer_valid tiny_config (required_load_buffer_size tiny_config 5) ≡ true
unfolding load_buffer_valid required_load_buffer_size state_bytes ranges_overlap keymap_bytes
    encoder_map_bytes key_count
tiny_room = refl

save-load_example :
    ((load tiny_board (powered_on saved_store)).0 ≡ true)
    × ((load tiny_board (powered_on saved_store)).1.keymap ≡ edited.keymap)
    × ((load tiny_board (powered_on saved_store)).1.encoder_map ≡ edited.encoder_map)
    × ((load tiny_board (powered_on saved_store)).1.macros ≡ edited.macros)
    × ((load tiny_board (powered_on saved_store)).1.layout_options ≡ 0xDEADBEEF)
    × (custom_image tiny_board (load tiny_board (powered_on saved_store)).1
        ≡ custom_image tiny_board edited)
    × ((load tiny_board (powered_on saved_store)).1.dirty ≡ false)
save-load_example =
    save-load tiny_board IsUsable stored_bytes memory-IsStorage rgb-IsPersistent tiny-IsConfig
      edited (save tiny_board edited).1 (powered_on saved_store) edited-IsValid
      (powered_on-IsValid saved_store) blank-IsUsable edited_saves refl refl tiny_room

tiny-IsDefaults : IsDefaults tiny_config
unfolding key_count encoder_map_bytes
tiny-IsDefaults = ground arith

abbrev reset_store : Option MemoryStorage
reset_store = (factory_reset tiny_board edited).1.storage

edited_resets : factory_reset tiny_board edited ≡ (true, (factory_reset tiny_board edited).1)
unfolding factory_reset stage_defaults write_defaults finish_reset save_state state_bytes
    header_bytes keymap_bytes key_count words_bytes encoder_map_bytes load_buffer_valid
    ranges_overlap validate_state erase write
edited_resets = refl

dim_image : custom_image tiny_board edited ≡ some (10 ∷ 1 ∷ 2 ∷ 3 ∷ 4 ∷ [])
unfolding custom_image save_state
dim_image = refl

factory_reset-load_example :
    (((factory_reset tiny_board edited).1.keymap ≡ tiny_config.default_keymap)
      × ((factory_reset tiny_board edited).1.encoder_map ≡ tiny_config.default_encoder_map)
      × ((factory_reset tiny_board edited).1.macros ≡ 0 ∷ 0 ∷ 0 ∷ [])
      × ((factory_reset tiny_board edited).1.layout_options ≡ 7)
      × (custom_image tiny_board (factory_reset tiny_board edited).1
          ≡ some (10 ∷ 1 ∷ 2 ∷ 3 ∷ 4 ∷ []))
      × ((factory_reset tiny_board edited).1.dirty ≡ false))
    × ((load tiny_board (powered_on reset_store)).0 ≡ true)
    × ((load tiny_board (powered_on reset_store)).1.keymap
        ≡ (factory_reset tiny_board edited).1.keymap)
    × ((load tiny_board (powered_on reset_store)).1.encoder_map
        ≡ (factory_reset tiny_board edited).1.encoder_map)
    × ((load tiny_board (powered_on reset_store)).1.macros
        ≡ (factory_reset tiny_board edited).1.macros)
    × ((load tiny_board (powered_on reset_store)).1.layout_options
        ≡ (factory_reset tiny_board edited).1.layout_options)
    × (custom_image tiny_board (load tiny_board (powered_on reset_store)).1
        ≡ some (10 ∷ 1 ∷ 2 ∷ 3 ∷ 4 ∷ []))
    × ((load tiny_board (powered_on reset_store)).1.dirty ≡ false)
factory_reset-load_example =
    factory_reset-load tiny_board IsUsable stored_bytes memory-IsStorage rgb-IsPersistent
      tiny-IsConfig tiny-IsDefaults (10 ∷ 1 ∷ 2 ∷ 3 ∷ 4 ∷ []) edited
      (factory_reset tiny_board edited).1 (powered_on reset_store) edited-IsValid
      (powered_on-IsValid reset_store) blank-IsUsable (λ c. refl) dim_image edited_resets refl refl
      tiny_room
