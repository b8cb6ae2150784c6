-- ===== src/Tests/Commands.antt =====
-- Commands, load and reset on the small keyboard.
use via_arduino.Base.{
  ℕ, ◌+◌, ◌*◌, ◌≤◌, ◌<◌, ◌≡◌, ◌↔◌, refl, arith, true, false, not, ◌&&◌, Option, some, none, [], ◌∷◌,
}
use via_arduino.Base.{be16, if◌then◌else◌, ltb}
use via_arduino.Protocol.Config.{
  load_buffer_valid, key_count, keymap_bytes, encoder_map_bytes, state_bytes, ranges_overlap,
  header_size, max_custom_state_size,
}
use via_arduino.Protocol.Board.{State}
use via_arduino.Protocol.Sizes.{state_bytes_iff, ranges_overlap_iff}
use via_arduino.Protocol.Valid.{IsPacket, IsDefaults}
use via_arduino.Protocol.Keymap.{keycode, encoder_keycode, out_of_map, out_of_encoders}
use via_arduino.Protocol.Persist.{save, load, header_matches}
use via_arduino.Protocol.Persist.Frame.{save-frame, failed_load-frame}
use via_arduino.Protocol.Persist.Good.{IsGood}
use via_arduino.Protocol.Reset.{factory_reset}
use via_arduino.Protocol.Reset.Frame.{failed_reset-frame}
use via_arduino.Protocol.Packet.{Packet, at}
use via_arduino.Protocol.Process.{process}
use via_arduino.Protocol.Process.Buffers.{keymap_buffer_roundtrip, macro_buffer_roundtrip}
use via_arduino.Protocol.Process.Keys.{names, keycode-process, encoder_keycode-process}
use via_arduino.Protocol.Task.{begin}
use via_arduino.Protocol.Task.Started.{begin-Started, Started, Refusal, Acceptance}
use via_arduino.Protocol.Inside.{StaysInside}
use via_arduino.Protocol.Process.Inside.{process-StaysInside}
use via_arduino.Base.{◌++◌, ◌⊎◌}
use via_arduino.Memory.{MemoryStorage, read, erase}
use via_arduino.RgbLight.{RgbLight, validate_state}
use via_arduino.RgbLight.Laws.{IsByteState}
use via_arduino.Tests.Fixture.{tiny_config, tiny_board, edited, powered_on, blank_storage, request}
use via_arduino.Tests.Persist.{tiny-IsConfig, edited-IsValid, powered_on-IsValid}

tiny-IsDefaults : IsDefaults tiny_config
unfolding key_count encoder_map_bytes
tiny-IsDefaults = ground arith

edited-IsGood : IsGood tiny_board IsByteState edited
edited-IsGood = record { valid = edited-IsValid; sound = ground arith }

powered_on-IsGood : (o : Option MemoryStorage) → IsGood tiny_board IsByteState (powered_on o)
powered_on-IsGood o = record { valid = powered_on-IsValid o; sound = ground arith }

-- Set the code of key (1, 1) of layer 0 to 0x7C00.
abbrev pub set_key : Packet
set_key = request (0x05 ∷ 0 ∷ 1 ∷ 1 ∷ 0x7C ∷ 0x00 ∷ [])

pub set_key-IsPacket : IsPacket set_key
set_key-IsPacket = record { full = refl; bytes = ground arith }

-- A protocol whose arrays have other memory behind them.
abbrev in_memory : State MemoryStorage RgbLight
in_memory = record edited {
  keymap = edited.keymap ++ 1 ∷ 2 ∷ [];
  encoder_map = edited.encoder_map ++ 3 ∷ [];
  macros = edited.macros ++ 4 ∷ [];
}

process-StaysInside_example :
    StaysInside tiny_config in_memory (process tiny_board 7 set_key in_memory).2
process-StaysInside_example = process-StaysInside tiny_board tiny-IsConfig 7 set_key in_memory

begin-Started_example :
    let before = powered_on (some blank_storage) in
    ((begin tiny_board 7 before ≡ (false, before)) × Refusal tiny_board before)
    ⊎ (((begin tiny_board 7 before).0 ≡ true)
        × Started tiny_board 7 before (begin tiny_board 7 before).1
        × Acceptance tiny_board before)
begin-Started_example =
    begin-Started tiny_board tiny-IsDefaults 7 (powered_on (some blank_storage))
      (powered_on-IsValid (some blank_storage))

keycode-process_example :
    ((process tiny_board 7 set_key edited).0 ≡ not (out_of_map tiny_config 0 1 1))
    × (keycode tiny_board (process tiny_board 7 set_key edited).2 0 1 1 ≡ (
        if names set_key 0 1 1 && not (out_of_map tiny_config 0 1 1)
        then be16 0x7C 0x00
        else keycode tiny_board edited 0 1 1))
keycode-process_example =
    keycode-process tiny_board 7 set_key edited 0 1 1 tiny-IsConfig edited-IsValid set_key-IsPacket
      refl

abbrev turn_knob : Packet
turn_knob = request (0x15 ∷ 1 ∷ 0 ∷ 1 ∷ 0x00 ∷ 0x4F ∷ [])

encoder_keycode-process_example :
    ((process tiny_board 7 turn_knob edited).0 ≡ not (out_of_encoders tiny_config 1 0 1))
    × (encoder_keycode tiny_board (process tiny_board 7 turn_knob edited).2 1 0 1 ≡ (
        if names turn_knob 1 0 1 && not (out_of_encoders tiny_config 1 0 1)
        then be16 0x00 0x4F
        else encoder_keycode tiny_board edited 1 0 1))
encoder_keycode-process_example =
    encoder_keycode-process tiny_board 7 turn_knob edited 1 0 1 tiny-IsConfig edited-IsValid
      (record { full = refl; bytes = ground arith }) refl

-- Three key map bytes at offset 13, past the end at 16 with the fourth, and their read.
abbrev put_keys : Packet
put_keys = request (0x13 ∷ 0 ∷ 13 ∷ 4 ∷ 1 ∷ 2 ∷ 3 ∷ 9 ∷ [])

abbrev get_keys : Packet
get_keys = request (0x12 ∷ 0 ∷ 13 ∷ 4 ∷ [])

keymap_buffer_roundtrip_example :
    at (process tiny_board 8 get_keys (process tiny_board 7 put_keys edited).2).1 6
    ≡ (if ltb 15 (keymap_bytes tiny_config) then 3 else 0)
keymap_buffer_roundtrip_example =
    keymap_buffer_roundtrip tiny_board 7 8 put_keys get_keys edited 2 tiny-IsConfig edited-IsValid
      (record { full = refl; bytes = ground arith }) (record { full = refl; bytes = ground arith })
      refl refl refl refl refl (omega arith)

abbrev put_macro : Packet
put_macro = request (0x0F ∷ 0 ∷ 1 ∷ 2 ∷ 65 ∷ 66 ∷ [])

abbrev get_macro : Packet
get_macro = request (0x0E ∷ 0 ∷ 1 ∷ 2 ∷ [])

macro_buffer_roundtrip_example :
    at (process tiny_board 8 get_macro (process tiny_board 7 put_macro edited).2).1 5
    ≡ (if ltb 2 tiny_config.macro_bytes then 66 else 0)
macro_buffer_roundtrip_example =
    macro_buffer_roundtrip tiny_board 7 8 put_macro get_macro edited 1 edited-IsValid
      (record { full = refl; bytes = ground arith }) (record { full = refl; bytes = ground arith })
      refl refl refl refl refl (omega arith)

save-frame_example : (save tiny_board edited).1 ≡ record edited {
  storage = (save tiny_board edited).1.storage;
  dirty = if (save tiny_board edited).0 then false else true;
}
save-frame_example = save-frame tiny_board edited

-- A load from a blank storage fails.
blank_load :
    load tiny_board (powered_on (some blank_storage))
    ≡ (false, (load tiny_board (powered_on (some blank_storage))).1)
unfolding load state_bytes load_buffer_valid ranges_overlap keymap_bytes key_count encoder_map_bytes
    read header_matches
blank_load = refl

failed_load-frame_example :
    (load tiny_board (powered_on (some blank_storage))).1
    ≡ record (powered_on (some blank_storage)) {
      load_buffer = (load tiny_board (powered_on (some blank_storage))).1.load_buffer;
      custom = (load tiny_board (powered_on (some blank_storage))).1.custom;
    }
failed_load-frame_example =
    failed_load-frame tiny_board (powered_on (some blank_storage))
      (load tiny_board (powered_on (some blank_storage))).1 blank_load

-- A storage without a buffer, which cannot be erased.
abbrev broken : State MemoryStorage RgbLight
broken = powered_on (some (record { buffer = none; size = 100 }))

no_reset : factory_reset tiny_board broken ≡ (false, (factory_reset tiny_board broken).1)
unfolding factory_reset state_bytes load_buffer_valid ranges_overlap keymap_bytes key_count
    encoder_map_bytes validate_state erase
no_reset = refl

failed_reset-frame_example : (factory_reset tiny_board broken).1 ≡ record broken {
  load_buffer = (factory_reset tiny_board broken).1.load_buffer;
  custom = (factory_reset tiny_board broken).1.custom;
  storage = (factory_reset tiny_board broken).1.storage;
}
failed_reset-frame_example =
    failed_reset-frame tiny_board broken (factory_reset tiny_board broken).1 no_reset

state_bytes_iff_example : (state_bytes tiny_config 5 ≡ some 36) ↔ (
    (36 ≡ 2 * 2 * 2 * 2 + 2 * 1 * 4 + 3 + 4 + 5)
    × (36 + header_size ≤ 65535)
    × (5 ≤ max_custom_state_size))
state_bytes_iff_example = state_bytes_iff tiny_config 5 36 tiny-IsConfig

ranges_overlap_iff_example :
    (ranges_overlap 1000 16 1010 4 ≡ true)
    ↔ ((x : ℕ) × (1000 ≤ x) × (x < 1000 + 16) × (1010 ≤ x) × (x < 1010 + 4))
ranges_overlap_iff_example = ranges_overlap_iff 1000 16 1010 4
