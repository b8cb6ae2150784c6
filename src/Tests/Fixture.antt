-- ===== src/Tests/Fixture.antt =====
-- A small keyboard for the tests: two layers of two by two keys, one encoder, three macro bytes, an
-- RGB light, and a hundred bytes of RAM as storage.
use via_arduino.Base.{
  ℕ, ◌+◌, ◌-◌, ◌++◌, List, length, true, false, Option, some, [], ◌∷◌, replicate,
}
use via_arduino.Protocol.Config.{Config}
use via_arduino.Protocol.Board.{Board, State, new_protocol}
use via_arduino.Memory.{MemoryStorage, memory_ops}
use via_arduino.RgbLight.{RgbLight, rgb_ops}

abbrev pub tiny_config : Config
tiny_config = record {
  rows = 2;
  columns = 2;
  layers = 2;
  keymap_at = 1000;
  default_keymap_at = 2000;
  default_keymap = 4 ∷ 5 ∷ 6 ∷ 0x5221 ∷ 1 ∷ 1 ∷ 0x7C00 ∷ 0 ∷ [];
  macros_at = 3000;
  macro_bytes = 3;
  macro_count = 1;
  firmware_version = 0x01020304;
  auto_save_ms = 500;
  default_layout_options = 7;
  encoder_count = 1;
  encoder_map_at = 4000;
  default_encoder_map_at = 5000;
  default_encoder_map = 0x80 ∷ 0x81 ∷ 0 ∷ 0 ∷ [];
  load_buffer_at = 6000;
  load_buffer_bytes = 40;
  matrix_state_enabled = true;
  eeprom_reset_enabled = true;
  bootloader_enabled = true;
}

abbrev pub tiny_board : Board MemoryStorage RgbLight
tiny_board = record {
  config = tiny_config;
  storage_ops = memory_ops;
  custom_ops = rgb_ops;
  matrix_row = some (λ row. row + 1);
}

abbrev pub dim_light : RgbLight
dim_light = record {
  state = record { brightness = 10; effect = 1; speed = 2; hue = 3; saturation = 4 };
  listening = false;
  applied = [];
}

abbrev pub blank_storage : MemoryStorage
blank_storage = record { buffer = some (replicate 100 0xFF); size = 100 }

-- Some edits, not yet saved.
abbrev pub edited : State MemoryStorage RgbLight
edited = record {
  keymap = 4 ∷ 5 ∷ 0x1204 ∷ 0x5221 ∷ 1 ∷ 1 ∷ 0x7C00 ∷ 0xFFFF ∷ [];
  encoder_map = 0x80 ∷ 0x81 ∷ 0x52 ∷ 0x51 ∷ [];
  macros = 104 ∷ 105 ∷ 0 ∷ [];
  load_buffer = replicate 40 0;
  layout_options = 0xDEADBEEF;
  dirty = true;
  save_at = 500;
  pending_response = replicate 32 0;
  response_pending = false;
  bootloader_pending = false;
  storage = some blank_storage;
  custom = some dim_light;
  events = [];
}

-- The same keyboard after a power cycle, before its load.
abbrev pub powered_on : Option MemoryStorage → State MemoryStorage RgbLight
powered_on storage =
    new_protocol tiny_config (replicate 8 0) (replicate 4 0) (replicate 3 0) (replicate 40 0)
      (replicate 32 0) storage (some dim_light)

-- A request of 32 bytes that begins with these.
abbrev pub request : List ℕ → List ℕ
request bytes = bytes ++ replicate (32 - length bytes) 0
