-- ===== src/Protocol/Process/Good.antt =====
-- Every command keeps the protocol's arrays in size and range, and answers a packet with a packet.
use via_arduino.Base.{ℕ, arith}
use via_arduino.Protocol.Config.{keymap_bytes}
use via_arduino.Protocol.Board.{Board, State}
use via_arduino.Protocol.Contract.{IsByteWise}
use via_arduino.Protocol.Sizes.{IsConfig}
use via_arduino.Protocol.Valid.{IsPacket, IsPacket-set, IsPacket-splice, IsDefaults}
use via_arduino.Protocol.Keymap.Bytes.{Below-read_dynamic_keymap}
use via_arduino.Protocol.Persist.Good.{IsGood}
use via_arduino.Protocol.Packet.{Packet, at}
use via_arduino.Protocol.Packet.{command_of, Command}
use via_arduino.Protocol.Process.{run_command, process}
use via_arduino.Protocol.Process.Packets.{at-lt, IsPacket-refuse, IsPacket-put16, be16-lt}
use via_arduino.Protocol.Process.Packets.{Below-read_macros, keyboard_value-IsPacket}
use via_arduino.Protocol.Process.Parts.{mark_dirty-IsGood}
use via_arduino.Protocol.Process.Parts.{reset_keymaps-IsGood}
use via_arduino.Protocol.Process.Parts.{reset_macros-IsGood}
use via_arduino.Protocol.Process.Answers.{Answers, settle-Answers, set_keycode-IsGood}
use via_arduino.Protocol.Process.Answers.{set_encoder_keycode-IsGood, store_keyboard_value-Answers}
use via_arduino.Protocol.Process.Answers.{prepare_jump-Answers, store_macros-Answers}
use via_arduino.Protocol.Process.Answers.{store_keymap-Answers, read_encoder-IsPacket}
use via_arduino.Protocol.Process.Answers.{set_custom-Answers, get_custom-Answers}
use via_arduino.Protocol.Process.Answers.{commit_custom-Answers, reset_stored-Answers}

module _ {S C : Type 0} (b : Board S C) (Sound : C → Type 0) where
  module _ (law : IsByteWise b.custom_ops Sound) where
    run_command-Answers :
        (command : Command) (now : ℕ) (p : Packet) (s : State S C)
        → IsConfig b.config
        → IsDefaults b.config
        → IsPacket p
        → IsGood b Sound s
        → Answers b Sound (run_command b command now p s)
    unfolding run_command
    run_command-Answers Command.get_protocol_version now p s c d h g = record {
      packet = IsPacket-set _ 2 0x0D (IsPacket-set p 1 0 h (omega arith)) (omega arith);
      good = g;
    }
    run_command-Answers Command.get_keyboard_value now p s c d h g = record {
      packet = keyboard_value-IsPacket b now p s h;
      good = g;
    }
    run_command-Answers Command.set_keyboard_value now p s c d h g =
        store_keyboard_value-Answers b Sound now p s h g
    run_command-Answers Command.get_keycode now p s c d h g = record {
      packet = IsPacket-put16 p 4 _ h;
      good = g;
    }
    run_command-Answers Command.store_keycode now p s c d h g = settle-Answers b Sound now p _ h (
        set_keycode-IsGood b Sound (at p 1) (at p 2) (at p 3) _ s g
          (be16-lt (at p 4) (at p 5) (at-lt p 4 h) (at-lt p 5 h)))
    run_command-Answers Command.reset_keymap now p s c d h g = record {
      packet = h;
      good = mark_dirty-IsGood b Sound now _ (reset_keymaps-IsGood b Sound s d g);
    }
    run_command-Answers Command.set_custom_value now p s c d h g =
        set_custom-Answers b Sound law now p s h g
    run_command-Answers Command.get_custom_value now p s c d h g =
        get_custom-Answers b Sound law p s h g
    run_command-Answers Command.commit_eeprom now p s c d h g =
        commit_custom-Answers b Sound law p s h g
    run_command-Answers Command.reset_eeprom now p s c d h g =
        reset_stored-Answers b Sound law p s h g
    run_command-Answers Command.bootloader_jump_request now p s c d h g =
        prepare_jump-Answers b Sound p s h g
    run_command-Answers Command.get_macro_count now p s c d h g = record {
      packet = IsPacket-set p 1 _ h c.macro_count_fits;
      good = g;
    }
    run_command-Answers Command.get_macro_buffer_size now p s c d h g = record {
      packet = IsPacket-put16 p 1 b.config.macro_bytes h;
      good = g;
    }
    run_command-Answers Command.get_macro_buffer now p s c d h g = record {
      packet =
          IsPacket-splice p 4 _ h
            (Below-read_macros b.config.macro_bytes s.macros _ _ g.valid.macro_range);
      good = g;
    }
    run_command-Answers Command.set_macro_buffer now p s c d h g =
        store_macros-Answers b Sound now p s h g
    run_command-Answers Command.clear_macros now p s c d h g = record {
      packet = h;
      good = mark_dirty-IsGood b Sound now _ (reset_macros-IsGood b Sound s g);
    }
    run_command-Answers Command.get_layer_count now p s c d h g = record {
      packet = IsPacket-set p 1 _ h c.layers_fit;
      good = g;
    }
    run_command-Answers Command.get_keymap_buffer now p s c d h g = record {
      packet =
          IsPacket-splice p 4 _ h (Below-read_dynamic_keymap (keymap_bytes b.config) s.keymap _ _);
      good = g;
    }
    run_command-Answers Command.set_keymap_buffer now p s c d h g =
        store_keymap-Answers b Sound now p s h g
    run_command-Answers Command.get_encoder now p s c d h g = record {
      packet = read_encoder-IsPacket b Sound p s h;
      good = g;
    }
    run_command-Answers Command.set_encoder now p s c d h g = settle-Answers b Sound now p _ h (
        set_encoder_keycode-IsGood b Sound (at p 1) (at p 2) (at p 3) _ s g
          (be16-lt (at p 4) (at p 5) (at-lt p 4 h) (at-lt p 5 h)))
    run_command-Answers Command.unhandled now p s c d h g = record {
      packet = IsPacket-refuse p h;
      good = g;
    }

    -- For a configuration in range, with default arrays of its sizes, over a custom value that
    -- keeps to bytes: whatever the 32 bytes of a request, process answers with 32 bytes and leaves
    -- the key map, encoder map, macros, staging buffer and layout options in the sizes of the
    -- configuration and the ranges of their types, and the custom value sound, if they were so
    -- before.
    pub process-IsGood :
        (now : ℕ) (p : Packet) (s : State S C)
        → IsConfig b.config
        → IsDefaults b.config
        → IsPacket p
        → IsGood b Sound s
        → IsPacket (process b now p s).1 × IsGood b Sound (process b now p s).2
    unfolding process
    process-IsGood now p s c d h g =
        let answers = run_command-Answers (command_of (at p 0)) now p s c d h g in
        (answers.packet, answers.good)
