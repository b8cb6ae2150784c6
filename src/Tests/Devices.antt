-- ===== src/Tests/Devices.antt =====
-- The storages, the transports and the small devices at concrete inputs.
use via_arduino.Base.{ℕ, ◌≡◌, refl, arith, true, false, [], ◌∷◌}
use via_arduino.Protocol.Persist.{save, payload_crc, header_bytes, words_bytes}
use via_arduino.Protocol.Config.{state_bytes, keymap_bytes, key_count, encoder_map_bytes}
use via_arduino.Flash.{crc32}
use via_arduino.Flash.Slots.{crc32-eq-payload_crc}
use via_arduino.Keyboard.{KeyboardHid}
use via_arduino.Boot.{Coordinator, idle, request, task}
use via_arduino.Boot.Steps.{Reaches, Reaches-PassedSave, PassedSave, ProtocolStep, is_past_save}
use via_arduino.Protocol.Task.{
  Transport, auto_save, done, poll_request, flush_response, jump_when_sent,
}
use via_arduino.Protocol.Task.{task as run_protocol}
use via_arduino.Protocol.Board.{State}
use via_arduino.Base.{none}
use via_arduino.Battery.{new_battery}
use via_arduino.Battery.Average.{total, IsCoherent}
use via_arduino.RgbLight.{RgbLight, save_state}
use via_arduino.Memory.{MemoryStorage, write as write_memory}
use via_arduino.Tests.Fixture.{tiny_board, edited}

crc32-eq-payload_crc_example : crc32 (1 ∷ 2 ∷ []) ≡ payload_crc (1 ∷ 2 ∷ [])
crc32-eq-payload_crc_example = crc32-eq-payload_crc (1 ∷ 2 ∷ []) (omega arith, (omega arith, tt))

abbrev quiet_hid : KeyboardHid ℕ
quiet_hid = record {
  configured = λ h. true;
  send = λ r h. (true, h);
  send_complete = λ h. (true, h);
  host_leds = λ h. ([], h);
  suspended = λ h. false;
  remote_wakeup_allowed = λ h. false;
  remote_wakeup = λ h. (false, h);
}

abbrev resting : Coordinator MemoryStorage RgbLight ℕ
resting = record { protocol = edited; hid = 0; boot_state = idle }

abbrev released : Coordinator MemoryStorage RgbLight ℕ
released = task tiny_board quiet_hid (task tiny_board quiet_hid (request resting).1)

-- A transport on which nothing comes in.
abbrev idle_link : Transport ℕ
idle_link = record {
  receive = λ n. (none, n);
  send = λ p n. (true, n);
  send_complete = λ n. (true, n);
}

released_past : is_past_save released.boot_state ≡ true
unfolding task request save state_bytes save_state write_memory header_bytes keymap_bytes key_count
    words_bytes encoder_map_bytes
released_past = refl

-- The protocol's task with no packet.
idle_run :
    (p : State MemoryStorage RgbLight)
    → p.response_pending ≡ false
    → p.bootloader_pending ≡ false
    → run_protocol tiny_board idle_link 9 (p, 0) ≡ done (auto_save tiny_board 9 p, 0)
unfolding run_protocol poll_request flush_response jump_when_sent
idle_run p answered waits = ground (arith, answered, waits)

released_idle :
    (released.protocol.response_pending ≡ false) × (released.protocol.bootloader_pending ≡ false)
unfolding task request save state_bytes save_state write_memory header_bytes keymap_bytes key_count
    words_bytes encoder_map_bytes
released_idle = (refl, refl)

idle_step :
    ProtocolStep tiny_board idle_link released.protocol (auto_save tiny_board 9 released.protocol)
idle_step = record {
  now = 9;
  link = 0;
  link' = 0;
  runs = idle_run released.protocol released_idle.0 released_idle.1;
}

Reaches-PassedSave_example :
    PassedSave tiny_board quiet_hid idle_link resting
      (record released { protocol = auto_save tiny_board 9 released.protocol })
Reaches-PassedSave_example =
    Reaches-PassedSave tiny_board quiet_hid idle_link refl
      (Reaches.after_protocol released _
        (Reaches.after_task _ (Reaches.after_task _ (Reaches.after_request _ Reaches.here)))
        idle_step)
      released_past

new_battery-IsCoherent : IsCoherent new_battery
unfolding total
new_battery-IsCoherent = record {
  slots = refl;
  samples = ground arith;
  summed = refl;
  window = (omega arith, omega arith);
  index = omega arith;
  counted = omega arith;
}
