-- ===== src/Tests/Task.antt =====
-- The task loop on the small keyboard.
use via_arduino.Base.{
  inl, ℕ, ◌+◌, ◌*◌, ◌≡◌, refl, ap, arith, true, false, Option, some, none, [], ◌∷◌, u32, leb,
  if◌then◌else◌,
}
use via_arduino.Protocol.Board.{State, bootloader_jump}
use via_arduino.Protocol.Valid.{IsPacket}
use via_arduino.Protocol.Keymap.{mark_dirty}
use via_arduino.Protocol.Persist.{save}
use via_arduino.Protocol.Packet.{Packet}
use via_arduino.Protocol.Process.{process, has_callbacks}
use via_arduino.Protocol.Task.{Transport, done, task, auto_save}
use via_arduino.Protocol.Task.Order.{
  Safe, EndsWith, task-Safe, task-retry, task-jump, process-jump_accepted,
}
use via_arduino.Protocol.Task.Delivery.{takes, refuses, run_tasks, run_tasks-TakesAfter}
use via_arduino.Protocol.Task.Saving.{auto_save-mark_dirty}
use via_arduino.Memory.{MemoryStorage, MemoryTransport, memory_link, receive}
use via_arduino.RgbLight.{RgbLight}
use via_arduino.Tests.Fixture.{tiny_board, edited, powered_on, blank_storage, request}

-- A request for the boot loader that waits in the transport.
abbrev jump_request : Packet
jump_request = request (0x0B ∷ [])

abbrev waiting_link : MemoryTransport
waiting_link = record {
  request = jump_request;
  response = request [];
  request_ready = true;
  response_ready = false;
}

waiting_packets : (p : Packet) → (receive waiting_link).0 ≡ some p → IsPacket p
unfolding receive
waiting_packets p e =
    let same : jump_request ≡ p =
      ap (λ (o : Option Packet). elim o as (λ _. Packet) [ none ↦ jump_request | some q ↦ q ]) e in
    rw⁻¹ same (record { full = refl; bytes = ground arith })

task-Safe_example :
    EndsWith tiny_board
      (λ (r : State MemoryStorage RgbLight × MemoryTransport). Safe tiny_board r.0)
      (task tiny_board memory_link 7 (edited, waiting_link))
task-Safe_example =
    task-Safe tiny_board memory_link 7 edited waiting_link waiting_packets (inl refl)

-- A transport that never takes a response.
abbrev deaf_link : Transport ℕ
deaf_link = record {
  receive = λ n. (none, n);
  send = λ p n. (false, n + 1);
  send_complete = λ n. (true, n);
}

abbrev answered : State MemoryStorage RgbLight
answered = record edited { response_pending = true }

task-retry_example :
    task tiny_board deaf_link 9 (answered, 0) ≡ done (auto_save tiny_board 9 answered, 0 + 1)
task-retry_example = task-retry tiny_board deaf_link 9 answered 0 refl refl

-- A transport that is busy for two calls of send.
abbrev slow_link : Transport ℕ
slow_link = record {
  receive = λ n. (none, n);
  send = λ p n. (leb 2 n, n + 1);
  send_complete = λ n. (true, n);
}

run_tasks-TakesAfter_example :
    EndsWith tiny_board
      (λ (r : State MemoryStorage RgbLight × ℕ). r.0.response_pending ≡ false)
      (run_tasks tiny_board slow_link 3 (λ k. 10 * k) (answered, 0))
run_tasks-TakesAfter_example =
    run_tasks-TakesAfter tiny_board slow_link 2 (λ k. 10 * k) answered 0 refl
      (refuses refl (refuses refl (takes refl))) (inl refl)

abbrev jumping : State MemoryStorage RgbLight
jumping = record (powered_on none) { bootloader_pending = true }

task-jump_example :
    task tiny_board deaf_link 9 (jumping, 0)
    ≡ done (record jumping { bootloader_pending = false; events = bootloader_jump ∷ [] }, 0)
task-jump_example = task-jump tiny_board deaf_link 9 jumping 0 refl refl refl refl

abbrev clean : State MemoryStorage RgbLight
clean = powered_on (some blank_storage)

jump_answered : (process tiny_board 7 jump_request clean).0 ≡ true
unfolding process
jump_answered = refl

process-jump_accepted_example :
    (tiny_board.config.bootloader_enabled ≡ true)
    × (has_callbacks tiny_board ≡ true)
    × ((process tiny_board 7 jump_request clean).2.dirty ≡ false)
process-jump_accepted_example =
    process-jump_accepted tiny_board 7 jump_request clean
      (record { full = refl; bytes = ground arith }) refl jump_answered

-- A change just before the clock wraps, looked at 600 ms later.
auto_save-mark_dirty_example :
    auto_save tiny_board (u32 (4294967290 + 600)) (mark_dirty tiny_board (u32 4294967290) clean) ≡ (
      if leb 500 600
      then (save tiny_board (mark_dirty tiny_board (u32 4294967290) clean)).1
      else mark_dirty tiny_board (u32 4294967290) clean)
auto_save-mark_dirty_example =
    auto_save-mark_dirty tiny_board 4294967290 600 clean (omega arith) (omega arith)
