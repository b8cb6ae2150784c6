-- ===== src/Tests/Flash.antt =====
-- The flash storage at concrete inputs.
use via_arduino.Base.{
  zero, suc, get_or, leb, ap, bit_and, ◌⊎◌, ℕ, ◌+◌, ◌≤◌, ◌≡◌, refl, arith, Bool, true, false, ◌&&◌,
  some, none, List, [], ◌∷◌, u32, ltb, ◌==◌, if◌then◌else◌, replicate, length, inl, ◌-◌,
}
use via_arduino.Protocol.Board.{Board, State}
use via_arduino.Protocol.Persist.{save}
use via_arduino.Flash.{
  FlashMemory, FlashStorage, flash_ops, valid_slot, validate_slot, begin, slot_a, slot_b, page_size,
  crc32, read, write,
}
use via_arduino.Flash.Slots.{IsLocal, begin-newest, read-write}
use via_arduino.Flash.Saving.{save-not_ready}
use via_arduino.RgbLight.{RgbLight, rgb_ops}
use via_arduino.Tests.Fixture.{tiny_config}
use mathlib.Core.Path.{ap₂}

-- A flash as the bytes at all addresses.
abbrev bytes_at : (ℕ → ℕ) → ℕ → ℕ → List ℕ
bytes_at f addr zero = []
bytes_at f addr (suc n) = f addr ∷ bytes_at f (addr + 1) n

abbrev inside : ℕ → ℕ → ℕ → Bool
inside addr n a = leb addr a && ltb a (addr + n)

abbrev put_bytes : ℕ → List ℕ → (ℕ → ℕ) → ℕ → ℕ
put_bytes addr bytes f a =
    if inside addr (length bytes) a then bit_and (f a) (get_or bytes (a - addr) 0) else f a

abbrev wipe : ℕ → (ℕ → ℕ) → ℕ → ℕ
wipe addr f a = if inside addr page_size a then 0xFF else f a

abbrev chip : FlashMemory (ℕ → ℕ)
chip = record {
  read = λ f addr n. some (bytes_at f addr n);
  write = λ addr bytes f. (true, put_bytes addr bytes f);
  erase_page = λ addr f. (true, wipe addr f);
  commit = λ f. (true, f);
}

put_bytes-apart :
    (f : ℕ → ℕ) (addr : ℕ) (bytes : List ℕ) (off n : ℕ)
    → (off + n ≤ addr) ⊎ (addr + length bytes ≤ off)
    → bytes_at (put_bytes addr bytes f) off n ≡ bytes_at f off n
put_bytes-apart f addr bytes off zero h = refl
put_bytes-apart f addr bytes off (suc n) h =
    ap₂ (λ x xs. x ∷ xs) (ground (arith, h))
      (put_bytes-apart f addr bytes (off + 1) n (ground (arith, h)))

wipe-apart :
    (f : ℕ → ℕ) (addr off n : ℕ)
    → (off + n ≤ addr) ⊎ (addr + page_size ≤ off)
    → bytes_at (wipe addr f) off n ≡ bytes_at f off n
wipe-apart f addr off zero h = refl
wipe-apart f addr off (suc n) h =
    ap₂ (λ x xs. x ∷ xs) (ground (arith, h)) (wipe-apart f addr (off + 1) n (ground (arith, h)))

chip-IsLocal : IsLocal chip
chip-IsLocal = record {
  write_apart = λ f addr bytes off n h. ap some (put_bytes-apart f addr bytes off n h);
  erase_apart = λ f addr off n h. ap some (wipe-apart f addr off n h);
}

abbrev fresh : FlashStorage (ℕ → ℕ)
fresh = record {
  flash = λ a. 0xFF;
  active_slot = slot_a;
  provisional_slot = slot_b;
  active_seq = 0;
  new_seq = 0;
  active_valid = true;
  provisional_ready = false;
}

abbrev flash_board : Board (FlashStorage (ℕ → ℕ)) RgbLight
flash_board = record {
  config = tiny_config;
  storage_ops = flash_ops chip;
  custom_ops = rgb_ops;
  matrix_row = none;
}

abbrev on_flash : State (FlashStorage (ℕ → ℕ)) RgbLight
on_flash = record {
  keymap = replicate 8 4;
  encoder_map = replicate 4 0;
  macros = replicate 3 0;
  load_buffer = replicate 40 0;
  layout_options = 7;
  dirty = true;
  save_at = 0;
  pending_response = replicate 32 0;
  response_pending = false;
  bootloader_pending = false;
  storage = some fresh;
  custom = none;
  events = [];
}

save-not_ready_example : (save flash_board on_flash).0 ≡ false
save-not_ready_example = save-not_ready chip flash_board refl on_flash fresh refl refl

-- After erase() of the other slot.
abbrev updating : FlashStorage (ℕ → ℕ)
updating = record fresh { provisional_ready = true }

read-write_example : read chip (write chip 4 (1 ∷ 2 ∷ []) updating).1 0 12 ≡ read chip updating 0 12
read-write_example = read-write chip chip-IsLocal updating 4 (1 ∷ 2 ∷ []) 0 12 (inl (refl, refl))

-- A driver whose slots have empty payloads and these sequence numbers.
abbrev marked : ℕ → List ℕ
marked seq = 0xCB ∷ 0x03 ∷ 0xF1 ∷ 0xA5 ∷ seq ∷ 0 ∷ 0 ∷ 0 ∷ 0 ∷ 0 ∷ 0 ∷ 0 ∷ 0x5A ∷ []

abbrev two_slots : FlashMemory ℕ
two_slots = record {
  read = λ f addr n. if n == 13 then some (marked (if addr == slot_a then 4 else 3)) else some [];
  write = λ addr bytes f. (false, f);
  erase_page = λ addr f. (false, f);
  commit = λ f. (false, f);
}

abbrev unopened : FlashStorage ℕ
unopened = record {
  flash = 0;
  active_slot = slot_a;
  provisional_slot = slot_b;
  active_seq = 0;
  new_seq = 0;
  active_valid = false;
  provisional_ready = false;
}

a_valid : validate_slot two_slots slot_a 0 ≡ valid_slot (u32 (3 + 1))
unfolding validate_slot crc32
a_valid = refl

b_valid : validate_slot two_slots slot_b 0 ≡ valid_slot (u32 3)
unfolding validate_slot crc32
b_valid = refl

begin-newest_example :
    ((begin two_slots unopened).0 ≡ true) × ((begin two_slots unopened).1.active_slot ≡ slot_a)
begin-newest_example =
    begin-newest two_slots unopened 3 1 true (omega arith) (omega arith) a_valid b_valid
