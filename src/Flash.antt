-- ===== src/Flash.antt =====
-- src/VIA_STM32F1_Flash.h and src/VIA_STM32F1_Flash.cpp: storage in two alternating flash slots.
pub mod Slots
pub mod Saving
use via_arduino.Base.{
  ℕ, zero, suc, ◌+◌, ◌-◌, ◌^◌, Bool, true, false, not, ◌&&◌, ◌||◌, Option, none, some, List, [],
  ◌∷◌, ◌++◌,
}
use via_arduino.Base.{
  get_or, length, leb, ltb, ◌==◌, if◌then◌else◌, u8, u32, sub32, bit_and, bit_or, bit_xor, ◌>>>◌,
  ◌<<<◌,
}
use via_arduino.Protocol.Board.{Storage}

-- class FlashMemory.
pub record FlashMemory (F : Type 0) : Type 0 where
  pub read : F → ℕ → ℕ → Option (List ℕ)
  pub write : ℕ → List ℕ → F → Bool × F
  pub erase_page : ℕ → F → Bool × F
  pub commit : F → Bool × F

abbrev pub slot_a : ℕ
slot_a = 0x0801F000

abbrev pub slot_b : ℕ
slot_b = 0x0801F800

abbrev pub page_size : ℕ
page_size = 1024

abbrev pub envelope_size : ℕ
envelope_size = 16

abbrev pub payload_size : ℕ
payload_size = 2032

abbrev pub magic : ℕ
magic = 0xA5F103CB

abbrev pub commit_marker : ℕ
commit_marker = 0x5A

pub record FlashStorage (F : Type 0) : Type 0 where
  pub flash : F
  pub active_slot : ℕ
  pub provisional_slot : ℕ
  pub active_seq : ℕ
  pub new_seq : ℕ
  pub active_valid : Bool
  pub provisional_ready : Bool

unfoldable pub new_storage : {F : Type 0} → F → FlashStorage F
new_storage flash = record {
  flash = flash;
  active_slot = slot_a;
  provisional_slot = slot_b;
  active_seq = 0;
  new_seq = 0;
  active_valid = false;
  provisional_ready = false;
}

-- `n` rounds of the inner loop of crc32.
unfoldable pub crc_rounds : ℕ → ℕ → ℕ
crc_rounds zero crc = crc
crc_rounds (suc n) crc =
    crc_rounds n (if not (bit_and crc 1 == 0) then bit_xor 0xEDB88320 (crc >>> 1) else crc >>> 1)

unfoldable pub crc_loop : ℕ → List ℕ → ℕ
unfolding crc_rounds
crc_loop crc [] = crc
crc_loop crc (x ∷ xs) = crc_loop (crc_rounds 8 (bit_xor crc x)) xs

unfoldable pub crc32 : List ℕ → ℕ
unfolding crc_loop
crc32 bytes = bit_xor (crc_loop 0xFFFFFFFF bytes) 0xFFFFFFFF

-- buf[i] | buf[i + 1] << 8 | buf[i + 2] << 16 | buf[i + 3] << 24
abbrev pub word_at : List ℕ → ℕ → ℕ
word_at buf i =
    bit_or
      (bit_or (bit_or (get_or buf i 0) (get_or buf (i + 1) 0 <<< 8)) (get_or buf (i + 2) 0 <<< 16))
      (get_or buf (i + 3) 0 <<< 24)

-- The bytes of a header word, as commit writes them.
abbrev pub word_bytes : ℕ → List ℕ
word_bytes w =
    bit_and w 0xFF ∷ bit_and (w >>> 8) 0xFF ∷ bit_and (w >>> 16) 0xFF ∷ bit_and (w >>> 24) 0xFF ∷ []

abbrev pub all_erased : List ℕ → Bool
all_erased [] = true
all_erased (x ∷ xs) = x == 0xFF && all_erased xs

-- What validateSlot says of a slot: erased, not valid, or valid with this sequence number.
pub data Slot : Type 0 where
  empty_slot invalid_slot : Slot
  valid_slot : ℕ → Slot

module _ {F : Type 0} (ops : FlashMemory F) where
  unfoldable pub validate_slot : ℕ → F → Slot
  unfolding crc32
  validate_slot slot flash = elim (ops.read flash slot 13) [
    | none ↦ invalid_slot
    | some buf ↦
        if all_erased buf
        then empty_slot
        else if not (word_at buf 0 == magic)
        then invalid_slot
        else if not (get_or buf 12 0 == commit_marker)
        then invalid_slot
        else (elim (ops.read flash (slot + envelope_size) payload_size) [
          | none ↦ invalid_slot
          | some payload ↦
              if not (crc32 payload == word_at buf 8)
              then invalid_slot
              else valid_slot (word_at buf 4)
        ])
  ]

  abbrev pub activate : ℕ → ℕ → FlashStorage F → Bool × FlashStorage F
  activate slot seq s =
      (true, record s { active_slot = slot; active_seq = seq; active_valid = true })

  -- (int32_t)(seqA - seqB) > 0
  abbrev pub newer : ℕ → ℕ → Bool
  newer a b = ltb 0 (sub32 a b) && ltb (sub32 a b) (2 ^ 31)

  unfoldable pub choose_slot : Slot → Slot → FlashStorage F → Bool × FlashStorage F
  choose_slot (valid_slot a) (valid_slot b) s =
      if newer a b then activate slot_a a s else activate slot_b b s
  choose_slot (valid_slot a) empty_slot s = activate slot_a a s
  choose_slot (valid_slot a) invalid_slot s = activate slot_a a s
  choose_slot empty_slot (valid_slot b) s = activate slot_b b s
  choose_slot invalid_slot (valid_slot b) s = activate slot_b b s
  choose_slot empty_slot empty_slot s = activate slot_a 0 s
  choose_slot empty_slot invalid_slot s = activate slot_a 0 s
  choose_slot invalid_slot empty_slot s = activate slot_b 0 s
  choose_slot invalid_slot invalid_slot s = (false, record s { active_valid = false })

  unfoldable pub begin : FlashStorage F → Bool × FlashStorage F
  unfolding validate_slot choose_slot
  begin s = choose_slot (validate_slot slot_a s.flash) (validate_slot slot_b s.flash) s

  unfoldable pub capacity : FlashStorage F → ℕ
  capacity s = if s.active_valid then payload_size else 0

  -- offset > kPayloadSize || length > kPayloadSize - offset
  abbrev pub outside : ℕ → ℕ → Bool
  outside offset n = ltb payload_size offset || ltb (payload_size - offset) n

  unfoldable pub read : FlashStorage F → ℕ → ℕ → Option (List ℕ)
  read s offset n =
      if not s.active_valid || n == 0
      then none
      else if outside offset n
      then none
      else ops.read s.flash (u32 (s.active_slot + envelope_size + offset)) n

  unfoldable pub write : ℕ → List ℕ → FlashStorage F → Bool × FlashStorage F
  write offset input s =
      let (done, flash) =
        ops.write (u32 (s.provisional_slot + envelope_size + offset)) input s.flash in
      if not s.provisional_ready || length input == 0
      then (false, s)
      else if outside offset (length input)
      then (false, s)
      else (done, record s { flash = flash })

  -- The header, then the marker byte that makes it valid, then commit.
  unfoldable pub write_header : ℕ → FlashStorage F → Bool × FlashStorage F
  write_header crc s =
      let header = word_bytes magic ++ (word_bytes s.new_seq ++ word_bytes crc) in
      let (headed, flash) = ops.write s.provisional_slot header s.flash in
      let (marked, flash') = ops.write (s.provisional_slot + 12) (commit_marker ∷ []) flash in
      let (committed, flash'') = ops.commit flash' in
      if not headed
      then (false, record s { flash = flash })
      else if not marked
      then (false, record s { flash = flash' })
      else if not committed
      then (false, record s { flash = flash'' })
      else (
        true,
        record s {
          flash = flash'';
          active_slot = s.provisional_slot;
          active_seq = s.new_seq;
          provisional_ready = false;
        },
      )

  unfoldable pub commit : FlashStorage F → Bool × FlashStorage F
  unfolding crc32 write_header
  commit s =
      if not s.provisional_ready
      then (false, s)
      else (elim (ops.read s.flash (s.provisional_slot + envelope_size) payload_size) [
        | none ↦ (false, s)
        | some payload ↦ write_header (crc32 payload) s
      ])

  unfoldable pub erase : FlashStorage F → Bool × FlashStorage F
  erase s =
      let slot = if s.active_slot == slot_a then slot_b else slot_a in
      let s' = record s { provisional_slot = slot; new_seq = u32 (s.active_seq + 1) } in
      let (first, flash) = ops.erase_page slot s.flash in
      let (second, flash') = ops.erase_page (slot + page_size) flash in
      if not s.active_valid
      then (false, s)
      else if not first
      then (false, record s' { flash = flash })
      else if not second
      then (false, record s' { flash = flash' })
      else (true, record s' { flash = flash'; provisional_ready = true })

  abbrev pub flash_ops : Storage (FlashStorage F)
  flash_ops = record {
    capacity = capacity;
    read = read;
    write = write;
    commit = commit;
    erase = erase;
  }
