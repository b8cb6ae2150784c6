-- ===== src/Flash/Slots.antt =====
-- Which slot FlashStorage uses, that an update leaves it alone until it is committed, and its CRC.
use via_arduino.Base.{
  ℕ, zero, suc, ◌+◌, ◌/◌, ◌^◌, ◌≤◌, ◌<◌, ◌≡◌, refl, arith, ap, ◌∙◌, sym, Bool, true, false, not,
  ◌⊎◌, inl, inr,
}
use via_arduino.Base.{
  sub32, List, [], ◌∷◌, length, if◌then◌else◌, ◌==◌, u32, Bool-cases, bit_and, bit_xor, not32,
  foldl,
}
use via_arduino.Base.{bit_xor_comm, bit_xor-lt, bit_xor-ones}
use via_arduino.Base.Bits.{bit_and-one, bit_xor-zero}
use mathlib.Core.Path.{ap₂}
use via_arduino.Crc.{crc32_bit, crc32_rounds, crc32_update, crc32_loop}
use via_arduino.Protocol.Valid.{Below}
use via_arduino.Protocol.Persist.{payload_crc}
use via_arduino.Flash.{FlashMemory, FlashStorage, valid_slot, validate_slot, choose_slot, begin}
use via_arduino.Flash.{
  crc_rounds, crc_loop, crc32, slot_a, slot_b, read, write, envelope_size, page_size,
}

crc32_bit-eq :
    (crc : ℕ)
    → crc32_bit crc ≡ (if not (bit_and crc 1 == 0) then bit_xor 0xEDB88320 (crc / 2) else crc / 2)
unfolding crc32_bit
crc32_bit-eq crc = elim (Bool-cases (bit_and crc 1 == 0)) [
  | inl even ↦
      let low : bit_and crc 1 ≡ 0 = ground (arith, even) in
      ap (λ t. bit_xor (crc / 2) (bit_and 0xEDB88320 (sub32 0 t))) low
      ∙ bit_xor-zero (crc / 2)
      ∙ ground (arith, even)
  | inr odd ↦
      let low : bit_and crc 1 ≡ 1 = ground (arith, odd, bit_and-one crc) in
      ap (λ t. bit_xor (crc / 2) (bit_and 0xEDB88320 (sub32 0 t))) low
      ∙ bit_xor_comm (crc / 2) 0xEDB88320
      ∙ ground (arith, odd)
]

crc32_rounds-eq : (n crc : ℕ) → crc32_rounds n crc ≡ crc_rounds n crc
unfolding crc32_rounds crc_rounds
crc32_rounds-eq zero crc = refl
crc32_rounds-eq (suc n) crc = ap (crc32_rounds n) (crc32_bit-eq crc) ∙ crc32_rounds-eq n _

crc32_loop-eq : (xs : List ℕ) (crc : ℕ) → crc32_loop crc xs ≡ crc_loop crc xs
unfolding crc32_loop crc_loop crc32_update
crc32_loop-eq [] crc = refl
crc32_loop-eq (x ∷ xs) crc =
    ap (λ c. foldl crc32_update c xs) (crc32_rounds-eq 8 (bit_xor crc x))
    ∙ crc32_loop-eq xs (crc_rounds 8 (bit_xor crc x))

crc_rounds-lt : (n crc : ℕ) → crc < 2 ^ 32 → crc_rounds n crc < 2 ^ 32
unfolding crc_rounds
crc_rounds-lt zero crc h = h
crc_rounds-lt (suc n) crc h =
    crc_rounds-lt n _ (ground (arith, h, bit_xor-lt 32 0xEDB88320 (crc / 2)))

crc_loop-lt : (xs : List ℕ) (crc : ℕ) → Below 256 xs → crc < 2 ^ 32 → crc_loop crc xs < 2 ^ 32
unfolding crc_loop
crc_loop-lt [] crc b h = h
crc_loop-lt (x ∷ xs) crc b h =
    crc_loop-lt xs _ b.1 (crc_rounds-lt 8 _ (bit_xor-lt 32 crc x h (omega (arith, b.0))))

-- The CRC of FlashStorage, written by branches, and that of Protocol, written by a mask, are the
-- same function on bytes.
pub crc32-eq-payload_crc : (xs : List ℕ) → Below 256 xs → crc32 xs ≡ payload_crc xs
unfolding crc32 payload_crc
crc32-eq-payload_crc xs b =
    bit_xor-ones 32 (crc_loop 0xFFFFFFFF xs) (crc_loop-lt xs 0xFFFFFFFF b (omega arith))
    ∙ ap not32 (sym (crc32_loop-eq xs 0xFFFFFFFF))

module _ {F : Type 0} (ops : FlashMemory F) where
  -- Of two valid slots whose sequence numbers are less than 2^31 apart, over the wrap of the 32-bit
  -- number, begin() makes the later one active.
  pub begin-newest :
      (s : FlashStorage F) (seq gap : ℕ) (a_later : Bool)
      → 0 < gap
      → gap < 2 ^ 31
      → validate_slot ops slot_a s.flash ≡ valid_slot (if a_later then u32 (seq + gap) else u32 seq)
      → validate_slot ops slot_b s.flash ≡ valid_slot (if a_later then u32 seq else u32 (seq + gap))
      → ((begin ops s).0 ≡ true)
        × ((begin ops s).1.active_slot ≡ (if a_later then slot_a else slot_b))
  unfolding begin choose_slot
  begin-newest s seq gap true h k a b =
      let chosen : begin ops s
          ≡ choose_slot ops (valid_slot (u32 (seq + gap))) (valid_slot (u32 seq)) s =
        ap₂ (λ x y. choose_slot ops x y s) a b in
      (
        ap (λ r. r.0) chosen ∙ ground (arith, h, k),
        ap (λ r. r.1.active_slot) chosen ∙ ground (arith, h, k),
      )
  begin-newest s seq gap false h k a b =
      let chosen : begin ops s
          ≡ choose_slot ops (valid_slot (u32 seq)) (valid_slot (u32 (seq + gap))) s =
        ap₂ (λ x y. choose_slot ops x y s) a b in
      (
        ap (λ r. r.0) chosen ∙ ground (arith, h, k),
        ap (λ r. r.1.active_slot) chosen ∙ ground (arith, h, k),
      )

  -- What a flash driver is relied on for: a write or a page erase changes nothing outside the bytes
  -- that it is for.
  pub record IsLocal : Type 0 where
    pub write_apart :
        (flash : F) (addr : ℕ) (bytes : List ℕ) (off n : ℕ)
        → (off + n ≤ addr) ⊎ (addr + length bytes ≤ off)
        → ops.read (ops.write addr bytes flash).1 off n ≡ ops.read flash off n
    pub erase_apart :
        (flash : F) (addr off n : ℕ)
        → (off + n ≤ addr) ⊎ (addr + page_size ≤ off)
        → ops.read (ops.erase_page addr flash).1 off n ≡ ops.read flash off n

  -- The active slot is one of the two, and the provisional one is the other.
  abbrev pub Apart : FlashStorage F → Type 0
  Apart s =
      ((s.active_slot ≡ slot_a) × (s.provisional_slot ≡ slot_b))
      ⊎ ((s.active_slot ≡ slot_b) × (s.provisional_slot ≡ slot_a))

  -- Over a flash driver that changes nothing outside the bytes it is asked to, with the provisional
  -- slot apart from the active one: a write, whether it succeeds or fails, changes nothing that
  -- read() returns.
  pub read-write :
      (law : IsLocal) (s : FlashStorage F) (offset : ℕ) (input : List ℕ) (at n : ℕ)
      → Apart s
      → read ops (write ops offset input s).1 at n ≡ read ops s at n
  unfolding read write
  read-write law s offset input at n (inl e) = ground (
    arith,
    e,
    law.write_apart s.flash (u32 (s.provisional_slot + envelope_size + offset)) input
        (u32 (s.active_slot + envelope_size + at)) n,
  )
  read-write law s offset input at n (inr e) = ground (
    arith,
    e,
    law.write_apart s.flash (u32 (s.provisional_slot + envelope_size + offset)) input
        (u32 (s.active_slot + envelope_size + at)) n,
  )
