-- ===== src/Eeprom.antt =====
-- src/VIA_EEPROMStorage.h: storage in the EEPROM of an Arduino core.
pub mod Laws
use via_arduino.Base.{
  ℕ, zero, suc, ◌+◌, ◌-◌, Bool, true, false, not, ◌||◌, Option, none, some, List,
}
use via_arduino.Base.{[], ◌∷◌, length, ltb, if◌then◌else◌}
use via_arduino.Protocol.Board.{Storage}

-- The EEPROM object of the core.
pub record Eeprom (E : Type 0) : Type 0 where
  pub begin : ℕ → E → E
  pub read : ℕ → E → ℕ
  pub write : ℕ → ℕ → E → E
  pub commit : E → Bool × E

pub record EepromStorage (E : Type 0) : Type 0 where
  pub eeprom : E
  pub size : ℕ
  pub started : Bool

unfoldable pub new_storage : {E : Type 0} → E → ℕ → EepromStorage E
new_storage eeprom size = record { eeprom = eeprom; size = size; started = false }

module _ {E : Type 0} (ops : Eeprom E) where
  unfoldable pub begin : EepromStorage E → Bool × EepromStorage E
  begin s = (true, record s { eeprom = ops.begin s.size s.eeprom; started = true })

  unfoldable pub capacity : EepromStorage E → ℕ
  capacity s = s.size

  -- offset > length_ || length > length_ - offset
  abbrev pub outside : EepromStorage E → ℕ → ℕ → Bool
  outside s offset n = ltb s.size offset || ltb (s.size - offset) n

  -- The loop over EEPROM.read, `n` bytes from `offset` on.
  unfoldable pub read_loop : ℕ → ℕ → E → List ℕ
  read_loop zero offset e = []
  read_loop (suc n) offset e = ops.read offset e ∷ read_loop n (offset + 1) e

  unfoldable pub read : EepromStorage E → ℕ → ℕ → Option (List ℕ)
  unfolding read_loop
  read s offset n =
      if not s.started || outside s offset n then none else some (read_loop n offset s.eeprom)

  -- The loop over EEPROM.write, from `offset` on.
  unfoldable pub write_loop : ℕ → List ℕ → E → E
  write_loop offset [] e = e
  write_loop offset (x ∷ xs) e = write_loop (offset + 1) xs (ops.write offset x e)

  unfoldable pub write : ℕ → List ℕ → EepromStorage E → Bool × EepromStorage E
  unfolding write_loop
  write offset input s =
      if not s.started || outside s offset (length input)
      then (false, s)
      else (true, record s { eeprom = write_loop offset input s.eeprom })

  unfoldable pub commit : EepromStorage E → Bool × EepromStorage E
  commit s =
      let (done, eeprom) = ops.commit s.eeprom in
      if s.started then (done, record s { eeprom = eeprom }) else (false, s)

  -- The loop of erase over EEPROM.write, `n` bytes from `i` on.
  unfoldable pub erase_loop : ℕ → ℕ → E → E
  erase_loop zero i e = e
  erase_loop (suc n) i e = erase_loop n (i + 1) (ops.write i 0xFF e)

  unfoldable pub erase : EepromStorage E → Bool × EepromStorage E
  unfolding erase_loop
  erase s =
      let (done, eeprom) = ops.commit (erase_loop s.size 0 s.eeprom) in
      if s.started then (done, record s { eeprom = eeprom }) else (false, s)

  abbrev pub eeprom_ops : Storage (EepromStorage E)
  eeprom_ops = record {
    capacity = capacity;
    read = read;
    write = write;
    commit = commit;
    erase = erase;
  }
