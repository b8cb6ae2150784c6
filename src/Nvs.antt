-- ===== src/Nvs.antt =====
-- src/VIA_ESP32_NVS.h: storage as one blob of the ESP32 Preferences, with a shadow copy in RAM.
pub mod Durable
use via_arduino.Base.{ℕ, ◌-◌, Bool, true, false, not, ◌||◌, Option, none, some, List, []}
use via_arduino.Base.{length, replicate, slice, splice, ltb, ◌==◌, if◌then◌else◌}
use via_arduino.Protocol.Board.{Storage}

-- Preferences of the ESP32 core, for the one key used: opening the namespace, the bytes that
-- getBytes puts into a buffer of this size, and putBytes with the count that it returns.
pub record Preferences (P : Type 0) : Type 0 where
  pub begin : P → Bool × P
  pub get_bytes : P → ℕ → List ℕ
  pub put_bytes : List ℕ → P → ℕ × P

abbrev pub nvs_capacity : ℕ
nvs_capacity = 4096

pub record NvsStorage (P : Type 0) : Type 0 where
  pub prefs : P
  pub shadow : List ℕ

abbrev pub erased : List ℕ
erased = replicate nvs_capacity 0xFF

unfoldable pub new_storage : {P : Type 0} → P → NvsStorage P
new_storage prefs = record { prefs = prefs; shadow = erased }

-- offset > kCapacity || length > kCapacity - offset
abbrev pub outside : ℕ → ℕ → Bool
outside offset n = ltb nvs_capacity offset || ltb (nvs_capacity - offset) n

module _ {P : Type 0} (ops : Preferences P) where
  unfoldable pub begin : NvsStorage P → Bool × NvsStorage P
  begin s =
      let (opened, prefs) = ops.begin s.prefs in
      let loaded = ops.get_bytes prefs nvs_capacity in
      if not opened then (false, record s { prefs = prefs }) else (
        true,
        record { prefs = prefs; shadow = if length loaded == nvs_capacity then loaded else erased },
      )

  unfoldable pub read : NvsStorage P → ℕ → ℕ → Option (List ℕ)
  read s offset n =
      if n == 0 then some [] else if outside offset n then none else some (slice s.shadow offset n)

  unfoldable pub write : ℕ → List ℕ → NvsStorage P → Bool × NvsStorage P
  write offset input s =
      if length input == 0
      then (true, s)
      else if outside offset (length input)
      then (false, s)
      else (true, record s { shadow = splice s.shadow offset input })

  unfoldable pub commit : NvsStorage P → Bool × NvsStorage P
  commit s =
      let (count, prefs) = ops.put_bytes s.shadow s.prefs in
      (count == nvs_capacity, record s { prefs = prefs })

  unfoldable pub erase : NvsStorage P → Bool × NvsStorage P
  erase s = (true, record s { shadow = erased })

  abbrev pub nvs_ops : Storage (NvsStorage P)
  nvs_ops = record {
    capacity = λ s. nvs_capacity;
    read = read;
    write = write;
    commit = commit;
    erase = erase;
  }
