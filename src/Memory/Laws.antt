-- ===== src/Memory/Laws.antt =====
-- MemoryStorage meets the contract of Storage, and MemoryTransport delivers what it is given.
use via_arduino.Base.{ℕ, ◌≡◌, refl, arith, true, some, none, List, []}
use via_arduino.Base.{length, length-splice, splice, replicate}
use via_arduino.Protocol.Contract.{IsStorage}
use via_arduino.Memory.{MemoryStorage, memory_ops, read, write, erase}

abbrev pub stored_bytes : MemoryStorage → List ℕ
stored_bytes s = elim s.buffer [ none ↦ [] | some bytes ↦ bytes ]

-- A buffer was given, and it has the size that was given with it.
pub record IsUsable (s : MemoryStorage) : Type 0 where
  pub bytes : List ℕ
  pub given : s.buffer ≡ some bytes
  pub sized : length bytes ≡ s.size

write-IsUsable :
    (offset : ℕ) (input : List ℕ) (s : MemoryStorage)
    → IsUsable s
    → (write offset input s).0 ≡ true
    → IsUsable (write offset input s).1
      × (stored_bytes (write offset input s).1 ≡ splice (stored_bytes s) offset input)
      × ((write offset input s).1.size ≡ s.size)
unfolding write
write-IsUsable offset input s u h = (
  record {
    bytes = splice u.bytes offset input;
    given = ground (arith, u.given);
    sized = ground (arith, u.given, u.sized, length-splice u.bytes offset input);
  },
  ground (arith, u.given),
  ground (arith, u.given),
)

erase-IsUsable :
    (s : MemoryStorage)
    → IsUsable s
    → (erase s).0 ≡ true
    → IsUsable (erase s).1
      × (length (stored_bytes (erase s).1) ≡ length (stored_bytes s))
      × ((erase s).1.size ≡ s.size)
unfolding erase
erase-IsUsable s u h = (
  record {
    bytes = splice u.bytes 0 (replicate s.size 0xFF);
    given = ground (arith, u.given);
    sized = ground (arith, u.given, u.sized, length-splice u.bytes 0 (replicate s.size 0xFF));
  },
  ground (arith, u.given, length-splice u.bytes 0 (replicate s.size 0xFF)),
  ground (arith, u.given),
)

-- MemoryStorage over a buffer of the size given with it meets the Storage contract: reads within
-- the capacity return the stored bytes, a successful write replaces just its bytes, commit changes
-- nothing, and no call changes the capacity.
pub memory-IsStorage : IsStorage memory_ops IsUsable stored_bytes
unfolding read
memory-IsStorage = record {
  holds = λ s u. ground (arith, u.given, u.sized);
  read_back = λ s off n u le. ground (arith, u.given, u.sized);
  write_lem = write-IsUsable;
  commit_lem = λ s u h. (u, refl, refl);
  erase_lem = erase-IsUsable;
}
