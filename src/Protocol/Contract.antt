-- ===== src/Protocol/Contract.antt =====
-- The documented contracts of the interfaces Storage and CustomValue of src/VIA_Protocol.h, which
-- docs/PORTING.md puts on their implementations.
use via_arduino.Base.{Option, none, ℕ, ◌+◌, ◌≤◌, ◌≡◌, true, some, List, length, slice, splice}
use via_arduino.Protocol.Valid.{Below, IsPacket}
use via_arduino.Protocol.Board.{Storage, CustomValue}

-- A storage that keeps bytes, in the states that satisfy `Usable`: what it holds is read back, a
-- successful write changes just the bytes written, and no call that succeeds changes the capacity or
-- leaves those states.
pub record IsStorage {S : Type 0} (ops : Storage S) (Usable : S → Type 0) (contents : S → List ℕ)
    : Type 0 where
  pub holds : (s : S) → Usable s → ops.capacity s ≤ length (contents s)
  pub read_back :
      (s : S) (off n : ℕ)
      → Usable s
      → off + n ≤ ops.capacity s
      → ops.read s off n ≡ some (slice (contents s) off n)
  pub write_lem :
      (off : ℕ) (bytes : List ℕ) (s : S)
      → Usable s
      → (ops.write off bytes s).0 ≡ true
      → Usable (ops.write off bytes s).1
        × (contents (ops.write off bytes s).1 ≡ splice (contents s) off bytes)
        × (ops.capacity (ops.write off bytes s).1 ≡ ops.capacity s)
  pub commit_lem :
      (s : S)
      → Usable s
      → (ops.commit s).0 ≡ true
      → Usable (ops.commit s).1
        × (contents (ops.commit s).1 ≡ contents s)
        × (ops.capacity (ops.commit s).1 ≡ ops.capacity s)
  pub erase_lem :
      (s : S)
      → Usable s
      → (ops.erase s).0 ≡ true
      → Usable (ops.erase s).1
        × (length (contents (ops.erase s).1) ≡ length (contents s))
        × (ops.capacity (ops.erase s).1 ≡ ops.capacity s)

-- A custom value whose saved bytes can be loaded again, by it or by another of the same size.
pub record IsPersistent {C : Type 0} (ops : CustomValue C) : Type 0 where
  pub saved_size :
      (c : C) {bytes : List ℕ}
      → ops.save_state c (ops.state_size c) ≡ some bytes
      → length bytes ≡ ops.state_size c
  pub saved_valid :
      (c d : C) {bytes : List ℕ}
      → ops.state_size d ≡ ops.state_size c
      → ops.save_state c (ops.state_size c) ≡ some bytes
      → ops.validate_state d bytes (ops.state_size d) ≡ true
  pub saved_loads :
      (c d : C) {bytes : List ℕ}
      → ops.state_size d ≡ ops.state_size c
      → ops.save_state c (ops.state_size c) ≡ some bytes
      → ((ops.load_state d bytes (ops.state_size d)).0 ≡ true)
        × (ops.save_state (ops.load_state d bytes (ops.state_size d)).1 (ops.state_size d)
            ≡ some bytes)
  pub size_kept :
      (c : C) (bytes : List ℕ) (n : ℕ)
      → ops.state_size (ops.load_state c bytes n).1 ≡ ops.state_size c

-- A custom value that keeps to bytes, in the states that satisfy `Sound`: packets stay packets, what
-- it saves are bytes, and no call leaves those states.
pub record IsByteWise {C : Type 0} (ops : CustomValue C) (Sound : C → Type 0) : Type 0 where
  pub set_lem :
      (c : C) (p : List ℕ)
      → Sound c
      → IsPacket p
      → IsPacket (ops.set_value c p).1 × Sound (ops.set_value c p).2
  pub get_lem :
      (c : C) (p : List ℕ)
      → Sound c
      → IsPacket p
      → IsPacket (ops.get_value c p).1 × Sound (ops.get_value c p).2
  pub commit_lem :
      (c : C) (p : List ℕ)
      → Sound c
      → IsPacket p
      → IsPacket (ops.save_value c p).1 × Sound (ops.save_value c p).2
  pub reset_lem : (c : C) → Sound c → Sound (ops.reset_value c)
  pub load_lem :
      (c : C) (bytes : List ℕ) (n : ℕ)
      → Sound c
      → Below 256 bytes
      → Sound (ops.load_state c bytes n).1
  pub image_lem :
      (c : C) (n : ℕ) {bytes : List ℕ} → Sound c → ops.save_state c n ≡ some bytes → Below 256 bytes

-- What holds of the custom value, if there is one.
abbrev pub Within : {C : Type 0} → (C → Type 0) → Option C → Type 0
Within P none = Unit {0}
Within P (some c) = P c
