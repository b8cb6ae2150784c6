-- ===== src/Memory.antt =====
-- src/VIA_Memory.h: the storage in RAM and the one-packet transport.
pub mod Laws
use via_arduino.Base.{ℕ, ◌-◌, Bool, true, false, Option, none, some, List, ◌||◌}
use via_arduino.Base.{ltb, if◌then◌else◌, length, replicate, slice, splice}
use via_arduino.Protocol.Board.{Storage}
use via_arduino.Protocol.Packet.{Packet}
use via_arduino.Protocol.Task.{Transport}

-- class MemoryStorage; `buffer` is none for nullptr.
pub record MemoryStorage : Type 0 where
  pub buffer : Option (List ℕ)
  pub size : ℕ

-- The constructor fills the buffer it is given, of `size` bytes.
unfoldable pub new_storage : Bool → ℕ → MemoryStorage
new_storage given size = record {
  buffer = if given then some (replicate size 0xFF) else none;
  size = size;
}

-- offset > length_ || length > length_ - offset
abbrev pub outside : MemoryStorage → ℕ → ℕ → Bool
outside s offset n = ltb s.size offset || ltb (s.size - offset) n

unfoldable pub read : MemoryStorage → ℕ → ℕ → Option (List ℕ)
read s offset n = elim s.buffer [
  | none ↦ none
  | some bytes ↦ if outside s offset n then none else some (slice bytes offset n)
]

unfoldable pub write : ℕ → List ℕ → MemoryStorage → Bool × MemoryStorage
write offset input s = elim s.buffer [
  | none ↦ (false, s)
  | some bytes ↦
      if outside s offset (length input)
      then (false, s)
      else (true, record s { buffer = some (splice bytes offset input) })
]

unfoldable pub erase : MemoryStorage → Bool × MemoryStorage
erase s = elim s.buffer [
  | none ↦ (false, s)
  | some bytes ↦ (true, record s { buffer = some (splice bytes 0 (replicate s.size 0xFF)) })
]

abbrev pub memory_ops : Storage MemoryStorage
memory_ops = record {
  capacity = λ s. s.size;
  read = read;
  write = write;
  commit = λ s. (true, s);
  erase = erase;
}

-- class MemoryTransport.
pub record MemoryTransport : Type 0 where
  pub request : Packet
  pub response : Packet
  pub request_ready : Bool
  pub response_ready : Bool

unfoldable pub receive : MemoryTransport → Option Packet × MemoryTransport
receive t =
    if t.request_ready then (some t.request, record t { request_ready = false }) else (none, t)

unfoldable pub send : Packet → MemoryTransport → Bool × MemoryTransport
send p t = (true, record t { response = p; response_ready = true })

unfoldable pub inject : Packet → MemoryTransport → MemoryTransport
inject p t = record t { request = p; request_ready = true }

unfoldable pub take_response : MemoryTransport → Option Packet × MemoryTransport
take_response t =
    if t.response_ready then (some t.response, record t { response_ready = false }) else (none, t)

abbrev pub memory_link : Transport MemoryTransport
memory_link = record { receive = receive; send = send; send_complete = λ t. (true, t) }
