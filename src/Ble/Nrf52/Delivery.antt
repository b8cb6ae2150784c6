-- ===== src/Ble/Nrf52/Delivery.antt =====
-- The nRF52 BLE transport hands over the packets of its clients as a mailbox does.
use mathlib.Core.List.{Sublistᴰ}
use via_arduino.Base.{
  ℕ, ◌+◌, ◌≡◌, refl, arith, Bool, true, false, ◌&&◌, Option, none, some, List, [], ◌∷◌, ◌++◌,
  length, ◌==◌, if◌then◌else◌, u32, Bool-cases, inl, inr,
}
use via_arduino.Protocol.Packet.{Packet, packet_size}
use via_arduino.Ble.Mailbox
use via_arduino.Ble.Mailbox.{Mailbox, put, get, offered, content, cleared}
use via_arduino.Ble.Mailbox.Delivery.{run_all, all_seen, Simulates, run_all-delivers}
use via_arduino.Ble.Nrf52.{Bluefruit, BleTransport, any_active, on_write, receive}

-- What happens to the request buffer: a client writes FF61, or the protocol asks for a packet. The
-- flag is what xSemaphoreTake returns.
pub data Event : Type 0 where
  write : Bool → List ℕ → Event
  poll : Bool → Event

abbrev pub left : {L : Type 0} → BleTransport L → Option Packet
left s = if s.pending_request then some s.request else none

abbrev pub mailbox : {L : Type 0} → BleTransport L → Mailbox
mailbox s = record { held = left s; dropped = s.dropped_packets }

-- What the mailbox sees of an event: a write of 32 bytes that got the mutex, a poll that got it.
abbrev pub seen : Event → List Mailbox.Event
seen (write taken bytes) = if taken && length bytes == packet_size then put bytes ∷ [] else []
seen (poll taken) = if taken then get ∷ [] else []

cleared-seen : (es : List Event) (m : Mailbox) → cleared (all_seen seen es) m ≡ 0
cleared-seen [] m = refl
cleared-seen (write false bytes ∷ es) m = cleared-seen es m
cleared-seen (write true bytes ∷ es) m = elim (Bool-cases (length bytes == packet_size)) [
  | inl full ↦ rw full (cleared-seen es (Mailbox.step (put bytes) m).1)
  | inr short ↦ rw short (cleared-seen es m)
]
cleared-seen (poll true ∷ es) m = cleared-seen es (Mailbox.step get m).1
cleared-seen (poll false ∷ es) m = cleared-seen es m

module _ {L : Type 0} (ops : Bluefruit L) where
  -- The packet that the protocol receives at an event, if any, and the transport after it.
  abbrev pub apply : Event → BleTransport L → List Packet × BleTransport L
  apply (write taken bytes) s = ([], on_write ops taken bytes s)
  apply (poll taken) s = let (got, s') = receive ops taken s in (content got, s')

  apply-Simulates : Simulates apply seen mailbox (λ s. any_active s ≡ true)
  unfolding on_write receive Mailbox.run Mailbox.step
  apply-Simulates (write false bytes) s h = (ground (arith, h), ground (arith, h))
  apply-Simulates (write true bytes) s h = elim (Bool-cases (length bytes == packet_size)) [
    | inl full ↦ rw full (ground (arith, h, full), ground (arith, h))
    | inr short ↦ rw short (ground (arith, h, short), ground (arith, h))
  ]
  apply-Simulates (poll false) s h = (refl, h)
  apply-Simulates (poll true) s h = elim (Bool-cases s.pending_request) [
    | inl full ↦ (ground (arith, h, full), ground (arith, h))
    | inr empty ↦ (ground (arith, h, empty), ground (arith, h))
  ]

  -- With an active transport, however writes and polls follow one another and whichever of them get
  -- the mutex: the packets received, then the one that waits, are packets that waited before or were
  -- written whole with the mutex taken, each once and in the order of the writes; and each of these
  -- was received, waits, or is counted by droppedPackets, up to the wrap of that 32-bit counter.
  pub nrf52-delivers :
      (es : List Event) (s : BleTransport L)
      → any_active s ≡ true
      → let (got, s') = run_all apply es s in
        Sublistᴰ (got ++ content (left s')) (content (left s) ++ offered (all_seen seen es))
        × (u32 (length got + length (content (left s')) + s'.dropped_packets)
            ≡ u32 (
                length (content (left s))
                + s.dropped_packets
                + length (offered (all_seen seen es))))
  nrf52-delivers es s h =
      let (order, accounts) =
        run_all-delivers apply seen mailbox (λ s. any_active s ≡ true) apply-Simulates es s h in
      (order, omega (arith, accounts, cleared-seen es (mailbox s)))
