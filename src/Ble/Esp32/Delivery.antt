-- ===== src/Ble/Esp32/Delivery.antt =====
-- The ESP32 BLE transport hands over the packets of its clients as a mailbox does, and none of a
-- client that is gone.
use mathlib.Core.List.{Sublistᴰ}
use mathlib.Core.List.Sublistᴰ
use via_arduino.Base.{
  ℕ, ◌+◌, ◌≡◌, refl, arith, Bool, true, false, ◌&&◌, Option, none, some, List, [], ◌∷◌, ◌++◌,
  length, ◌==◌, if◌then◌else◌, u32, Bool-cases, inl, inr,
}
use via_arduino.Protocol.Packet.{Packet, packet_size}
use via_arduino.Ble.Mailbox
use via_arduino.Ble.Mailbox.{Mailbox, put, get, clear, offered, content, cleared}
use via_arduino.Ble.Mailbox.Delivery.{run_all, all_seen, Simulates, run_all-delivers}
use via_arduino.Ble.Esp32.{NimBle, BleTransport, any_active, on_write, on_subscribe, on_disconnect}
use via_arduino.Ble.Esp32.{receive}

-- What happens to the transport: a client writes to a characteristic or subscribes to it, a
-- connection ends, or the protocol asks for a packet. The flag is what xSemaphoreTake returns.
pub data Event : Type 0 where
  write : Bool → ℕ → List ℕ → Event
  subscribe : ℕ → ℕ → Event
  disconnect : Bool → Event
  poll : Bool → Event

abbrev pub left : {L : Type 0} → BleTransport L → Option Packet
left s = if s.pending_request then some s.request else none

abbrev pub mailbox : {L : Type 0} → BleTransport L → Mailbox
mailbox s = record { held = left s; dropped = s.dropped_packets }

-- What the mailbox sees of an event where FF61 is the characteristic `own`: a write of 32 bytes to
-- it, a disconnection or a poll, each if it got the mutex.
abbrev pub seen : ℕ → Event → List Mailbox.Event
seen own (write taken c bytes) =
    if taken && (own == c && length bytes == packet_size) then put bytes ∷ [] else []
seen own (subscribe c value) = []
seen own (disconnect taken) = if taken then clear ∷ [] else []
seen own (poll taken) = if taken then get ∷ [] else []

-- The transport is the active one, and its FF61 is the characteristic `own`.
abbrev pub IsServing : {L : Type 0} → ℕ → BleTransport L → Type 0
IsServing own s = (any_active s ≡ true) × (s.ff61 ≡ some own)

module _ {L : Type 0} (ops : NimBle L) (own : ℕ) where
  -- The packet that the protocol receives at an event, if any, and the transport after it.
  abbrev pub apply : Event → BleTransport L → List Packet × BleTransport L
  apply (write taken c bytes) s = ([], on_write ops taken c bytes s)
  apply (subscribe c value) s = ([], on_subscribe ops c value s)
  apply (disconnect taken) s = ([], on_disconnect ops taken s)
  apply (poll taken) s = let (got, s') = receive ops taken s in (content got, s')

  apply-Simulates : Simulates apply (seen own) mailbox (IsServing own)
  unfolding on_write on_subscribe on_disconnect receive Mailbox.run Mailbox.step
  apply-Simulates (write false c bytes) s h = (ground (arith, h), ground (arith, h))
  apply-Simulates (write true c bytes) s h =
      elim (Bool-cases (own == c && length bytes == packet_size)) [
        | inl full ↦ rw full (ground (arith, h, full), ground (arith, h))
        | inr short ↦ rw short (ground (arith, h, short), ground (arith, h))
      ]
  apply-Simulates (subscribe c value) s h = (ground (arith, h), ground (arith, h))
  apply-Simulates (disconnect false) s h = (ground (arith, h), ground (arith, h))
  apply-Simulates (disconnect true) s h = (ground (arith, h), ground (arith, h))
  apply-Simulates (poll false) s h = (refl, h)
  apply-Simulates (poll true) s h = elim (Bool-cases s.pending_request) [
    | inl full ↦ (ground (arith, h, full), ground (arith, h))
    | inr empty ↦ (ground (arith, h, empty), ground (arith, h))
  ]

  -- On an active transport, however writes, subscriptions, disconnections and polls follow one
  -- another and whichever of them get the mutex: the packets received, then the one that waits, are
  -- packets that waited before or were written whole to FF61 with the mutex taken, each once and in
  -- the order of the writes; and each of these was received, waits, was cleared by a disconnection
  -- or is counted by droppedPackets, up to the wrap of that 32-bit counter.
  pub esp32-delivers :
      (es : List Event) (s : BleTransport L)
      → IsServing own s
      → let (got, s') = run_all apply es s in
        let written = all_seen (seen own) es in
        Sublistᴰ (got ++ content (left s')) (content (left s) ++ offered written)
        × (u32 (
              length got
              + cleared written (mailbox s)
              + length (content (left s'))
              + s'.dropped_packets)
            ≡ u32 (length (content (left s)) + s.dropped_packets + length (offered written)))
  esp32-delivers es s h =
      run_all-delivers apply (seen own) mailbox (IsServing own) apply-Simulates es s h

  Sublist-front : (xs ys : List Packet) → Sublistᴰ xs (xs ++ ys)
  Sublist-front [] ys = Sublistᴰ.nil-sublist ys
  Sublist-front (x ∷ xs) ys = Sublistᴰ.cons-cons refl (Sublist-front xs ys)

  -- On an active transport, after a disconnection that got the mutex: whatever happens then, every
  -- packet that is received was written after the disconnection.
  pub esp32-disconnect :
      (es : List Event) (s : BleTransport L)
      → IsServing own s
      → Sublistᴰ (run_all apply (disconnect true ∷ es) s).0 (offered (all_seen (seen own) es))
  unfolding on_disconnect
  esp32-disconnect es s h =
      let s' = on_disconnect ops true s in
      let empty : left s' ≡ none = ground (arith, h) in
      let serving : IsServing own s' = ground (arith, h) in
      let (order, _) = esp32-delivers es s' serving in
      let (got, s'') = run_all apply es s' in
      Sublistᴰ.trans (Sublist-front got (content (left s''))) (rw empty at order)
