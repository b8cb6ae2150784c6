-- ===== src/Ble/Nrf52.antt =====
-- src/VIA_nRF52_BLE_ViaTransport.h, src/VIA_nRF52_BLE_ViaTransport.cpp and src/VIA_nRF52_BLE.h: the
-- transport and the keyboard over Bluefruit.
pub mod Delivery
pub mod Hid
use via_arduino.Base.{
  ℕ, ◌+◌, Bool, true, false, not, ◌&&◌, ◌||◌, Option, none, some, List, [], ◌∷◌, ◌++◌,
}
use via_arduino.Base.{
  length, ltb, ◌==◌, if◌then◌else◌, u32, bit_and, ◌>>>◌, replicate, splice, take,
}
use via_arduino.Protocol.Packet.{Packet, packet_size}

-- Bluefruit, as the transport uses it: the calls that set up the service and its characteristics,
-- the values of FF61 and FF62, notifications on FF61, and whether there is a connection.
pub record Bluefruit (L : Type 0) : Type 0 where
  pub set_up : L → L
  pub write_ff61 : Packet → L → L
  pub write_ff62 : Packet → L → L
  pub notify_enabled : L → Bool
  pub notify : Packet → L → Bool × L
  pub connected : L → Bool

-- The members of one BLEViaTransport, named by a number, and the static activeTransport_, which is
-- none for nullptr. `mutex` says whether the mutex was created.
pub record BleTransport (L : Type 0) : Type 0 where
  pub link : L
  pub active : Option ℕ
  pub mutex : Bool
  pub request : Packet
  pub response : Packet
  pub pending_request : Bool
  pub dropped_packets : ℕ

unfoldable pub new_transport : {L : Type 0} → L → Option ℕ → Bool → BleTransport L
new_transport link active mutex = record {
  link = link;
  active = active;
  mutex = mutex;
  request = replicate packet_size 0;
  response = replicate packet_size 0;
  pending_request = false;
  dropped_packets = 0;
}

abbrev pub any_active : {L : Type 0} → BleTransport L → Bool
any_active s = elim s.active [ none ↦ false | some _ ↦ true ]

abbrev pub is_active : {L : Type 0} → ℕ → BleTransport L → Bool
is_active me s = elim s.active [ none ↦ false | some other ↦ other == me ]

-- The version, big-endian, then the device name, at most 28 bytes of it, over zeros.
unfoldable pub identity : ℕ → List ℕ → Packet
identity version name =
    let info =
      bit_and (version >>> 24) 0xFF
      ∷ bit_and (version >>> 16) 0xFF
      ∷ bit_and (version >>> 8) 0xFF
      ∷ bit_and version 0xFF
      ∷ replicate 28 0 in
    let name_length = if ltb 28 (length name) then 28 else length name in
    splice info 4 (take name_length name)

module _ {L : Type 0} (ops : Bluefruit L) where
  -- ~BLEViaTransport
  unfoldable pub destroy : ℕ → BleTransport L → BleTransport L
  destroy me s = if is_active me s then record s { active = none } else s

  -- A device name of none is a null pointer.
  unfoldable pub begin : ℕ → Option (List ℕ) → ℕ → BleTransport L → Bool × BleTransport L
  unfolding identity
  begin me device_name version s = elim device_name [
    | none ↦ (false, s)
    | some name ↦ if not s.mutex || any_active s then (false, s) else (
      true,
      record s {
        active = some me;
        link =
            ops.write_ff62 (identity version name) (ops.write_ff61 s.response (ops.set_up s.link));
      },
    )
  ]

  -- A write to FF61, on the active transport. `taken` is what xSemaphoreTake returns.
  unfoldable pub on_write : Bool → List ℕ → BleTransport L → BleTransport L
  on_write taken bytes s =
      if not (any_active s) || not (length bytes == packet_size)
      then s
      else if not taken
      then s
      else if s.pending_request
      then record s { dropped_packets = u32 (s.dropped_packets + 1) }
      else record s { request = bytes; pending_request = true }

  unfoldable pub receive : Bool → BleTransport L → Option Packet × BleTransport L
  receive taken s =
      if not taken
      then (none, s)
      else if s.pending_request
      then (some s.request, record s { pending_request = false })
      else (none, s)

  unfoldable pub send : Packet → BleTransport L → Bool × BleTransport L
  send packet s =
      let link = ops.write_ff61 packet s.link in
      let (notified, link') = ops.notify packet link in
      if not (ops.connected s.link)
      then (false, s)
      else if ops.notify_enabled link
      then (notified, record s { link = link' })
      else (true, record s { link = link })

  unfoldable pub send_complete : BleTransport L → Bool
  send_complete s = true
