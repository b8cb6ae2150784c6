-- ===== src/Ble/Esp32.antt =====
-- src/VIA_ESP32_BLE_ViaTransport.h and src/VIA_ESP32_BLE_ViaTransport.cpp: the transport over NimBLE.
pub mod Delivery
pub mod Hid
use via_arduino.Base.{
  ℕ, ◌+◌, ◌-◌, Bool, true, false, not, ◌&&◌, ◌||◌, Option, none, some, List, [], ◌∷◌,
}
use via_arduino.Base.{
  length, ltb, ◌==◌, if◌then◌else◌, u8, u32, bit_and, ◌>>>◌, replicate, splice, take,
}
use via_arduino.Protocol.Packet.{Packet, packet_size}

-- The NimBLE server, as the transport uses it: the callbacks, the service and its characteristics,
-- which are named by numbers and none for nullptr, their values, a notification on a characteristic,
-- and the number of connections.
pub record NimBle (L : Type 0) : Type 0 where
  pub set_callbacks : L → L
  pub create_service : L → Bool × L
  pub create_ff61 : L → Option ℕ × L
  pub create_ff62 : L → Option ℕ × L
  pub set_value : ℕ → Packet → L → L
  pub notify : ℕ → Packet → L → Bool × L
  pub connected_count : L → ℕ

-- The members of one BLEViaTransport, named by a number, and the static activeTransport_, which is
-- none for nullptr. `mutex` says whether the mutex was created, `server` whether there is a server.
pub record BleTransport (L : Type 0) : Type 0 where
  pub link : L
  pub active : Option ℕ
  pub server : Bool
  pub ff61 : Option ℕ
  pub ff62 : Option ℕ
  pub mutex : Bool
  pub request : Packet
  pub pending_request : Bool
  pub dropped_packets : ℕ
  pub notify_subscribers : ℕ

unfoldable pub new_transport : {L : Type 0} → L → Option ℕ → Bool → BleTransport L
new_transport link active mutex = record {
  link = link;
  active = active;
  server = false;
  ff61 = none;
  ff62 = none;
  mutex = mutex;
  request = replicate packet_size 0;
  pending_request = false;
  dropped_packets = 0;
  notify_subscribers = 0;
}

abbrev pub any_active : {L : Type 0} → BleTransport L → Bool
any_active s = elim s.active [ none ↦ false | some _ ↦ true ]

abbrev pub is_active : {L : Type 0} → ℕ → BleTransport L → Bool
is_active me s = elim s.active [ none ↦ false | some other ↦ other == me ]

-- c == ff61_
abbrev pub is_ff61 : {L : Type 0} → ℕ → BleTransport L → Bool
is_ff61 c s = elim s.ff61 [ none ↦ false | some own ↦ own == c ]

-- The version, big-endian, then the device name, at most 28 bytes of it, over zeros.
unfoldable pub identity : ℕ → List ℕ → Packet
identity version name =
    let info =
      u8 (version >>> 24)
      ∷ u8 (version >>> 16)
      ∷ u8 (version >>> 8)
      ∷ u8 version
      ∷ replicate 28 0 in
    let name_length = if ltb 28 (length name) then 28 else length name in
    splice info 4 (take name_length name)

module _ {L : Type 0} (ops : NimBle L) where
  -- ~BLEViaTransport
  unfoldable pub destroy : ℕ → BleTransport L → BleTransport L
  destroy me s = if is_active me s then record s { active = none } else s

  -- The second characteristic, with the identity, and the transport made active.
  unfoldable pub publish_identity : ℕ → ℕ → List ℕ → BleTransport L → Bool × BleTransport L
  unfolding identity
  publish_identity me version name s =
      let (created, link) = ops.create_ff62 s.link in
      elim created [
        | none ↦ (false, record s { link = link; ff62 = none })
        | some c ↦ (
          true,
          record s {
            link = ops.set_value c (identity version name) link;
            ff62 = some c;
            active = some me;
          },
        )
      ]

  -- A server of false and a device name of none are null pointers.
  unfoldable pub begin : ℕ → Bool → Option (List ℕ) → ℕ → BleTransport L → Bool × BleTransport L
  unfolding publish_identity
  begin me server device_name version s = elim device_name [
    | none ↦ (false, s)
    | some name ↦
        let (service, link) = ops.create_service (ops.set_callbacks s.link) in
        let (created, link') = ops.create_ff61 link in
        let s' = record s { server = true; link = link } in
        if not server || (not s.mutex || any_active s)
        then (false, s)
        else if not service
        then (false, s')
        else (elim created [
          | none ↦ (false, record s' { link = link'; ff61 = none })
          | some c ↦
              publish_identity me version name (record s' {
                link = ops.set_value c (replicate packet_size 0) link';
                ff61 = some c;
              })
        ])
  ]

  -- A write to the characteristic `c`. `taken` is what xSemaphoreTake returns.
  unfoldable pub on_write : Bool → ℕ → List ℕ → BleTransport L → BleTransport L
  on_write taken c bytes s =
      if not (any_active s) || not (is_ff61 c s)
      then s
      else if not (length bytes == packet_size)
      then s
      else if not taken
      then s
      else if s.pending_request
      then record s { dropped_packets = u32 (s.dropped_packets + 1) }
      else record s { request = bytes; pending_request = true }

  unfoldable pub on_subscribe : ℕ → ℕ → BleTransport L → BleTransport L
  on_subscribe c sub_value s =
      if not (any_active s) || not (is_ff61 c s)
      then s
      else if not (bit_and sub_value 0x01 == 0)
      then (if ltb s.notify_subscribers 255
          then record s { notify_subscribers = s.notify_subscribers + 1 }
          else s)
      else if ltb 0 s.notify_subscribers
      then record s { notify_subscribers = s.notify_subscribers - 1 }
      else s

  unfoldable pub on_disconnect : Bool → BleTransport L → BleTransport L
  on_disconnect taken s =
      if not (any_active s)
      then s
      else if not taken
      then s
      else record s { pending_request = false }

  unfoldable pub receive : Bool → BleTransport L → Option Packet × BleTransport L
  receive taken s =
      if not taken
      then (none, s)
      else if s.pending_request
      then (some s.request, record s { pending_request = false })
      else (none, s)

  unfoldable pub connected : BleTransport L → Bool
  connected s = s.server && ltb 0 (ops.connected_count s.link)

  unfoldable pub send : Packet → BleTransport L → Bool × BleTransport L
  unfolding connected
  send packet s = elim s.ff61 [
    | none ↦ (false, s)
    | some c ↦
        let link = ops.set_value c packet s.link in
        let (notified, link') = ops.notify c packet link in
        if not (connected s)
        then (false, s)
        else if ltb 0 s.notify_subscribers
        then (notified, record s { link = link' })
        else (true, record s { link = link })
  ]

  unfoldable pub send_complete : BleTransport L → Bool
  send_complete s = true
