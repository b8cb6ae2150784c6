-- ===== src/Tests/Links.antt =====
-- The BLE transports, the USB device, the pins and the EEPROM at concrete inputs.
use mathlib.Core.List.{Sublistᴰ}
use via_arduino.Base.{
  ℕ, ◌+◌, ◌≤◌, ◌≡◌, refl, Bool, true, false, not, List, [], ◌∷◌, ◌++◌, none, some, length,
  replicate, get_or, set, u32, bit, ◌==◌,
}
use via_arduino.Protocol.Contract.{IsStorage}
use via_arduino.Protocol.Packet.{Packet}
use via_arduino.Keyboard.Report.{KeyboardReport}
use via_arduino.Ble.Mailbox.{offered, content}
use via_arduino.Ble.Mailbox.Delivery.{run_all, all_seen}
use via_arduino.Ble.Nrf52
use via_arduino.Ble.Nrf52.Delivery as NrfDelivery
use via_arduino.Ble.Nrf52.Delivery.{nrf52-delivers}
use via_arduino.Ble.Esp32
use via_arduino.Ble.Esp32.Delivery as EspDelivery
use via_arduino.Ble.Esp32.Delivery.{esp32-delivers, esp32-disconnect}
use via_arduino.Usb.{UsbDriver, UsbDevice, new_device, receive}
use via_arduino.Usb.Flow
use via_arduino.Usb.Flow.{no_transfers, free, run-one_in_flight, arrive_all, receive-arrive_all}
use via_arduino.Matrix.{MatrixConfig, DiodeDirection, Pin, read_columns}
use via_arduino.Gpio.{Arduino, nrf52_io, esp32_io}
use via_arduino.Gpio.Polarity.{read_columns-open}
use via_arduino.Eeprom.{Eeprom, eeprom_ops}
use via_arduino.Eeprom.Laws.{IsEeprom, IsUsable, eeprom-IsStorage}

abbrev ping : Packet
ping = 1 ∷ replicate 31 0

abbrev pong : Packet
pong = 2 ∷ replicate 31 0

abbrev bluefruit : Nrf52.Bluefruit ℕ
bluefruit = record {
  set_up = λ n. n;
  write_ff61 = λ p n. n + 1;
  write_ff62 = λ p n. n + 1;
  notify_enabled = λ n. true;
  notify = λ p n. (true, n + 1);
  connected = λ n. true;
}

abbrev nrf52_idle : Nrf52.BleTransport ℕ
nrf52_idle = Nrf52.new_transport 0 (some 7) true

-- The second write meets a full buffer, the third does not get the mutex.
abbrev nrf52_events : List (NrfDelivery.Event)
nrf52_events =
    NrfDelivery.write true ping
    ∷ NrfDelivery.write true pong
    ∷ NrfDelivery.poll true
    ∷ NrfDelivery.write false ping
    ∷ NrfDelivery.write true pong
    ∷ []

nrf52-delivers_example :
    let (got, s') = run_all (NrfDelivery.apply bluefruit) nrf52_events nrf52_idle in
    let written = offered (all_seen NrfDelivery.seen nrf52_events) in
    Sublistᴰ
      (got ++ content (NrfDelivery.left s'))
      (content (NrfDelivery.left nrf52_idle) ++ written)
    × (u32 (length got + length (content (NrfDelivery.left s')) + s'.dropped_packets)
        ≡ u32 (
            length (content (NrfDelivery.left nrf52_idle))
            + nrf52_idle.dropped_packets
            + length written))
unfolding Nrf52.new_transport
nrf52-delivers_example = nrf52-delivers bluefruit nrf52_events nrf52_idle refl

abbrev nimble : Esp32.NimBle ℕ
nimble = record {
  set_callbacks = λ n. n;
  create_service = λ n. (true, n + 1);
  create_ff61 = λ n. (some 61, n + 1);
  create_ff62 = λ n. (some 62, n + 1);
  set_value = λ c p n. n + 1;
  notify = λ c p n. (true, n + 1);
  connected_count = λ n. 1;
}

abbrev esp32_serving : Esp32.BleTransport ℕ
esp32_serving = (Esp32.begin nimble 7 true (some (65 ∷ [])) 1 (Esp32.new_transport 0 none true)).1

abbrev esp32_events : List (EspDelivery.Event)
esp32_events =
    EspDelivery.write true 61 ping
    ∷ EspDelivery.subscribe 61 1
    ∷ EspDelivery.write true 61 pong
    ∷ EspDelivery.disconnect true
    ∷ EspDelivery.write true 61 pong
    ∷ EspDelivery.poll true
    ∷ []

esp32-IsServing : EspDelivery.IsServing 61 esp32_serving
unfolding Esp32.begin Esp32.new_transport
esp32-IsServing = (refl, refl)

esp32-disconnect_example :
    Sublistᴰ
      (run_all
        (EspDelivery.apply nimble 61)
        (EspDelivery.disconnect true ∷ esp32_events)
        esp32_serving).0
      (offered (all_seen (EspDelivery.seen 61) esp32_events))
esp32-disconnect_example = esp32-disconnect nimble 61 esp32_events esp32_serving esp32-IsServing

abbrev usb_driver : UsbDriver ℕ
usb_driver = record {
  init = λ n. (true, n);
  start = λ n. (true, n);
  transmit = λ endpoint bytes n. (true, n + 1);
  prepare_receive = λ n. n + 1;
  send_control = λ bytes n. n + 1;
  receive_control = λ n. n + 1;
}

abbrev plugged_in : UsbDevice ℕ
plugged_in = new_device 0 (some 7)

abbrev one_key : KeyboardReport
one_key = record { modifiers = 2; keys = 4 ∷ 0 ∷ 0 ∷ 0 ∷ 0 ∷ 0 ∷ [] }

-- The second report meets a busy endpoint.
abbrev usb_events : List Flow.Event
usb_events =
    Flow.init
    ∷ Flow.report one_key
    ∷ Flow.report one_key
    ∷ Flow.packet ping
    ∷ Flow.complete 1
    ∷ Flow.report one_key
    ∷ []

run-one_in_flight_example :
    let (c, s') = Flow.run usb_driver 7 usb_events (no_transfers, plugged_in) in
    (c.reports + free usb_driver 7 s'.kb_tx_busy ≤ c.reports_done + 1)
    × (c.packets + free usb_driver 7 s'.via_tx_busy ≤ c.packets_done + 1)
run-one_in_flight_example = run-one_in_flight usb_driver 7 usb_events plugged_in

-- A driver whose OUT endpoint is prepared or not.
abbrev endpoint_driver : UsbDriver Bool
endpoint_driver = record {
  init = λ u. (true, u);
  start = λ u. (true, u);
  transmit = λ e bytes u. (true, u);
  prepare_receive = λ u. true;
  send_control = λ bytes u. u;
  receive_control = λ u. u;
}

abbrev listening_device : UsbDevice Bool
listening_device = new_device true (some 7)

receive-arrive_all_example :
    let (got, s') = receive endpoint_driver 7 (
      arrive_all endpoint_driver 7
        (λ u. u)
        (λ u. false)
        (λ u. refl)
        (ping ∷ pong ∷ [])
        listening_device) in
    (got ≡ some pong) × ((receive endpoint_driver 7 s').0 ≡ none)
unfolding new_device
receive-arrive_all_example =
    receive-arrive_all endpoint_driver 7 (λ u. u) (λ u. false) (λ u. refl) (ping ∷ []) pong
      listening_device refl refl

-- Pin 2 is held low by a closed switch.
abbrev wired : Arduino (Pin → Bool)
wired = record {
  input_pullup = λ pin m. m;
  output = λ pin m. m;
  write_low = λ pin m. m;
  digital_read = λ pin m. (m pin, m);
  delay_microseconds = λ us m. m;
}

abbrev three_columns : MatrixConfig
three_columns = record {
  row_pins = 10 ∷ [];
  column_pins = 1 ∷ 2 ∷ 3 ∷ [];
  direction = DiodeDirection.col_to_row;
  settle_us = 5;
  debounce_ms = 5;
}

abbrev second_closed : Pin → Bool
second_closed pin = not (pin == 2)

read_columns-open_example :
    (bit (read_columns (nrf52_io wired) three_columns (1 ∷ 2 ∷ 3 ∷ []) 0 (0, second_closed)).0 1
      ≡ false)
    × (bit (read_columns (esp32_io wired) three_columns (1 ∷ 2 ∷ 3 ∷ []) 0 (0, second_closed)).0 1
        ≡ false)
read_columns-open_example =
    read_columns-open wired three_columns (λ m pin. m pin) (λ pin m. refl) (1 ∷ 2 ∷ 3 ∷ [])
      second_closed 1

-- An EEPROM of bytes in memory.
abbrev ram_eeprom : Eeprom (List ℕ)
ram_eeprom = record {
  begin = λ n e. e;
  read = λ i e. get_or e i 0;
  write = λ i v e. set e i v;
  commit = λ e. (true, e);
}

ram-IsEeprom : IsEeprom ram_eeprom (λ e. e)
ram-IsEeprom = record {
  read_lem = λ i e h. refl;
  write_lem = λ i v e h. refl;
  commit_kept = λ e. refl;
}

eeprom-IsStorage_example :
    IsStorage (eeprom_ops ram_eeprom) (IsUsable ram_eeprom (λ e. e) ram-IsEeprom) (λ s. s.eeprom)
eeprom-IsStorage_example = eeprom-IsStorage ram_eeprom (λ e. e) ram-IsEeprom
